-- ===== src/Layout/Widgets/Find.antt =====
-- What the searches of layout/layout.go through the tree of widgets find.
use gotop.Prelude.{
  Bool, true, false, List, [], ◌∷◌, ◌++◌, Option, none, some, if◌then◌else◌, ◌≡◌, refl, sym, ap,
  ◌∙◌, append_assoc, append-nil,
}
use gotop.Layout.Widgets.{
  Tree, leaf, grid_item, slice, slices, Forest, nil, cons, or_else, deep_find_widget,
  deep_find_among, deep_find_scalable, deep_find_scalables,
}

-- The widgets of a tree, from left to right, with those in a slice of slices or without them.
unfoldable mutual
  pub leaves : {A : Type 0} → Bool → Tree A → List A
  leaves deep (leaf a) = a ∷ []
  leaves deep (grid_item t) = leaves deep t
  leaves deep (slice f) = leaves_among deep f
  leaves deep (slices f) = let all = leaves_among deep f in if deep then all else []

  pub leaves_among : {A : Type 0} → Bool → Forest A → List A
  leaves_among deep nil = []
  leaves_among deep (cons t f) = leaves deep t ++ leaves_among deep f

abbrev pub first_some : {A B : Type 0} → (A → Option B) → List A → Option B
first_some test [] = none
first_some test (a ∷ rest) = or_else (test a) (first_some test rest)

abbrev pub filter : {A : Type 0} → (A → Bool) → List A → List A
filter p [] = []
filter p (a ∷ rest) = (if p a then a ∷ [] else []) ++ filter p rest

module _ {A B : Type 0} (test : A → Option B) (scalable : A → Bool) where
  first_some-append :
      (xs ys : List A)
      → first_some test (xs ++ ys) ≡ or_else (first_some test xs) (first_some test ys)
  first_some-append [] ys = refl
  first_some-append (x ∷ xs) ys = ap (or_else (test x)) (first_some-append xs ys) ∙ assoc (test x)
    where
      assoc :
          (o : Option B)
          → or_else o (or_else (first_some test xs) (first_some test ys))
            ≡ or_else (or_else o (first_some test xs)) (first_some test ys)
      assoc none = refl
      assoc (some b) = refl

  filter-append :
      (xs ys : List A) → filter scalable (xs ++ ys) ≡ filter scalable xs ++ filter scalable ys
  filter-append [] ys = refl
  filter-append (x ∷ xs) ys =
      ap (λ (l : List A). (if scalable x then x ∷ [] else []) ++ l) (filter-append xs ys)
      ∙ sym (append_assoc (if scalable x then x ∷ [] else []) _ _)

  single : (o : Option B) → o ≡ or_else o none
  single none = refl
  single (some b) = refl

  mutual
    unfolding deep_find_widget leaves

    find_first : (t : Tree A) → deep_find_widget test t ≡ first_some test (leaves true t)
    find_first (leaf a) = single (test a)
    find_first (grid_item t) = find_first t
    find_first (slice f) = find_first_among f
    find_first (slices f) = find_first_among f

    find_first_among :
        (f : Forest A) → deep_find_among test f ≡ first_some test (leaves_among true f)
    find_first_among nil = refl
    find_first_among (cons t f) =
        ap (λ o. or_else o (deep_find_among test f)) (find_first t)
        ∙ ap (or_else (first_some test (leaves true t))) (find_first_among f)
        ∙ sym (first_some-append (leaves true t) (leaves_among true f))

  mutual
    unfolding deep_find_scalable leaves

    find_all : (t : Tree A) → deep_find_scalable scalable t ≡ filter scalable (leaves false t)
    find_all (leaf a) = sym (append-nil (if scalable a then a ∷ [] else []))
    find_all (grid_item t) = find_all t
    find_all (slice f) = find_all_among f
    find_all (slices f) = refl

    find_all_among :
        (f : Forest A) → deep_find_scalables scalable f ≡ filter scalable (leaves_among false f)
    find_all_among nil = refl
    find_all_among (cons t f) =
        ap (λ (l : List A). l ++ deep_find_scalables scalable f) (find_all t)
        ∙ ap (λ (l : List A). filter scalable (leaves false t) ++ l) (find_all_among f)
        ∙ sym (filter-append (leaves false t) (leaves_among false f))

  -- `deepFindWidget` finds the first widget of the tree, from left to right, that passes its test;
  -- `deepFindScalable` finds all the widgets that can be scaled, in this order, but for those in a
  -- slice of slices.
  pub deep_find-leaves :
      (t : Tree A)
      → (deep_find_widget test t ≡ first_some test (leaves true t))
        × (deep_find_scalable scalable t ≡ filter scalable (leaves false t))
  deep_find-leaves t = (find_first t, find_all t)
