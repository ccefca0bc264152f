-- ===== src/Termui/Numbered/Order.antt =====
-- What the order of termui/linegraph.go says of two names.
use gotop.Prelude.{
  ℕ, zero, suc, ◌+◌, ◌≤◌, ltb, leb, ◌==◌, ℤ, pos, Bool, true, false, not, List, [], ◌∷◌, ◌++◌,
  Option, none, some, if◌then◌else◌, Bytes, atoi, itoa, is_digit, length, length-append,
  length-itoa_le, itoa_head, drop, All, InInt, atoi-itoa, itoa-All, ◌≡◌, refl, sym, ap, ◌∙◌, subst,
  arith,
}
use gotop.Termui.Numbered.{digits_of, by_numbers, less_from, numbered_less}

by_numbers_self : (o : Option ℤ) (rest : Bool) → rest ≡ true → by_numbers o o rest ≡ true
by_numbers_self none rest h = refl
by_numbers_self (some x) rest h = ground arith

less_from_self : (fuel : ℕ) (s : Bytes) → less_from fuel s s ≡ true
unfolding less_from
less_from_self zero s = refl
less_from_self (suc fuel) [] = refl
less_from_self (suc fuel) (c ∷ s) = by_digit (is_digit c) (less_from_self fuel s) (
    by_numbers_self (atoi (digits_of (c ∷ s))) _
      (less_from_self fuel (drop (length (digits_of (c ∷ s))) (c ∷ s))))
  where
    by_digit :
        (b : Bool) {rest after : Bool}
        → rest ≡ true
        → after ≡ true
        → (if b
            then if not b
              then true
              else if ltb (length (digits_of (c ∷ s))) (length (digits_of (c ∷ s)))
              then false
              else after
            else if b
            then false
            else if c == c
            then rest
            else ltb c c)
          ≡ true
    by_digit true h k = ground arith
    by_digit false h k = ground arith

-- A name is less than itself. (`sort.Sort` asks for an order in which it is not.)
pub numbered_less_self : (s : Bytes) → numbered_less s s ≡ true
unfolding numbered_less
numbered_less_self s = less_from_self (suc (length s)) s

digits_of-All : (s : Bytes) → All (λ c. is_digit c ≡ true) s → digits_of s ≡ s
unfolding digits_of
digits_of-All [] h = refl
digits_of-All (c ∷ s) h =
    ap (λ b. if b then c ∷ digits_of s else []) h.0
    ∙ ap (λ (t : Bytes). c ∷ t) (digits_of-All s h.1)

drop_all : {A : Type 0} (xs : List A) → drop (length xs) xs ≡ []
drop_all [] = refl
drop_all (x ∷ xs) = drop_all xs

less_from_nil : (fuel : ℕ) (t : Bytes) → less_from fuel [] t ≡ true
unfolding less_from
less_from_nil zero t = refl
less_from_nil (suc fuel) t = refl

by_length :
    (m n a b : ℕ)
    → (m ≤ n → a ≤ b)
    → (if ltb b a then false else by_numbers (some (pos m)) (some (pos n)) true) ≡ leb m n
by_length m n a b h = ground (arith, h)

round_of_numbers :
    (m n a b : ℕ) (x y : Bool) (adigs bdigs : Option ℤ) (after other : Bool)
    → x ≡ true
    → y ≡ true
    → adigs ≡ some (pos m)
    → bdigs ≡ some (pos n)
    → after ≡ true
    → (m ≤ n → a ≤ b)
    → (if x
        then if not y then true else if ltb b a then false else by_numbers adigs bdigs after
        else other)
      ≡ leb m n
round_of_numbers m n a b false y adigs bdigs after other hx hy ha hb h le =
    absurd (ground (arith, hx))
round_of_numbers m n a b true false adigs bdigs after other hx hy ha hb h le =
    absurd (ground (arith, hy))
round_of_numbers m n a b true true adigs bdigs after other hx hy ha hb h le =
    ap (λ o. if ltb b a then false else by_numbers o bdigs after) ha
    ∙ ap (λ o. if ltb b a then false else by_numbers (some (pos m)) o after) hb
    ∙ ap (λ o. if ltb b a then false else by_numbers (some (pos m)) (some (pos n)) o) h
    ∙ by_length m n a b le

-- The digits of a number's text are the text.
digits_of-itoa : (n : ℕ) (t : Bytes) → itoa (pos n) ≡ t → digits_of t ≡ t
digits_of-itoa n t e = digits_of-All t (subst (All (λ c. is_digit c ≡ true)) e (itoa-All n))

-- Two numbers, of two texts that start with a digit.
numbers :
    (fuel m n c d : ℕ) (s t : Bytes)
    → itoa (pos m) ≡ c ∷ s
    → itoa (pos n) ≡ d ∷ t
    → is_digit c ≡ true
    → is_digit d ≡ true
    → InInt (pos m)
    → InInt (pos n)
    → less_from (suc fuel) (c ∷ s) (d ∷ t) ≡ leb m n
unfolding less_from
numbers fuel m n c d s t em en hc hd fm fn =
    let eA = digits_of-itoa m (c ∷ s) em in
    let eB = digits_of-itoa n (d ∷ t) en in
    round_of_numbers m n (length (digits_of (c ∷ s))) (length (digits_of (d ∷ t))) (is_digit c)
      (is_digit d) (atoi (digits_of (c ∷ s))) (atoi (digits_of (d ∷ t))) _ _ hc hd
      (ap atoi (eA ∙ sym em) ∙ atoi-itoa (pos m) fm) (ap atoi (eB ∙ sym en) ∙ atoi-itoa (pos n) fn)
      (ap
          (λ (l : Bytes).
            less_from fuel (drop (length l) (c ∷ s)) (drop (length (digits_of (c ∷ s))) (d ∷ t)))
          eA
        ∙ ap (λ (l : Bytes). less_from fuel l (drop (length (digits_of (c ∷ s))) (d ∷ t)))
            (drop_all (c ∷ s))
        ∙ less_from_nil fuel _)
      (λ le.
        subst (λ (l : Bytes). length l ≤ length (digits_of (d ∷ t))) (em ∙ sym eA)
          (subst (λ (l : Bytes). length (itoa (pos m)) ≤ length l) (en ∙ sym eB)
            (length-itoa_le m n le)))

itoa_numbers :
    (fuel m n : ℕ)
    → InInt (pos m)
    → InInt (pos n)
    → less_from (suc fuel) (itoa (pos m)) (itoa (pos n)) ≡ leb m n
itoa_numbers fuel m n fm fn =
    let (c, s, em, hc) = itoa_head m in
    let (d, t, en, hd) = itoa_head n in
    ap (λ (l : Bytes). less_from (suc fuel) l (itoa (pos n))) em
    ∙ ap (λ (l : Bytes). less_from (suc fuel) (c ∷ s) l) en
    ∙ numbers fuel m n c d s t em en hc hd fm fn

-- A prefix without digits.
less_from-append :
    (p a b : Bytes) (more fuel : ℕ)
    → All (λ c. is_digit c ≡ false) p
    → more ≡ length p + fuel
    → less_from more (p ++ a) (p ++ b) ≡ less_from fuel a b
unfolding less_from
less_from-append [] a b more fuel h e =
    let same : more ≡ fuel = omega (arith, e) in ap (λ k. less_from k a b) same
less_from-append (c ∷ p) a b zero fuel h e = absurd (omega (arith, e))
less_from-append (c ∷ p) a b (suc more) fuel h e =
    same_head c (is_digit c) _ _ h.0 ∙ less_from-append p a b more fuel h.1 (omega (arith, e))
  where
    same_head :
        (c : ℕ) (x : Bool) (number rest : Bool)
        → x ≡ false
        → (if x then number else if x then false else if c == c then rest else ltb c c) ≡ rest
    same_head c true number rest h = absurd (ground (arith, h))
    same_head c false number rest h = ground arith

-- For a name without digits and two numbers that are an `int`: if the numbers, in decimal, follow
-- the name, then `Less` says whether the first number is at most the second one, so that "CPU2" is
-- before "CPU10".
pub numbered_less-itoa :
    (p : Bytes) (m n : ℕ)
    → All (λ c. is_digit c ≡ false) p
    → InInt (pos m)
    → InInt (pos n)
    → numbered_less (p ++ itoa (pos m)) (p ++ itoa (pos n)) ≡ leb m n
unfolding numbered_less
numbered_less-itoa p m n h fm fn =
    less_from-append p (itoa (pos m)) (itoa (pos n)) (suc (length (p ++ itoa (pos m))))
      (suc (length (itoa (pos m)))) h (omega (arith, length-append p (itoa (pos m))))
    ∙ itoa_numbers (length (itoa (pos m))) m n fm fn
