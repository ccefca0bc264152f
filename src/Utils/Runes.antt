-- ===== src/Utils/Runes.antt =====
-- `TruncateFront` of utils/runes.go. The widths that go-runewidth gives to a rune and to a text are
-- parameters, in cells; a text is a list of runes.
mod Tests
use gotop.Prelude.{
  ℕ, ℤ, pos, ◌+ℤ◌, ◌-ℤ◌, ◌≤ℤ◌, ◌<ℤ◌, ◌⊎◌, inl, inr, ltb_ℤ, leb_ℤ, int_laws, Bool, true, false,
  Bool-cases, List, [], ◌∷◌, ◌++◌, if◌then◌else◌, Bytes, ◌≡◌, ◌⊎◌, refl, ap, sym, ◌∙◌, inl, inr,
  append_assoc, append-nil, subst,
}

module _ (rune_width : ℕ → ℤ) where
  -- The loop from the last rune to the first: it stops before the rune that is too wide. The runes
  -- that are still to come are in reverse.
  unfoldable pub keep_last : ℤ → ℤ → Bytes → Bytes → Bytes
  keep_last w width kept [] = kept
  keep_last w width kept (c ∷ before) =
      let width = width +ℤ rune_width c in
      let rest = keep_last w width (c ∷ kept) before in if ltb_ℤ w width then kept else rest

  abbrev pub reversed : Bytes → Bytes → Bytes
  reversed done [] = done
  reversed done (c ∷ s) = reversed (c ∷ done) s

  unfoldable pub truncate_front : (Bytes → ℤ) → Bytes → ℤ → Bytes → Bytes
  unfolding keep_last
  truncate_front string_width s w prefix =
      if leb_ℤ (string_width s) w
      then s
      else prefix ++ keep_last (w -ℤ string_width prefix) (pos 0) [] (reversed [] s)

  abbrev pub total_width : Bytes → ℤ
  total_width [] = pos 0
  total_width (c ∷ s) = rune_width c +ℤ total_width s

  small : (w z : ℤ) → ltb_ℤ w z ≡ false → z ≤ℤ w
  small w z e = grind int_laws

  -- The runes that are kept fit.
  keep_last_fits :
      (w width : ℤ) (kept before : Bytes)
      → width ≡ total_width kept
      → width ≤ℤ w
      → total_width (keep_last w width kept before) ≤ℤ w
  unfolding keep_last
  keep_last_fits w width kept [] e h = subst (λ z. z ≤ℤ w) e h
  keep_last_fits w width kept (c ∷ before) e h =
      by_width (ltb_ℤ w (width +ℤ rune_width c)) refl
        (keep_last_fits w (width +ℤ rune_width c) (c ∷ kept) before wider)
    where
      wider : width +ℤ rune_width c ≡ rune_width c +ℤ total_width kept
      wider = ap (λ z. z +ℤ rune_width c) e ∙ omega int_laws

      by_width :
          (b : Bool)
          → ltb_ℤ w (width +ℤ rune_width c) ≡ b
          → (width +ℤ rune_width c ≤ℤ w
              → total_width (keep_last w (width +ℤ rune_width c) (c ∷ kept) before) ≤ℤ w)
          → total_width (if b then kept else keep_last w (width +ℤ rune_width c) (c ∷ kept) before)
            ≤ℤ w
      by_width true _ rest = subst (λ z. z ≤ℤ w) e h
      by_width false e' rest = rest (small w (width +ℤ rune_width c) e')

  reversed_end : (done s : Bytes) → (front : Bytes) × (front ++ done ≡ reversed done s)
  reversed_end done [] = ([], refl)
  reversed_end done (c ∷ s) =
      let (front, e) = reversed_end (c ∷ done) s in
      (front ++ (c ∷ []), append_assoc front (c ∷ []) done ∙ e)

  large : (w z : ℤ) → ltb_ℤ w z ≡ true → w <ℤ z
  large w z e = grind int_laws

  -- No rune is left in front, or the last of them does not fit with the rest in `w` cells.
  abbrev pub Full : ℤ → Bytes → Bytes → Type 0
  Full w front rest =
      (front ≡ [])
      ⊎ ((init : Bytes) × (c : ℕ) × (front ≡ init ++ (c ∷ [])) × (w <ℤ total_width (c ∷ rest)))

  -- They are the end of the text, and as many as fit.
  keep_last_end :
      (w width : ℤ) (kept before : Bytes)
      → width ≡ total_width kept
      → (front : Bytes) × (front ++ keep_last w width kept before ≡ reversed kept before)
        × Full w front (keep_last w width kept before)
  unfolding keep_last
  keep_last_end w width kept [] e = ([], refl, inl refl)
  keep_last_end w width kept (c ∷ before) e =
      by_width (ltb_ℤ w (width +ℤ rune_width c)) refl
        (keep_last_end w (width +ℤ rune_width c) (c ∷ kept) before wider)
    where
      wider : width +ℤ rune_width c ≡ rune_width c +ℤ total_width kept
      wider = ap (λ z. z +ℤ rune_width c) e ∙ omega int_laws

      by_width :
          (b : Bool)
          → ltb_ℤ w (width +ℤ rune_width c) ≡ b
          → (front : Bytes) × (front ++ keep_last w (width +ℤ rune_width c) (c ∷ kept) before
              ≡ reversed (c ∷ kept) before)
            × Full w front (keep_last w (width +ℤ rune_width c) (c ∷ kept) before)
          → (front : Bytes) × (front
                ++ (if b then kept else keep_last w (width +ℤ rune_width c) (c ∷ kept) before)
              ≡ reversed (c ∷ kept) before)
            × Full w front
                (if b then kept else keep_last w (width +ℤ rune_width c) (c ∷ kept) before)
      by_width true wide later =
          let (front, split) = reversed_end (c ∷ kept) before in
          (
            front ++ (c ∷ []),
            append_assoc front (c ∷ []) kept ∙ split,
            inr (front, c, refl, subst (λ z. w <ℤ z) wider (large w (width +ℤ rune_width c) wide)),
          )
      by_width false _ later = later

  reversed_twice : (done s t : Bytes) → reversed t (reversed done s) ≡ reversed (s ++ t) done
  reversed_twice done [] t = refl
  reversed_twice done (c ∷ s) t = reversed_twice (c ∷ done) s t

  -- If the prefix leaves a number of cells that is not negative: a text that is too wide is
  -- replaced by the prefix and the longest end of the text whose runes fit in these cells. Either
  -- the whole text fits, or the rune before that end does not fit with it.
  pub truncate_front_end :
      (string_width : Bytes → ℤ) (s : Bytes) (w : ℤ) (prefix : Bytes)
      → leb_ℤ (string_width s) w ≡ false
      → pos 0 ≤ℤ w -ℤ string_width prefix
      → (front : Bytes) × (rest : Bytes) × (truncate_front string_width s w prefix ≡ prefix ++ rest)
        × (front ++ rest ≡ s)
        × (total_width rest ≤ℤ w -ℤ string_width prefix)
        × Full (w -ℤ string_width prefix) front rest
  unfolding truncate_front
  truncate_front_end string_width s w prefix wide room =
      let left = w -ℤ string_width prefix in
      let (front, e, full) = keep_last_end left (pos 0) [] (reversed [] s) refl in
      (
        front,
        keep_last left (pos 0) [] (reversed [] s),
        rw wide refl,
        e ∙ reversed_twice [] s [] ∙ append-nil s,
        keep_last_fits left (pos 0) [] (reversed [] s) refl room,
        full,
      )
