-- ===== src/Prelude/Strings.antt =====
-- The functions of Go's `strings` and `bufio` that the program uses, on ASCII text.
use Prim.Native.Nat.{ℕ, ◌+◌}
use mathlib.Core.Path.{◌≡◌, refl, ap, ◌∙◌}
use mathlib.Core.Logic.{◌≢◌, inl, inr}
use mathlib.Core.Bool.{Bool, true, false, not, ◌&&◌, ◌||◌}
use mathlib.Core.List.{List, [], ◌∷◌, ◌++◌, map}
use native.Mathlib.Omega.{arith}
use gotop.Prelude.Tests.{leb, ltb, ◌==◌, if◌then◌else◌, Bool-cases}
use gotop.Prelude.Text.{Bytes}
use gotop.Prelude.Lists.{All}

abbrev pub is_space : ℕ → Bool
is_space c = (c == b' ') || (leb 9 c && leb c 13)

abbrev pub is_nil : Bytes → Bool
is_nil [] = true
is_nil (c ∷ s) = false

-- Puts a byte in front of the first part.
abbrev onto_first : ℕ → List Bytes → List Bytes
onto_first c [] = (c ∷ []) ∷ []
onto_first c (p ∷ ps) = (c ∷ p) ∷ ps

-- The parts between the bytes that `sep` picks.
unfoldable pub split_by : (ℕ → Bool) → Bytes → List Bytes
split_by sep [] = [] ∷ []
split_by sep (c ∷ s) = let rest = split_by sep s in if sep c then [] ∷ rest else onto_first c rest

-- `strings.Split` at a separator of one byte.
unfoldable pub split : Bytes → ℕ → List Bytes
unfolding split_by
split s sep = split_by (λ c. c == sep) s

abbrev drop_nils : List Bytes → List Bytes
drop_nils [] = []
drop_nils (p ∷ ps) = let rest = drop_nils ps in if is_nil p then rest else p ∷ rest

-- `strings.Fields`
unfoldable pub fields : Bytes → List Bytes
unfolding split_by
fields s = drop_nils (split_by is_space s)

abbrev drop_cr : Bytes → Bytes
drop_cr [] = []
drop_cr (c ∷ s) = if is_nil s && (c == 13) then [] else c ∷ drop_cr s

abbrev drop_last_nil : List Bytes → List Bytes
drop_last_nil [] = []
drop_last_nil (p ∷ []) = if is_nil p then [] else p ∷ []
drop_last_nil (p ∷ q ∷ ps) = p ∷ drop_last_nil (q ∷ ps)

-- The lines that `bufio.Scanner` yields: without their "\n", or "\r\n", and without an empty
-- last line.
unfoldable pub lines : Bytes → List Bytes
unfolding split_by
lines s = map drop_cr (drop_last_nil (split_by (λ c. c == b'\n') s))

unfoldable pub trim_left : Bytes → Bytes
trim_left [] = []
trim_left (c ∷ s) = if is_space c then trim_left s else c ∷ s

unfoldable pub trim_right : Bytes → Bytes
trim_right [] = []
trim_right (c ∷ s) = let rest = trim_right s in if is_space c && is_nil rest then [] else c ∷ rest

-- `strings.TrimSpace`
unfoldable pub trim_space : Bytes → Bytes
unfolding trim_left trim_right
trim_space s = trim_left (trim_right s)

unfoldable pub lower : ℕ → ℕ
lower c = if leb b'A' c && leb c b'Z' then c + 32 else c

-- `strings.ToLower`
unfoldable pub to_lower : Bytes → Bytes
unfolding lower
to_lower s = map lower s

-- `strings.HasPrefix`
unfoldable pub has_prefix : Bytes → Bytes → Bool
has_prefix s [] = true
has_prefix [] (p ∷ ps) = false
has_prefix (c ∷ s) (p ∷ ps) = (c == p) && has_prefix s ps

-- `strings.Contains`
unfoldable pub contains : Bytes → Bytes → Bool
unfolding has_prefix
contains [] t = is_nil t
contains (c ∷ s) t = has_prefix (c ∷ s) t || contains s t

-- `strings.Join` with a separator of one byte.
unfoldable pub join : List Bytes → ℕ → Bytes
join [] sep = []
join (p ∷ []) sep = p
join (p ∷ q ∷ ps) sep = p ++ (sep ∷ join (q ∷ ps) sep)

-- `<` on strings compares bytes.
unfoldable pub less : Bytes → Bytes → Bool
less [] [] = false
less [] (y ∷ ys) = true
less (x ∷ xs) [] = false
less (x ∷ xs) (y ∷ ys) = if ltb x y then true else (x == y) && less xs ys

pub split_by-ne-nil : (sep : ℕ → Bool) (s : Bytes) → split_by sep s ≢ []
unfolding split_by
split_by-ne-nil sep [] = ground arith
split_by-ne-nil sep (c ∷ s) = elim (Bool-cases (sep c)) [
  | inl e ↦ rw e (ground arith)
  | inr e ↦ rw e (onto_first-ne-nil c (split_by sep s))
]
  where
    onto_first-ne-nil : (d : ℕ) (ps : List Bytes) → onto_first d ps ≢ []
    onto_first-ne-nil d [] = ground arith
    onto_first-ne-nil d (p ∷ ps) = ground arith

pub to_lower_idem : (s : Bytes) → to_lower (to_lower s) ≡ to_lower s
unfolding to_lower
to_lower_idem [] = refl
to_lower_idem (c ∷ s) = cc (lower_idem c, to_lower_idem s)
  where
    lower_idem : (d : ℕ) → lower (lower d) ≡ lower d
    lower_idem d = ground arith

-- No byte of the text is one that `sep` picks.
abbrev pub Lacks : (ℕ → Bool) → Bytes → Type 0
Lacks sep = All (λ c. sep c ≡ false)

pub split_by-Lacks : (sep : ℕ → Bool) (p : Bytes) → Lacks sep p → split_by sep p ≡ p ∷ []
unfolding split_by
split_by-Lacks sep [] h = refl
split_by-Lacks sep (c ∷ p) (hc, hp) = rw (hc, split_by-Lacks sep p hp)

-- The text before the first separator is the first part.
pub split_by-append :
    (sep : ℕ → Bool) (p : Bytes) (c : ℕ) (rest : Bytes)
    → Lacks sep p
    → sep c ≡ true
    → split_by sep (p ++ (c ∷ rest)) ≡ p ∷ split_by sep rest
unfolding split_by
split_by-append sep [] c rest h hc = rw hc
split_by-append sep (d ∷ p) c rest (hd, hp) hc = rw (hd, split_by-append sep p c rest hp hc)

module _ (p : Bytes) (sep : ℕ) (h : Lacks (λ c. c == sep) p) where
  pub split-Lacks : split p sep ≡ p ∷ []
  unfolding split
  split-Lacks = split_by-Lacks (λ c. c == sep) p h

  pub split-append : (rest : Bytes) → split (p ++ (sep ∷ rest)) sep ≡ p ∷ split rest sep
  unfolding split
  split-append rest = split_by-append (λ c. c == sep) p sep rest h (ground arith)

-- A text that starts with no space has a first field.
fields-cons : (c : ℕ) (s : Bytes) → is_space c ≡ false → fields (c ∷ s) ≢ []
unfolding fields
fields-cons c s h = rw h (first (split_by is_space s))
  where
    first : (ps : List Bytes) → drop_nils (onto_first c ps) ≢ []
    first [] = ground arith
    first (p ∷ ps) = ground arith

fields-trim_left : (s : Bytes) → trim_left s ≢ [] → fields (trim_left s) ≢ []
unfolding trim_left
fields-trim_left [] h = absurd (h refl)
fields-trim_left (c ∷ s) h = elim (Bool-cases (is_space c)) [
  | inl e ↦ rw e (fields-trim_left s (rw e at h))
  | inr e ↦ rw e (fields-cons c s e)
]

-- A line that is not blank has a field.
pub fields-trim_space : (s : Bytes) → trim_space s ≢ [] → fields (trim_space s) ≢ []
unfolding trim_space
fields-trim_space s = fields-trim_left (trim_right s)

-- Texts of visible bytes, none of them '=': what stands around the '=' of an option.
unfoldable pub is_clean : Bytes → Bool
is_clean [] = true
is_clean (c ∷ s) = not (is_space c) && (not (c == b'=') && is_clean s)

pub is_clean-Lacks : (s : Bytes) → is_clean s ≡ true → Lacks (λ c. c == b'=') s
unfolding is_clean
is_clean-Lacks [] h = tt
is_clean-Lacks (c ∷ s) h = (ground arith, is_clean-Lacks s (ground arith))

-- Texts without white space.
abbrev pub Visible : Bytes → Type 0
Visible = All (λ c. is_space c ≡ false)

pub is_clean-Visible : (s : Bytes) → is_clean s ≡ true → Visible s
unfolding is_clean
is_clean-Visible [] h = tt
is_clean-Visible (c ∷ s) h = (ground arith, is_clean-Visible s (ground arith))

trim_right-Visible : (s : Bytes) → Visible s → trim_right s ≡ s
unfolding trim_right
trim_right-Visible [] h = refl
trim_right-Visible (c ∷ s) (hc, hs) = rw (hc, trim_right-Visible s hs)

pub trim_space-Visible : (s : Bytes) → Visible s → trim_space s ≡ s
unfolding trim_space
trim_space-Visible [] h = refl
trim_space-Visible (c ∷ s) (hc, hs) = rw (trim_right-Visible (c ∷ s) (hc, hs)) (rw hc)

-- The lines of a text whose lines hold no line break and end in no "\r" are those lines.
abbrev pub Line : Bytes → Type 0
Line l = Lacks (λ c. c == b'\n') l × (drop_cr l ≡ l)

abbrev pub unlines : List Bytes → Bytes
unlines [] = []
unlines (l ∷ ls) = l ++ (b'\n' ∷ unlines ls)

split_by-unlines :
    (ls : List Bytes) → All Line ls → split_by (λ c. c == b'\n') (unlines ls) ≡ ls ++ ([] ∷ [])
split_by-unlines [] h = unfold split_by in refl
split_by-unlines (l ∷ ls) ((h, _), hs) =
    split_by-append (λ c. c == b'\n') l b'\n' (unlines ls) h refl
    ∙ ap (λ (r : List Bytes). l ∷ r) (split_by-unlines ls hs)

drop_last_nil-append : (ls : List Bytes) → drop_last_nil (ls ++ ([] ∷ [])) ≡ ls
drop_last_nil-append [] = refl
drop_last_nil-append (l ∷ []) = refl
drop_last_nil-append (l ∷ k ∷ ls) = ap (λ (r : List Bytes). l ∷ r) (drop_last_nil-append (k ∷ ls))

map-drop_cr : (ls : List Bytes) → All Line ls → map drop_cr ls ≡ ls
map-drop_cr [] h = refl
map-drop_cr (l ∷ ls) ((_, h), hs) = cc (h, map-drop_cr ls hs)

pub lines-unlines : (ls : List Bytes) → All Line ls → lines (unlines ls) ≡ ls
unfolding lines
lines-unlines ls h =
    ap (λ (r : List Bytes). map drop_cr (drop_last_nil r)) (split_by-unlines ls h)
    ∙ ap (map drop_cr) (drop_last_nil-append ls)
    ∙ map-drop_cr ls h

-- A text without white space is a line.
pub Visible-Line : (s : Bytes) → Visible s → Line s
Visible-Line [] h = (tt, refl)
Visible-Line (c ∷ s) (hc, hs) =
    let (lacks, same) = Visible-Line s hs in ((ground arith, lacks), ground (arith, same))

-- Splitting a join gives the parts back, if there is a part and none holds the separator.
pub split-join :
    (sep : ℕ) (p : Bytes) (ps : List Bytes)
    → All (Lacks (λ c. c == sep)) (p ∷ ps)
    → split (join (p ∷ ps) sep) sep ≡ p ∷ ps
unfolding join
split-join sep p [] (hp, _) = split-Lacks p sep hp
split-join sep p (q ∷ ps) (hp, hps) =
    split-append p sep hp (join (q ∷ ps) sep)
    ∙ ap (λ (r : List Bytes). p ∷ r) (split-join sep q ps hps)
