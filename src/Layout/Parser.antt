-- ===== src/Layout/Parser.antt =====
-- `ParseLayout` of layout/parser.go. The text is ASCII, and a line is shorter than the 64 kB at
-- which `bufio.Scanner` stops. A weight is the fraction that the code stores as a `float64`
-- quotient: a numerator over the total of its row. The messages for the log are left out.
pub mod Weights
use gotop.Prelude.{
  true, ℕ, zero, suc, ◌+◌, ◌<◌, ◌≤◌, ℤ, pos, negsuc, ◌+ℤ◌, leb_ℤ, wrap_int, Bool, ◌||◌, List, [],
  ◌∷◌, Option, none, some, if◌then◌else◌, map, Bytes, beq, atoi, ◌==◌,
}
use gotop.Prelude.Strings.{split, fields, lines, trim_space, to_lower, is_nil}

pub record Weight : Type 0 where
  pub share : ℕ
  pub total : ℤ

pub record WidgetRule : Type 0 where
  pub widget : Bytes
  pub weight : Weight
  pub height : ℕ

-- An `int` that is no number, or below 1, counts as 1.
unfoldable pub at_least_1 : Option ℤ → ℕ
at_least_1 none = 1
at_least_1 (some (pos zero)) = 1
at_least_1 (some (pos (suc n))) = suc n
at_least_1 (some (negsuc n)) = 1

-- `(rowspan:)?widget`, from `strings.Split(ks[0], ":")`: the height and the name.
unfoldable pub name_of : List Bytes → ℕ × Bytes
unfolding at_least_1
name_of (span ∷ name ∷ more) = (at_least_1 (atoi span), to_lower name)
name_of (name ∷ []) = (1, to_lower name)
name_of [] = (1, [])

-- `widget(/weight)?`, from `strings.Split(w, "/")`: the first part and the weight.
unfoldable pub weight_of : List Bytes → Bytes × ℕ
unfolding at_least_1
weight_of (widget ∷ weight ∷ more) = (widget, at_least_1 (atoi weight))
weight_of (widget ∷ []) = (widget, 1)
weight_of [] = ([], 1)

-- A rule while the row is read: its weight is not yet divided.
pub record Raw : Type 0 where
  pub name : Bytes
  pub share : ℕ
  pub span : ℕ

unfoldable pub read_rule : Bytes → Raw
unfolding name_of weight_of
read_rule w =
    let (first, weight) = weight_of (split w b'/') in
    let (height, name) = name_of (split first b':') in
    record { name = name; share = weight; span = height }

-- `weightTotal`, a sum of `int`s.
unfoldable pub weight_total : ℤ → List Raw → ℤ
weight_total total [] = total
weight_total total (r ∷ rs) = weight_total (wrap_int (total +ℤ pos r.share)) rs

unfoldable pub divide : ℤ → Raw → WidgetRule
divide total r = record {
  widget = r.name;
  weight = record { share = r.share; total = total };
  height = r.span;
}

unfoldable pub parse_row : Bytes → List WidgetRule
unfolding read_rule weight_total divide
parse_row l =
    let rules = map read_rule (fields l) in
    let total = weight_total (pos 0) rules in
    map (divide (if leb_ℤ total (pos 1) then pos 1 else total)) rules

-- A blank line, or one that starts with '#'.
unfoldable pub skipped : Bytes → Bool
skipped [] = true
skipped (c ∷ l) = c == b'#'

unfoldable pub parse_lines : List Bytes → List (List WidgetRule)
unfolding skipped parse_row
parse_lines [] = []
parse_lines (line ∷ rest) =
    let l = trim_space line in
    let rows = parse_lines rest in if skipped l then rows else parse_row l ∷ rows

unfoldable pub parse_layout : Bytes → List (List WidgetRule)
unfolding parse_lines
parse_layout text = parse_lines (lines text)
