-- ===== src/Layout/Tests.antt =====
-- Runs of the layout on the texts that cmd/gotop/main.go has built in.
use gotop.Prelude.{
  ℕ, pos, ◌+ℤ◌, wrap_int, List, [], ◌∷◌, Option, none, some, Bytes, codes, All, ◌≡◌, refl, arith,
  itoa, atoi, map,
}
use gotop.Prelude.Strings.{split, fields, lines, trim_space, to_lower}
use gotop.Layout.Parser.{WidgetRule, parse_layout, read_rule}
use gotop.Layout.Parser.Weights.{RowOk, parse_layout-RowOk, read_rule_print}
use gotop.Layout.Rows.{UiRow, process_row, layout_rows, find_column}

abbrev default_text : Bytes
default_text = codes "2:cpu\ndisk/1 2:mem/2\ntemp\n2:net 2:procs"

abbrev rule : Bytes → ℕ → ℕ → ℕ → WidgetRule
rule name share total span = record {
  widget = name;
  weight = record { share = share; total = pos total };
  height = span;
}

abbrev default_rows : List (List WidgetRule)
default_rows =
    (rule (codes "cpu") 1 1 2 ∷ [])
    ∷ (rule (codes "disk") 1 3 1 ∷ rule (codes "mem") 2 3 2 ∷ [])
    ∷ (rule (codes "temp") 1 1 1 ∷ [])
    ∷ (rule (codes "net") 1 2 2 ∷ rule (codes "procs") 1 2 2 ∷ [])
    ∷ []

default_parsed : parse_layout default_text ≡ default_rows
unfolding parse_layout lines split fields trim_space to_lower read_rule atoi wrap_int ◌+ℤ◌
default_parsed = refl

parse_layout-RowOk_example : All RowOk (parse_layout default_text)
parse_layout-RowOk_example = parse_layout-RowOk default_text

read_rule_print_example :
    read_rule (codes "2:MEM/3") ≡ record { name = codes "mem"; share = 3; span = 2 }
unfolding itoa to_lower
read_rule_print_example =
    read_rule_print 2 3 (codes "MEM") (omega arith) (omega arith) (omega arith) (omega arith)
      (refl, (refl, (refl, tt))) (refl, (refl, (refl, tt)))

abbrev names : Option (List UiRow) → Option (List (List (List Bytes)))
names none = none
names (some us) = some (map (λ u. map (λ c. map (λ p. p.rule.widget) c.items) u.columns) us)

-- A widget that was placed before its row ran out of columns is placed again with the rest:
-- the disk widget is shown twice.
shown_twice :
    names (layout_rows 9 (parse_layout (codes "2:cpu mem\ndisk net temp")))
    ≡ some (
        ((codes "cpu" ∷ []) ∷ (codes "mem" ∷ codes "disk" ∷ []) ∷ [])
        ∷ ((codes "disk" ∷ []) ∷ (codes "net" ∷ []) ∷ (codes "temp" ∷ []) ∷ [])
        ∷ [])
unfolding layout_rows process_row parse_layout lines split fields trim_space to_lower read_rule atoi
    wrap_int ◌+ℤ◌ find_column
shown_twice = refl
