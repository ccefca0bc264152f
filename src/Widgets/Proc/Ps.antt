-- ===== src/Widgets/Proc/Ps.antt =====
-- `getProcs` of widgets/proc_linux.go: the fixed columns of what ps prints. The text is ASCII;
-- `none` as the output is an error of the command, and as a result of a line it is a slice out of
-- range. `ParseFloat` is a parameter, by the value that it returns also beside an error.
pub mod Columns
use gotop.Prelude.{
  ℕ, suc, ◌+◌, ◌-◌, ◌≤◌, ◌==◌, leb, ℤ, pos, Bool, true, false, List, [], ◌∷◌, ◌++◌, Option, none,
  some, ◌>>=◌, if◌then◌else◌, Bytes, codes, atoi, atoi_value, length, length-append, take, drop,
  All, ◌≡◌, refl, sym, ap, ◌∙◌, append_assoc, arith,
}
use gotop.Prelude.Strings.{split, trim_space}
use gotop.Widgets.Proc.{Proc}

-- `line[low:high]`
unfoldable pub slice_of : ℕ → ℕ → Bytes → Option Bytes
slice_of low high line =
    if leb high (length line) then some (take (high - low) (drop low line)) else none

-- `strings.TrimSuffix(s, "\n")`
unfoldable pub trim_newline : Bytes → Bytes
trim_newline [] = []
trim_newline (c ∷ []) = if c == b'\n' then [] else c ∷ []
trim_newline (c ∷ d ∷ s) = c ∷ trim_newline (d ∷ s)

module _ {F : Type 0} (parse_float : Bytes → F) where
  unfoldable pub proc_of_line : Bytes → Option (Proc F)
  unfolding slice_of
  proc_of_line line = do
    pid ← slice_of 0 10 line
    cpu ← slice_of 63 68 line
    mem ← slice_of 69 74 line
    command ← slice_of 11 61 line
    args ← slice_of 74 (length line) line
    some (record {
      pid = atoi_value (trim_space pid);
      command_name = trim_space command;
      full_command = args;
      cpu = parse_float (trim_space cpu);
      mem = parse_float (trim_space mem);
    })

  unfoldable pub procs_of_lines : List Bytes → Option (List (Proc F))
  unfolding proc_of_line
  procs_of_lines [] = some []
  procs_of_lines (l ∷ ls) = do p ← proc_of_line l; ps ← procs_of_lines ls; some (p ∷ ps)

  -- What is returned: `none` is a panic, and `some none` an error.
  unfoldable pub get_procs : Option Bytes → Option (Option (List (Proc F)))
  unfolding procs_of_lines
  get_procs none = some none
  get_procs (some output) =
      procs_of_lines (drop 1 (split (trim_newline output) b'\n')) >>= λ ps. some (some ps)
