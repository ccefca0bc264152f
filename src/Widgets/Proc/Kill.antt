-- ===== src/Widgets/Proc/Kill.antt =====
-- `KillProc` of widgets/proc.go: what the command that it starts names.
use gotop.Prelude.{
  ℕ, zero, suc, pos, ◌==◌, Bool, true, false, List, [], ◌∷◌, Option, some, ◌>>=◌, if◌then◌else◌,
  map, get_elem?, Bytes, codes, itoa, ◌≡◌, refl, ap, ◌∙◌, arith,
}
use gotop.Widgets.Proc.{Proc, ProcWidget, Platform, Command, shown, row_of, row_at, kill_proc}
use gotop.Widgets.Proc.Rows.{Consistent}

get_elem?-map :
    {A B : Type 0} (f : A → B) (xs : List A) (i : ℕ) (x : A)
    → get_elem? xs i ≡ some x
    → get_elem? (map f xs) i ≡ some (f x)
get_elem?-map f [] i x h = absurd (ground arith)
get_elem?-map f (y ∷ xs) zero x h = let e : y ≡ x = cc in ap (λ z. some (f z)) e
get_elem?-map f (y ∷ xs) (suc i) x h = get_elem?-map f xs i x h

module _ {F : Type 0} (sys : Platform F) where
  -- `pkill` on the command of a group, `kill` on the pid of a process.
  abbrev pub command_for : Bool → Bytes → Proc F → Command
  command_for grouped sig_name p = record {
    command = if grouped then codes "pkill" else codes "kill";
    args = codes "--signal" ∷ sig_name ∷ (if grouped then p.command_name else itoa p.pid) ∷ [];
  }

  abbrev after : ProcWidget F → ProcWidget F
  after w = record w { table = record w.table { selected_item = [] } }

  abbrev starts : Bytes → ProcWidget F → List Bytes → ℕ → Option (Command × ProcWidget F)
  starts sig_name w row col = get_elem? row col >>= (λ target. some (
    record {
      command = if col == 1 then codes "pkill" else codes "kill";
      args = codes "--signal" ∷ sig_name ∷ target ∷ [];
    },
    after w,
  ))

  -- In a consistent state whose cursor is on the process or group `p` of the list that is shown,
  -- `KillProc` does not panic: it starts `pkill` on the command if groups are shown, and `kill` on
  -- the pid if not, with the signal; after it no item is selected.
  pub kill_proc-command_for :
      (sig_name : Bytes) (w : ProcWidget F) (n : ℕ) (p : Proc F)
      → Consistent sys w
      → w.table.selected_row ≡ pos n
      → get_elem? (shown sys w) n ≡ some p
      → kill_proc sys sig_name w
        ≡ some (
          command_for w.show_grouped_procs sig_name p,
          record w { table = record w.table { selected_item = [] } },
        )
  unfolding kill_proc
  kill_proc-command_for sig_name w n p c on_row at =
      ap (λ r. r >>= (λ row. starts sig_name w row w.table.unique_col)) row
      ∙ ap (starts sig_name w (row_of sys w.show_grouped_procs p)) c.column
      ∙ by_mode w.show_grouped_procs
    where
      row : row_at sys w.table.selected_row w.table.rows ≡ some (row_of sys w.show_grouped_procs p)
      row =
          ap (λ z. row_at sys z w.table.rows) on_row
          ∙ ap (λ rows. get_elem? rows n) c.rows
          ∙ get_elem?-map (row_of sys w.show_grouped_procs) (shown sys w) n p at

      by_mode :
          (grouped : Bool)
          → starts sig_name w (row_of sys grouped p) (if grouped then 1 else 0)
            ≡ some (command_for grouped sig_name p, after w)
      by_mode true = refl
      by_mode false = refl
