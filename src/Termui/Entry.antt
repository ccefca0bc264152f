-- ===== src/Termui/Entry.antt =====
-- `Entry` of termui/entry.go: the line editor of the filter, without its `Draw`. A text and an
-- event's ID are lists of runes.
pub mod Draw
use gotop.Prelude.{Bool, false, [], ◌∷◌, ◌++◌, if◌then◌else◌, Bytes, codes, beq, ◌||◌}

pub record Entry : Type 0 where
  pub label : Bytes
  pub value : Bytes
  pub show_when_empty : Bool
  pub editing : Bool

-- The result of `HandleEvent`: not handled, handled, or handled with a call of `update`, which
-- calls `UpdateCallback` with the new value.
pub data Handled : Type 0 where
  ignored : Handled
  kept : Entry → Handled
  updated : Entry → Handled

unfoldable pub set_editing : Bool → Entry → Entry
set_editing editing e = record e { editing = editing }

-- `r[:len(r)-1]` of a text that is not empty
unfoldable pub drop_last : Bytes → Bytes
drop_last [] = []
drop_last (c ∷ []) = []
drop_last (c ∷ d ∷ s) = c ∷ drop_last (d ∷ s)

abbrev pub type_in : Bytes → Entry → Handled
type_in s e = updated (record e { value = e.value ++ s })

abbrev pub backspace : Bytes → Entry → Handled
backspace [] e = kept e
backspace (c ∷ s) e = updated (record e { value = drop_last (c ∷ s) })

-- The IDs that are not one rune.
abbrev pub control : Bytes → Entry → Handled
control id e =
    if beq id (codes "<C-c>") || beq id (codes "<Escape>")
    then updated (record e { value = []; editing = false })
    else if beq id (codes "<Enter>")
    then kept (record e { editing = false })
    else if beq id (codes "<Backspace>")
    then backspace e.value e
    else if beq id (codes "<Space>")
    then type_in (b' ' ∷ []) e
    else ignored

abbrev pub by_id : Bytes → Entry → Handled
by_id (c ∷ []) e = type_in (c ∷ []) e
by_id id e = control id e

unfoldable pub handle_event : Bytes → Entry → Handled
unfolding drop_last
handle_event id e = if e.editing then by_id id e else ignored
