-- ===== src/Termui/Entry/Draw.antt =====
-- `Draw` of termui/entry.go: the texts that it writes on one line. The widths of go-runewidth are
-- parameters; the rectangle is that of the embedded block.
use gotop.Prelude.{
  ℕ, ℤ, pos, negsuc, ◌+ℤ◌, ◌-ℤ◌, ltb_ℤ, Bool, false, not, ◌&&◌, List, [], ◌∷◌, ◌++◌, if◌then◌else◌,
  Bytes, codes, replicate, ◌≡◌, refl,
}
use gotop.Prelude.Strings.{is_nil}
use gotop.Utils.Runes.{truncate_front}
use gotop.Termui.Geometry.{Rect}
use gotop.Termui.Entry.{Entry}

-- The style of the entry, that style in bold, its colours exchanged, and the style of the title.
pub data EntryStyle : Type 0 where
  base bold cursor title : EntryStyle

pub record EntryText : Type 0 where
  pub text : Bytes
  pub style : EntryStyle
  pub x : ℤ

module _ (rune_width : ℕ → ℤ) (string_width : Bytes → ℤ) where
  -- "…"
  abbrev ellipsis : Bytes
  ellipsis = 8230 ∷ []

  -- `strings.Repeat(" ", n)` for a positive count.
  abbrev blanks : ℤ → Bytes
  blanks (pos n) = replicate n b' '
  blanks (negsuc n) = []

  abbrev is_hidden : Entry → Bool
  is_hidden e = is_nil e.value && (not e.editing && not e.show_when_empty)

  abbrev with_cursor : ℤ → ℤ → Bytes → List EntryText
  with_cursor max_len x value =
      let x' = x +ℤ string_width (codes " ") in
      let remaining = max_len -ℤ string_width value in
      let tail = codes "] " in
      record { text = codes " "; style = cursor; x = x }
      ∷ (if ltb_ℤ (pos 0) remaining
          then record { text = blanks remaining; style = title; x = x' }
            ∷ record { text = tail; style = bold; x = x' +ℤ remaining }
            ∷ []
          else record { text = tail; style = bold; x = x' } ∷ [])

  unfoldable pub draw : Rect → Entry → List EntryText
  draw r e =
      let label = if e.editing then e.label ++ codes "[" else e.label in
      let style = if e.editing then bold else base in
      let x = r.min_x +ℤ string_width label in
      let tail = if e.editing then codes "] " else codes " " in
      let room = (r.max_x -ℤ x) -ℤ string_width tail in
      let max_len = if e.editing then room -ℤ pos 1 else room in
      let value = truncate_front rune_width string_width e.value max_len ellipsis in
      let x' = x +ℤ string_width value in
      if is_hidden e
      then []
      else record { text = label; style = style; x = r.min_x }
        ∷ record { text = value; style = base; x = x }
        ∷ (if e.editing
            then with_cursor max_len x' value
            else record { text = tail; style = style; x = x' } ∷ [])

  -- An entry that is empty and not edited writes nothing, unless it is shown when empty.
  draw_hidden :
      (r : Rect) (e : Entry)
      → e.value ≡ []
      → e.editing ≡ false
      → e.show_when_empty ≡ false
      → draw r e ≡ []
  unfolding draw
  draw_hidden r e empty idle plain = rw (empty, idle, plain) refl
