-- ===== src/Widgets/Temp.antt =====
-- `TempWidget` of widgets/temp.go. A map is the list of its entries, one for a key; the updates of
-- the registered devices, the sort of texts, the trimming of a text to a width and the translations
-- are parameters. A temperature is an integer without wrap-around.
-- A drawing is the list of the texts for the sensors, without that of the block and its title.
pub mod Lines
mod Tests
use gotop.Prelude.{
  ℕ, zero, suc, ◌+◌, ℤ, pos, ◌+ℤ◌, ◌-ℤ◌, ltb_ℤ, Bool, true, false, List, [], ◌∷◌, ◌++◌, Option,
  none, some, if◌then◌else◌, ◌==◌, Bytes, codes, map, length,
}
use gotop.Prelude.Maps.{Map, lookup, insert}
use gotop.Prelude.Strings.{is_nil}
use gotop.Termui.Geometry.{Rect, dx, dy}
use gotop.Utils.{celsius_to_fahrenheit}

pub record TempWidget : Type 0 where
  pub values : Map ℤ
  pub temp_threshold : ℤ
  pub temp_low_color : ℕ
  pub temp_high_color : ℕ
  pub temp_scale : ℕ

abbrev or_zero : Option ℤ → ℤ
or_zero none = pos 0
or_zero (some t) = t

-- The sensors of the filter, or the enabled ones, at 0.
abbrev zeros : List Bytes → Map ℤ → Map ℤ
zeros [] m = m
zeros (t ∷ ts) m = zeros ts (insert t (pos 0) m)

abbrev chosen : List Bytes → List Bytes → List Bytes
chosen [] enabled = enabled
chosen (t ∷ ts) enabled = t ∷ ts

-- `NewTempWidget` before its first update.
unfoldable pub new_temp_widget : ℕ → List Bytes → List Bytes → TempWidget
new_temp_widget scale filter enabled = record {
  values = zeros (chosen filter enabled) [];
  temp_threshold = if scale == b'F' then celsius_to_fahrenheit (pos 80) else pos 80;
  temp_low_color = 0;
  temp_high_color = 0;
  temp_scale = scale;
}

abbrev converted : Map ℤ → Map ℤ
converted [] = []
converted ((k, v) ∷ m) = (k, celsius_to_fahrenheit v) ∷ converted m

unfoldable pub update : (Map ℤ → Map ℤ) → TempWidget → TempWidget
update update_temps w =
    let values = update_temps w.values in
    record w { values = if w.temp_scale == b'F' then converted values else values }

-- A text, its colour (`none` is the default) and where it starts.
pub record TempText : Type 0 where
  pub text : Bytes
  pub color : Option ℕ
  pub x : ℤ
  pub y : ℤ

module _ (trim : Bytes → ℤ → Bytes) (print : ℤ → ℕ → Bytes) (string_bytes : Bytes → ℤ) where
  abbrev line_of : Rect → TempWidget → ℕ → Bytes → List TempText
  line_of r w y key =
      let t = or_zero (lookup key w.values) in
      let temperature = print t w.temp_scale in
      record { text = trim key (dx r -ℤ pos 4); color = none; x = r.min_x; y = r.min_y +ℤ pos y }
      ∷ record {
        text = temperature;
        color = some (if ltb_ℤ t w.temp_threshold then w.temp_low_color else w.temp_high_color);
        x = r.max_x -ℤ (string_bytes temperature -ℤ pos 1);
        y = r.min_y +ℤ pos y;
      }
      ∷ []

  -- The loop over the keys, from line `y` on.
  unfoldable pub draw_keys : Rect → TempWidget → ℕ → List Bytes → List TempText
  draw_keys r w y [] = []
  draw_keys r w y (key ∷ keys) =
      let rest = draw_keys r w (y + 1) keys in
      if ltb_ℤ (dy r) (pos (y + 1)) then [] else line_of r w y key ++ rest

  unfoldable pub draw : (List Bytes → List Bytes) → Rect → TempWidget → List TempText
  unfolding draw_keys
  draw sort r w = draw_keys r w 0 (sort (map (λ e. e.0) w.values))
