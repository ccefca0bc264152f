-- ===== src/Layout/Widgets/Total.antt =====
-- What the grid of layout/layout.go holds.
use mathlib.Core.List.{Memᴰ}
use mathlib.Core.List.Memᴰ
use gotop.Prelude.{false, List, some, Bytes, ◌≡◌}
use gotop.Config.{Config}
use gotop.Layout.Widgets.{
  Colorscheme, Made, Name, cpu_name, mem_name, batt_name, net_name, procs_name, MyGrid,
}
use gotop.Layout.Widgets.Find.{leaves_among}
use gotop.Layout.Widgets.Named.{StandsFor}

module _ (sort : List Bytes → List Bytes) (series : Name → List Bytes)
    (c : Config Colorscheme) where
  -- Where the grid keeps a widget beside its items.
  abbrev pub KeptFor : Name → Made → MyGrid → Type 0
  KeptFor procs_name m g = g.proc ≡ some m
  KeptFor net_name m g = g.net ≡ some m
  KeptFor cpu_name m g = Memᴰ m g.lines
  KeptFor mem_name m g = Memᴰ m g.lines
  KeptFor batt_name m g = Memᴰ m g.lines
  KeptFor _ m g = Unit

  -- What the grid holds because of a widget of this name.
  abbrev pub Holds : Name → MyGrid → Type 0
  Holds n g =
      (m : Made) × StandsFor sort series c n m × Memᴰ m (leaves_among false g.items) × KeptFor n m g
