-- ===== src/Layout/Widgets/Tests.antt =====
-- Runs of the grid of layout/layout.go.
use gotop.Prelude.{
  ℕ, ℤ, pos, Bool, true, false, List, [], ◌∷◌, ◌++◌, Option, none, some, Bytes, codes, beq, ◌≡◌,
  refl, ltb, if◌then◌else◌, wrap_int, ◌+ℤ◌,
}
use gotop.Config.{Config}
use gotop.Layout.Parser.{WidgetRule}
use gotop.Layout.Widgets.{
  Colorscheme, Name, Tree, leaf, grid_item, slice, slices, nil, cons, deep_find_widget,
  deep_find_scalable, assign_from, layout,
}
use gotop.Layout.Widgets.Find.{leaves, first_some, filter, deep_find-leaves}

abbrev scheme : Colorscheme
scheme = record {
  border_label = pos 7;
  cpu_lines = pos 4 ∷ pos 3 ∷ [];
  batt_lines = pos 4 ∷ [];
  mem_lines = pos 5 ∷ [];
  proc_cursor = pos 4;
  sparklines = (pos 4, pos 5);
  temp_low = pos 2;
  temp_high = pos 1;
}

abbrev conf : Config Colorscheme
conf = record {
  graph_horizontal_scale = pos 7;
  help_visible = false;
  colorscheme = scheme;
  update_interval = pos 1000000000;
  average_load = false;
  percpu_load = true;
  statusbar = false;
  temp_scale = b'C';
  net_interface = codes "all";
  layout = codes "default";
  max_log_size = pos 5000000;
  export_port = [];
  mbps = false;
  temps = [];
  test = false;
  extension_vars = [];
  nvidia = false;
  nvidia_refresh = pos 0;
}

abbrev series : Name → List Bytes
series _ = codes "CPU0" ∷ codes "CPU1" ∷ codes "CPU2" ∷ []

abbrev rule : Bytes → WidgetRule
rule name = record { widget = name; weight = record { share = 1; total = pos 1 }; height = 1 }

-- The built-in layout "minimal".
abbrev defs : List (List WidgetRule)
defs = (rule (codes "cpu") ∷ []) ∷ (rule (codes "mem") ∷ rule (codes "procs") ∷ []) ∷ []

-- The third series has the first colour again.
colors_again :
    assign_from 0 (series Name.cpu_name) (scheme.cpu_lines) []
    ≡ some ((codes "CPU0", pos 4) ∷ (codes "CPU1", pos 3) ∷ (codes "CPU2", pos 4) ∷ [])
unfolding assign_from gotop.Prelude.Maps.insert beq
colors_again = refl

abbrev tree : Tree ℕ
tree = slice (
    cons (grid_item (slice (cons (leaf 1) (cons (grid_item (leaf 2)) nil))))
      (cons (slices (cons (slice (cons (leaf 0) nil)) nil)) (cons (leaf 3) nil)))

abbrev from_2 : ℕ → Option ℕ
from_2 n = if ltb n 2 then none else some n

abbrev small : ℕ → Bool
small n = ltb n 3

deep_find-leaves_example :
    (deep_find_widget from_2 tree ≡ first_some from_2 (leaves true tree))
    × (deep_find_scalable small tree ≡ filter small (leaves false tree))
deep_find-leaves_example = deep_find-leaves from_2 small tree
