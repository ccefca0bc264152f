-- ===== src/Layout/Widgets/Named.antt =====
-- The widget that a name of a layout stands for, in layout/layout.go, and that it can be made.
use gotop.Prelude.{
  ℕ, suc, ◌<◌, ℤ, Bool, true, false, not, leb, List, [], ◌∷◌, Option, none, some, ◌>>=◌, map,
  length, get_elem?-some, All, Bytes, if◌then◌else◌, ◌≡◌, ◌≢◌, ◌⊎◌, inl, inr, refl, sym, ap, ◌∙◌,
  subst, arith,
}
use gotop.Prelude.Maps.{Map, insert}
use gotop.Prelude.Strings.{is_nil}
use gotop.Config.{Config}
use gotop.Layout.Parser.{WidgetRule}
use gotop.Layout.Widgets.{
  Colorscheme, Widget, Made, Name, disk_name, cpu_name, mem_name, batt_name, temp_name, net_name,
  procs_name, power_name, unknown, name_of_widget, assign_from, assign_colors, colored, make_named,
  make_widget, is_scalable, proc_test, net_test,
}

first_color :
    (i : ℕ) (colors : List ℤ)
    → colors ≢ []
    → (if leb (length colors) i then 0 else i) < length colors
first_color i [] ne = absurd (ne refl)
first_color i (c ∷ colors) ne = ground arith

-- With a colour, every series gets one.
assign_from_total :
    (i : ℕ) (keys : List Bytes) (colors : List ℤ) (assign : Map ℤ)
    → colors ≢ []
    → (m : Map ℤ) × (assign_from i keys colors assign ≡ some m)
unfolding assign_from
assign_from_total i [] colors assign ne = (assign, refl)
assign_from_total i (v ∷ keys) colors assign ne =
    let j = if leb (length colors) i then 0 else i in
    let (c, at) = get_elem?-some colors j (first_color i colors ne) in
    let (m, rest) = assign_from_total (suc j) keys colors (insert v c assign) ne in
    (m, ap (λ o. o >>= λ c. assign_from (suc j) keys colors (insert v c assign)) at ∙ rest)

-- The colours that the graphs are given.
abbrev pub HasColors : Colorscheme → Type 0
HasColors s = (s.cpu_lines ≢ []) × (s.mem_lines ≢ []) × (s.batt_lines ≢ [])

module _ (sort : List Bytes → List Bytes) (series : Name → List Bytes)
    (c : Config Colorscheme) where
  abbrev pub made_of : Widget → Made
  made_of w = record { widget = w; exported = not (is_nil c.export_port) }

  -- The widget that a name stands for.
  abbrev pub StandsFor : Name → Made → Type 0
  StandsFor disk_name m = m ≡ made_of Widget.disk
  StandsFor cpu_name m =
      (colors : Map ℤ) × (assign_colors sort series c cpu_name c.colorscheme.cpu_lines
        ≡ some colors)
      × (m
          ≡ made_of (
              Widget.cpu c.update_interval c.graph_horizontal_scale c.average_load c.percpu_load
                colors))
  StandsFor mem_name m =
      (colors : Map ℤ) × (assign_colors sort series c mem_name c.colorscheme.mem_lines
        ≡ some colors)
      × (m ≡ made_of (Widget.mem c.update_interval c.graph_horizontal_scale colors))
  StandsFor batt_name m =
      (colors : Map ℤ) × (assign_colors sort series c batt_name c.colorscheme.batt_lines
        ≡ some colors)
      × (m ≡ made_of (Widget.batt c.graph_horizontal_scale colors))
  StandsFor temp_name m =
      m ≡ made_of (Widget.temp c.temp_scale c.temps c.colorscheme.temp_low c.colorscheme.temp_high)
  StandsFor net_name m =
      m
      ≡ made_of
          (Widget.net c.net_interface c.colorscheme.sparklines c.colorscheme.border_label c.mbps)
  StandsFor procs_name m = m ≡ made_of (Widget.procs c.colorscheme.proc_cursor)
  StandsFor power_name m = m ≡ made_of (Widget.power c.colorscheme.proc_cursor)
  StandsFor unknown m = m ≡ record { widget = Widget.block; exported = false }

  colored_made :
      (o : Option (Map ℤ)) (w : Map ℤ → Widget) (m : Made)
      → colored c o w ≡ some m
      → (colors : Map ℤ) × (o ≡ some colors) × (m ≡ made_of (w colors))
  colored_made none w m e = absurd (ground (arith, e))
  colored_made (some colors) w m e = (colors, refl, sym (some_inj e))
    where
      some_inj : {a b : Made} → some a ≡ some b → a ≡ b
      some_inj {a} e = ap (or_self a) e
        where
          or_self : Made → Option Made → Made
          or_self d none = d
          or_self d (some m) = m

  pub is_made : (n : Name) (m : Made) → make_named sort series c n ≡ some m → StandsFor n m
  unfolding make_named
  is_made disk_name m e = cc
  is_made cpu_name m e = colored_made _ _ m e
  is_made mem_name m e = colored_made _ _ m e
  is_made batt_name m e = colored_made _ _ m e
  is_made temp_name m e = cc
  is_made net_name m e = cc
  is_made procs_name m e = cc
  is_made power_name m e = cc
  is_made unknown m e = cc

  colored_total :
      (name : Name) (colors : List ℤ) (w : Map ℤ → Widget)
      → colors ≢ []
      → (m : Made) × (colored c (assign_colors sort series c name colors) w ≡ some m)
  unfolding assign_colors
  colored_total name colors w ne =
      let (m, e) = assign_from_total 0 (sort (series name)) colors [] ne in
      (record { widget = w m; exported = not (is_nil c.export_port) }, ap (λ o. colored c o w) e)

  pub make_named_total :
      (n : Name) → HasColors c.colorscheme → (m : Made) × (make_named sort series c n ≡ some m)
  unfolding make_named
  make_named_total disk_name h = (_, refl)
  make_named_total cpu_name h = colored_total cpu_name c.colorscheme.cpu_lines _ h.0
  make_named_total mem_name h = colored_total mem_name c.colorscheme.mem_lines _ h.1
  make_named_total batt_name h = colored_total batt_name c.colorscheme.batt_lines _ h.2
  make_named_total temp_name h = (_, refl)
  make_named_total net_name h = (_, refl)
  make_named_total procs_name h = (_, refl)
  make_named_total power_name h = (_, refl)
  make_named_total unknown h = (_, refl)

  abbrev pub proc_made : Made
  proc_made = record {
    widget = Widget.procs c.colorscheme.proc_cursor;
    exported = not (is_nil c.export_port);
  }

  abbrev pub net_made : Made
  net_made = record {
    widget = Widget.net c.net_interface c.colorscheme.sparklines c.colorscheme.border_label c.mbps;
    exported = not (is_nil c.export_port);
  }

  abbrev pub test_of : (Made → Option Made) → Option Made → Option Made
  test_of test none = none
  test_of test (some m) = test m

  abbrev pub unless_scalable : Option Made → Bool
  unless_scalable none = true
  unless_scalable (some m) = is_scalable m

  colored_passes :
      (test : Made → Option Made) (o : Option (Map ℤ)) (w : Map ℤ → Widget)
      → ((m : Map ℤ) → test (record { widget = w m; exported = not (is_nil c.export_port) }) ≡ none)
      → test_of test (colored c o w) ≡ none
  colored_passes test none w h = refl
  colored_passes test (some m) w h = h m

  pub colored_scalable :
      (o : Option (Map ℤ)) (w : Map ℤ → Widget)
      → ((m : Map ℤ)
          → is_scalable (record { widget = w m; exported = not (is_nil c.export_port) }) ≡ true)
      → unless_scalable (colored c o w) ≡ true
  colored_scalable none w h = refl
  colored_scalable (some m) w h = h m

  pub proc_passes :
      (n : Name)
      → (test_of proc_test (make_named sort series c n) ≡ none)
        ⊎ (test_of proc_test (make_named sort series c n) ≡ some proc_made)
  unfolding make_named
  proc_passes disk_name = inl refl
  proc_passes cpu_name =
      inl (colored_passes proc_test (assign_colors sort series c _ _) _ (λ m. refl))
  proc_passes mem_name =
      inl (colored_passes proc_test (assign_colors sort series c _ _) _ (λ m. refl))
  proc_passes batt_name =
      inl (colored_passes proc_test (assign_colors sort series c _ _) _ (λ m. refl))
  proc_passes temp_name = inl refl
  proc_passes net_name = inl refl
  proc_passes procs_name = inr refl
  proc_passes power_name = inl refl
  proc_passes unknown = inl refl

  pub net_passes :
      (n : Name)
      → (test_of net_test (make_named sort series c n) ≡ none)
        ⊎ (test_of net_test (make_named sort series c n) ≡ some net_made)
  unfolding make_named
  net_passes disk_name = inl refl
  net_passes cpu_name =
      inl (colored_passes net_test (assign_colors sort series c _ _) _ (λ m. refl))
  net_passes mem_name =
      inl (colored_passes net_test (assign_colors sort series c _ _) _ (λ m. refl))
  net_passes batt_name =
      inl (colored_passes net_test (assign_colors sort series c _ _) _ (λ m. refl))
  net_passes temp_name = inl refl
  net_passes net_name = inr refl
  net_passes procs_name = inl refl
  net_passes power_name = inl refl
  net_passes unknown = inl refl

  -- All widgets of the grid pass as these of the names do.
  pub all_pass :
      (test : Made → Option Made) (x : Made) (mk : WidgetRule → Made) (rs : List WidgetRule)
      → ((n : Name)
          → (test_of test (make_named sort series c n) ≡ none)
            ⊎ (test_of test (make_named sort series c n) ≡ some x))
      → ((r : WidgetRule) → make_widget sort series c r ≡ some (mk r))
      → All (λ m. (test m ≡ none) ⊎ (test m ≡ some x)) (map mk rs)
  unfolding make_widget
  all_pass test x mk [] pass total = tt
  all_pass test x mk (r ∷ rs) pass total = (
    subst (λ o. (test_of test o ≡ none) ⊎ (test_of test o ≡ some x)) (total r)
        (pass (name_of_widget r.widget)),
    all_pass test x mk rs pass total,
  )
