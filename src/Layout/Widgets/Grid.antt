-- ===== src/Layout/Widgets/Grid.antt =====
-- The widgets of the grid that `Layout` of layout/layout.go returns.
use gotop.Prelude.{
  Bool, true, false, pos, List, [], ◌∷◌, ◌++◌, Option, some, ◌>>=◌, map, length, All, ◌≡◌, ◌≢◌, inl,
  inr, refl, sym, ap, ◌∙◌, subst, arith,
}
use mathlib.Core.List.{Memᴰ}
use mathlib.Core.List.Memᴰ
use gotop.Layout.Parser.{WidgetRule}
use gotop.Layout.Rows.{Placed, Column, UiRow, layout_rows}
use gotop.Layout.Rows.Cover.{InColumn, InUiRow, InGrid}
use gotop.Layout.Widgets.{
  Made, leaf, grid_item, slice, slices, total_height, Forest, nil, cons, deep_find_widget,
  column_items, row_columns, make_rows, row_items, ui_rows, is_scalable, proc_test, net_test,
  MyGrid, layout, searched,
}
use gotop.Layout.Widgets.Find.{leaves, leaves_among, first_some, filter, deep_find-leaves}

-- The rules of the grid, in the order of its tree.
abbrev pub item_rules : List Placed → List WidgetRule
item_rules ps = map (λ p. p.rule) ps

abbrev pub column_rules : List Column → List WidgetRule
column_rules [] = []
column_rules (c ∷ cs) = item_rules c.items ++ column_rules cs

abbrev pub grid_rules : List UiRow → List WidgetRule
grid_rules [] = []
grid_rules (u ∷ us) = column_rules u.columns ++ grid_rules us

map-append : {A B : Type 0} (f : A → B) (xs ys : List A) → map f (xs ++ ys) ≡ map f xs ++ map f ys
map-append f [] ys = refl
map-append f (x ∷ xs) ys = ap (λ (l : List _). f x ∷ l) (map-append f xs ys)

-- The grid of these rows and items, whose widgets are `ms` in the order of its tree.
abbrev pub grid_of : List UiRow → Forest Made → List Made → MyGrid
grid_of uis items ms = record {
  rows = uis;
  max_height = total_height (pos 0) uis;
  items = items;
  lines = filter is_scalable ms;
  proc = first_some proc_test ms;
  net = first_some net_test ms;
}

module _ (make : WidgetRule → Option Made) (mk : WidgetRule → Made)
    (total : (r : WidgetRule) → make r ≡ some (mk r)) where
  column_items-leaves :
      (ps : List Placed)
      → (f : Forest Made) × (column_items make ps ≡ some f)
        × ((deep : Bool) → leaves_among deep f ≡ map mk (item_rules ps))
  unfolding column_items leaves
  column_items-leaves [] = (nil, refl, λ deep. refl)
  column_items-leaves (p ∷ ps) =
      let (f, made, all) = column_items-leaves ps in
      (
        cons (grid_item (leaf (mk p.rule))) f,
        ap (λ o. o >>= λ m. column_items make ps >>= λ rest. some (cons (grid_item (leaf m)) rest))
              (total p.rule)
            ∙ ap (λ o. o >>= λ rest. some (cons (grid_item (leaf (mk p.rule))) rest)) made,
        λ deep. ap (λ (l : List Made). mk p.rule ∷ l) (all deep),
      )

  row_columns-leaves :
      (cs : List Column)
      → (f : Forest Made) × (row_columns make cs ≡ some f)
        × ((deep : Bool) → leaves_among deep f ≡ map mk (column_rules cs))
  unfolding row_columns leaves
  row_columns-leaves [] = (nil, refl, λ deep. refl)
  row_columns-leaves (c ∷ cs) =
      let (items, made, all) = column_items-leaves c.items in
      let (f, made', all') = row_columns-leaves cs in
      (
        cons (grid_item (slice items)) f,
        ap
              (λ o. o >>= λ items.
                row_columns make cs >>= λ rest. some (cons (grid_item (slice items)) rest))
              made
            ∙ ap (λ o. o >>= λ rest. some (cons (grid_item (slice items)) rest)) made',
        λ deep.
            ap (λ (l : List Made). l ++ leaves_among deep f) (all deep)
            ∙ ap (λ (l : List Made). map mk (item_rules c.items) ++ l) (all' deep)
            ∙ sym (map-append mk (item_rules c.items) (column_rules cs)),
      )

  -- The first column of a row is the first of its items.
  first_column :
      (f : Forest Made) (rows : List (Forest Made)) (items : Forest Made)
      → leaves_among true f ≢ []
      → row_items rows ≡ some items
      → row_items (f ∷ rows) ≡ some (cons (grid_item (slice f)) items)
  unfolding leaves
  first_column nil rows items ne done = absurd (ne refl)
  first_column (cons t f) rows items ne done =
      ap (λ o. o >>= λ rest. some (cons (grid_item (slice (cons t f))) rest)) done

  make_rows-leaves :
      (us : List UiRow)
      → All (λ u. column_rules u.columns ≢ []) us
      → (fs : List (Forest Made)) × (items : Forest Made) × (make_rows make us ≡ some fs)
        × (row_items fs ≡ some items)
        × (leaves_among true (ui_rows fs) ≡ map mk (grid_rules us))
        × ((deep : Bool) → leaves_among deep items ≡ map mk (grid_rules us))
  unfolding make_rows leaves
  make_rows-leaves [] wide = ([], nil, refl, refl, refl, λ deep. refl)
  make_rows-leaves (u ∷ us) wide =
      let (f, made, all) = row_columns-leaves u.columns in
      let (fs, items, made', done, all', all'') = make_rows-leaves us wide.1 in
      (
        f ∷ fs,
        cons (grid_item (slice f)) items,
        ap (λ o. o >>= λ row. make_rows make us >>= λ rest. some (row ∷ rest)) made
            ∙ ap (λ o. o >>= λ rest. some (f ∷ rest)) made',
        first_column f fs items
            (λ e. wide.0 (no_rule (column_rules u.columns) (sym (all true) ∙ e))) done,
        with_row true f u.columns (all true) all',
        λ deep. with_row deep f u.columns (all deep) (all'' deep),
      )
    where
      no_rule : (rs : List WidgetRule) → map mk rs ≡ [] → rs ≡ []
      no_rule [] e = refl
      no_rule (r ∷ rs) e = absurd (ground arith)

      with_row :
          {ms : List Made} (deep : Bool) (f : Forest Made) (cs : List Column)
          → leaves_among deep f ≡ map mk (column_rules cs)
          → ms ≡ map mk (grid_rules us)
          → leaves_among deep f ++ ms ≡ map mk (column_rules cs ++ grid_rules us)
      with_row {ms} deep f cs all more =
          ap (λ (l : List Made). l ++ ms) all
          ∙ ap (λ (l : List Made). map mk (column_rules cs) ++ l) more
          ∙ sym (map-append mk (column_rules cs) (grid_rules us))

  searched-leaves :
      (uis : List UiRow) (rows : List (Forest Made)) (items : Forest Made) (ms : List Made)
      → leaves_among true (ui_rows rows) ≡ ms
      → leaves_among false items ≡ ms
      → searched uis rows items ≡ grid_of uis items ms
  unfolding searched leaves
  searched-leaves uis rows items ms all all' =
      let lines =
        (deep_find-leaves proc_test is_scalable (slice items)).1 ∙ ap (filter is_scalable) all' in
      let proc =
        (deep_find-leaves proc_test is_scalable (slices (ui_rows rows))).0
        ∙ ap (first_some proc_test) all in
      let net =
        (deep_find-leaves net_test is_scalable (slices (ui_rows rows))).0
        ∙ ap (first_some net_test) all in
      ap
        (λ l.
          with_fields l (deep_find_widget proc_test (slices (ui_rows rows)))
            (deep_find_widget net_test (slices (ui_rows rows))))
        lines
      ∙ ap
          (λ o.
            with_fields (filter is_scalable ms) o
              (deep_find_widget net_test (slices (ui_rows rows))))
          proc
      ∙ ap (with_fields (filter is_scalable ms) (first_some proc_test ms)) net
    where
      with_fields : List Made → Option Made → Option Made → MyGrid
      with_fields l o n = record {
        rows = uis;
        max_height = total_height (pos 0) uis;
        items = items;
        lines = l;
        proc = o;
        net = n;
      }

  -- `Layout` returns the grid of the widgets of the rows that its loop makes.
  pub layout-grid_of :
      (defs : List (List WidgetRule)) (uis : List UiRow)
      → layout_rows (length defs) defs ≡ some uis
      → All (λ u. column_rules u.columns ≢ []) uis
      → (items : Forest Made) × (layout make defs
          ≡ some (grid_of uis items (map mk (grid_rules uis))))
        × (leaves_among false items ≡ map mk (grid_rules uis))
  unfolding layout
  layout-grid_of defs uis rows wide =
      let (fs, items, made, done, all, all') = make_rows-leaves uis wide in
      (
        items,
        ap
              (λ o. o >>= λ us. make_rows make us >>= λ rows.
                row_items rows >>= λ items. some (searched us rows items))
              rows
            ∙ ap (λ o. o >>= λ rows. row_items rows >>= λ items. some (searched uis rows items))
                made
            ∙ ap (λ o. o >>= λ items. some (searched uis fs items)) done
            ∙ ap some (searched-leaves uis fs items _ all (all' false)),
        all' false,
      )

-- A rule in a row of the grid is one of its rules.
item_rules-Memᴰ : (r : WidgetRule) (ps : List Placed) → InColumn r ps → Memᴰ r (item_rules ps)
item_rules-Memᴰ r [] h = absurd h
item_rules-Memᴰ r (p ∷ ps) (inl e) = Memᴰ.head (sym e)
item_rules-Memᴰ r (p ∷ ps) (inr h) = Memᴰ.tail (item_rules-Memᴰ r ps h)

column_rules-Memᴰ : (r : WidgetRule) (cs : List Column) → InUiRow r cs → Memᴰ r (column_rules cs)
column_rules-Memᴰ r [] h = absurd h
column_rules-Memᴰ r (c ∷ cs) (inl h) = Memᴰ.append_left _ (item_rules-Memᴰ r c.items h)
column_rules-Memᴰ r (c ∷ cs) (inr h) =
    Memᴰ.append_right (item_rules c.items) (column_rules-Memᴰ r cs h)

pub grid_rules-Memᴰ : (r : WidgetRule) (us : List UiRow) → InGrid r us → Memᴰ r (grid_rules us)
grid_rules-Memᴰ r [] h = absurd h
grid_rules-Memᴰ r (u ∷ us) (inl h) = Memᴰ.append_left _ (column_rules-Memᴰ r u.columns h)
grid_rules-Memᴰ r (u ∷ us) (inr h) =
    Memᴰ.append_right (column_rules u.columns) (grid_rules-Memᴰ r us h)

pub some_rule : (cs : List Column) → (r : WidgetRule) × InUiRow r cs → column_rules cs ≢ []
some_rule cs (r, h) e = Memᴰ.not-nil (subst (Memᴰ r) e (column_rules-Memᴰ r cs h))
