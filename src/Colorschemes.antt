-- ===== src/Colorschemes.antt =====
-- The registry of colour schemes in colorschemes/registry.go. The folders of the configuration and
-- the JSON reader are arguments: a scheme of the user that is read, or none.
use gotop.Prelude.{
  Bool, true, false, Option, none, some, if◌then◌else◌, Bytes, codes, beq, ◌≡◌, refl, sym, ap, ◌∙◌,
}
use gotop.Prelude.Maps.{Map, lookup, insert, lookup-insert}
use gotop.Prelude.Strings.{is_nil}

module _ {Scheme : Type 0} (named : Bytes → Scheme → Scheme) where
  -- `named` sets the field `Name`.
  unfoldable pub register : Bytes → Scheme → Map Scheme → Map Scheme
  register name c registry = insert name (named name c) registry

module _ {Scheme : Type 0} (custom : Bytes → Option Scheme) where
  abbrev pub or_custom : Bytes → Option Scheme → Option Scheme
  or_custom c none = custom c
  or_custom c (some cs) = some cs

  -- An empty name stands for "default"; a registered scheme goes before one of the user.
  unfoldable pub from_name : Map Scheme → Bytes → Option Scheme
  from_name registry c =
      let name = if is_nil c then codes "default" else c in or_custom name (lookup name registry)

  -- A scheme that has been registered is found by its name, with that name; the search for
  -- another name is as before.
  pub from_name-register :
      (mark : Bytes → Scheme → Scheme) (name c : Bytes) (cs : Scheme) (registry : Map Scheme)
      → is_nil c ≡ false
      → from_name (register mark name cs registry) c
        ≡ (if beq name c then some (mark name cs) else from_name registry c)
  unfolding from_name register
  from_name-register mark name c cs registry ne =
      ap (λ b. look b (insert name (mark name cs) registry)) ne
      ∙ ap (or_custom c) (lookup-insert name c (mark name cs) registry)
      ∙ by_name (beq name c)
      ∙ ap (λ b. if beq name c then some (mark name cs) else look b registry) (sym ne)
    where
      look : Bool → Map Scheme → Option Scheme
      look b m =
          or_custom (if b then codes "default" else c) (lookup (if b then codes "default" else c) m)

      by_name :
          (b : Bool)
          → or_custom c (if b then some (mark name cs) else lookup c registry)
            ≡ (if b then some (mark name cs) else or_custom c (lookup c registry))
      by_name true = refl
      by_name false = refl
