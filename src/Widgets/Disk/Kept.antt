-- ===== src/Widgets/Disk/Kept.antt =====
-- Which partitions `update` of widgets/disk.go keeps.
use gotop.Prelude.{
  Bool, true, false, not, ◌&&◌, ◌||◌, List, [], ◌∷◌, Option, none, some, if◌then◌else◌, Bytes, beq,
  beq_iff, ◌≡◌, refl, ap, ◌∙◌, inl, inr, arith, Bool-cases,
}
use gotop.Prelude.Maps.{Map, lookup, lookup-insert}
use gotop.Widgets.Disk.{
  Partition, Listed, System, is_hidden, fresh, is_some, add_one, add_new, is_listed, delete_gone,
  refresh_all, update,
}

-- Whether the map has the device.
abbrev pub has : Bytes → Map Partition → Bool
has device m = is_some (lookup device m)

-- Whether the device is listed with a partition that is shown.
abbrev pub is_shown : Bytes → List Listed → Bool
is_shown device [] = false
is_shown device (p ∷ ps) = (not (is_hidden p) && beq p.device device) || is_shown device ps

has-add_one :
    (device : Bytes) (p : Listed) (m : Map Partition)
    → has device (add_one p m) ≡ (has device m || (not (is_hidden p) && beq p.device device))
has-add_one device p m = elim (Bool-cases (is_hidden p)) [
  | inl e ↦ rw e (ground arith)
  | inr e ↦ rw e (elim (Bool-cases (has p.device m)) [
    | inl known ↦ rw known (by_name (beq p.device device) refl known)
    | inr new ↦ rw new (
        ap is_some (lookup-insert p.device device (fresh p) m)
        ∙ inserted (beq p.device device) (lookup device m))
  ])
]
  where
    by_name :
        (b : Bool)
        → beq p.device device ≡ b
        → has p.device m ≡ true
        → has device m ≡ (has device m || b)
    by_name true e known =
        let here = ap (λ d. has d m) ((beq_iff p.device device).0 e) in ground (arith, here, known)
    by_name false e known = ground arith

    inserted :
        (b : Bool) (o : Option Partition)
        → is_some (if b then some (fresh p) else o) ≡ (is_some o || b)
    inserted true none = refl
    inserted true (some v) = refl
    inserted false none = refl
    inserted false (some v) = refl

has-add_new :
    (device : Bytes) (ps : List Listed) (m : Map Partition)
    → has device (add_new ps m) ≡ (has device m || is_shown device ps)
unfolding add_new
has-add_new device [] m = ground arith
has-add_new device (p ∷ ps) m =
    has-add_new device ps (add_one p m)
    ∙ ap (λ b. b || is_shown device ps) (has-add_one device p m)
    ∙ assoc (has device m) (not (is_hidden p) && beq p.device device) (is_shown device ps)
  where
    assoc : (a b c : Bool) → ((a || b) || c) ≡ (a || (b || c))
    assoc true b c = refl
    assoc false b c = refl

has-delete_gone :
    (device : Bytes) (ps : List Listed) (m : Map Partition)
    → has device (delete_gone ps m) ≡ (has device m && is_listed device ps)
unfolding delete_gone lookup
has-delete_gone device ps [] = refl
has-delete_gone device ps ((key, p) ∷ m) =
    ground (arith, beq_iff key device, has-delete_gone device ps m)

has-refresh_all :
    (sys : System) (device : Bytes) (m : Map Partition)
    → has device (refresh_all sys m) ≡ has device m
unfolding refresh_all lookup
has-refresh_all sys device [] = refl
has-refresh_all sys device ((key, p) ∷ m) = ground (arith, has-refresh_all sys device m)

-- After an update a device is kept exactly if it is listed, and it was kept before or is listed
-- with a partition that is not hidden.
pub has-update :
    (sys : System) (device : Bytes) (ps : List Listed) (m : Map Partition)
    (rows : List (List Bytes))
    → has device (update sys (some ps) (m, rows)).0
      ≡ ((has device m || is_shown device ps) && is_listed device ps)
unfolding update
has-update sys device ps m rows =
    has-refresh_all sys device (delete_gone ps (add_new ps m))
    ∙ has-delete_gone device ps (add_new ps m)
    ∙ ap (λ b. b && is_listed device ps) (has-add_new device ps m)
