-- ===== src/Widgets/Net/Recent.antt =====
-- What `update` of widgets/net.go counts: the interfaces, and the traffic since the last update.
use gotop.Prelude.{
  ℕ, ◌^◌, ◌<◌, Bool, true, false, List, [], ◌∷◌, Option, none, some, if◌then◌else◌, ◌==◌, Bytes,
  codes, drop, beq, beq_self, All, All-append, ◌≡◌, refl, ap, ◌∙◌, inl, inr, arith, Bool-cases,
}
use gotop.Prelude.Maps.{Map, lookup, insert, delete, lookup-insert, lookup-delete}
use gotop.Prelude.Strings.{has_prefix}
use gotop.Widgets.Net.{
  Sparkline, sampled, Counters, NetWidget, Format, wish, wishes, or_false, is_counted, wanted,
  recent, update,
}

recent_bound : (total last : ℕ) → recent total last < 2 ^ 63
unfolding recent
recent_bound total last = ground arith

-- What the list of interfaces says of a name: the last entry that names it, with or without '!'.
abbrev pub named : Bytes → List Bytes → Option Bool → Option Bool
named name [] b = b
named name (i ∷ is) b = named name is (
    if has_prefix i (codes "!")
    then if beq (drop 1 i) name then some false else b
    else if beq i name
    then some true
    else b)

-- Whether names that the list does not have are counted: not after an entry without '!', but for
-- "all", and not after "!all".
abbrev pub others : List Bytes → Bool → Bool
others [] b = b
others (i ∷ is) b = others is (
    if has_prefix i (codes "!")
    then if beq (drop 1 i) (codes "all") then false else b
    else beq i (codes "all"))

lookup-wish :
    (name i : Bytes) (m : Map Bool)
    → beq (codes "all") name ≡ false
    → lookup name (wish i m) ≡ (
        if has_prefix i (codes "!")
        then if beq (drop 1 i) name then some false else lookup name m
        else if beq i name
        then some true
        else lookup name m)
lookup-wish name i m apart = elim (Bool-cases (has_prefix i (codes "!"))) [
  | inl e ↦ rw e (lookup-insert (drop 1 i) name false m)
  | inr e ↦ rw e (
      lookup-insert i name true (delete (codes "all") m)
      ∙ ap (λ o. if beq i name then some true else o) kept)
]
  where
    kept : lookup name (delete (codes "all") m) ≡ lookup name m
    kept = lookup-delete (codes "all") name m ∙ rw apart refl

lookup-wishes :
    (name : Bytes) (is : List Bytes) (m : Map Bool)
    → beq (codes "all") name ≡ false
    → lookup name (wishes is m) ≡ named name is (lookup name m)
lookup-wishes name [] m apart = refl
lookup-wishes name (i ∷ is) m apart =
    lookup-wishes name is (wish i m) apart ∙ ap (named name is) (lookup-wish name i m apart)

others-wish :
    (i : Bytes) (m : Map Bool)
    → or_false (lookup (codes "all") (wish i m)) ≡ (
        if has_prefix i (codes "!")
        then if beq (drop 1 i) (codes "all") then false else or_false (lookup (codes "all") m)
        else beq i (codes "all"))
others-wish i m = elim (Bool-cases (has_prefix i (codes "!"))) [
  | inl e ↦ rw e (
      ap or_false (lookup-insert (drop 1 i) (codes "all") false m)
      ∙ both (beq (drop 1 i) (codes "all")) (lookup (codes "all") m))
  | inr e ↦ rw e (
      ap or_false (lookup-insert i (codes "all") true (delete (codes "all") m))
      ∙ gone (beq i (codes "all")))
]
  where
    both :
        (b : Bool) (o : Option Bool)
        → or_false (if b then some false else o) ≡ (if b then false else or_false o)
    both true o = refl
    both false o = refl

    gone :
        (b : Bool)
        → or_false (if b then some true else lookup (codes "all") (delete (codes "all") m)) ≡ b
    gone true = refl
    gone false =
        ap or_false {y = none}
          (lookup-delete (codes "all") (codes "all") m ∙ rw (beq_self (codes "all")) refl)

others-wishes :
    (is : List Bytes) (m : Map Bool)
    → or_false (lookup (codes "all") (wishes is m)) ≡ others is (or_false (lookup (codes "all") m))
others-wishes [] m = refl
others-wishes (i ∷ is) m = others-wishes is (wish i m) ∙ ap (others is) (others-wish i m)

-- The map before the list of interfaces is read.
abbrev at_start : Map Bool
at_start = insert (codes "tun0") false (insert (codes "all") true [])

at_start_named :
    (name : Bytes)
    → beq (codes "all") name ≡ false
    → lookup name at_start ≡ (if beq (codes "tun0") name then some false else none)
at_start_named name apart =
    lookup-insert (codes "tun0") name false (insert (codes "all") true [])
    ∙ ap (λ o. if beq (codes "tun0") name then some false else o) rest
  where
    rest : lookup name (insert (codes "all") true []) ≡ none
    rest = lookup-insert (codes "all") name true [] ∙ rw apart (unfold lookup in refl)

-- An interface (other than one named "all") is counted if the last entry of the list that names it
-- has no '!'; if no entry names it, "tun0" is not counted, and another one is if the entries leave
-- the others on: they are on at first, "all" turns them on, "!all" and a name without '!' off.
pub wanted-named :
    (ifaces : List Bytes) (name : Bytes)
    → beq (codes "all") name ≡ false
    → wanted ifaces name
      ≡ (elim (named name ifaces (if beq (codes "tun0") name then some false else none)) [
        | some b ↦ b
        | none ↦ others ifaces true
      ])
unfolding wanted
wanted-named ifaces name apart =
    ap (λ o. is_counted o (wishes ifaces at_start))
      (lookup-wishes name ifaces at_start apart
        ∙ ap (named name ifaces) (at_start_named name apart))
    ∙ by_name (named name ifaces (if beq (codes "tun0") name then some false else none))
  where
    by_name :
        (o : Option Bool)
        → is_counted o (wishes ifaces at_start)
          ≡ (elim o [ some b ↦ b | none ↦ others ifaces true ])
    by_name (some b) = refl
    by_name none =
        others-wishes ifaces at_start ∙ ap (others ifaces) (unfold insert lookup beq in refl)

-- Samples that are not negative as an `int`.
abbrev pub Sampled : NetWidget → Type 0
Sampled net =
    All (λ n. n < 2 ^ 63) net.recv_line.samples × All (λ n. n < 2 ^ 63) net.sent_line.samples

-- If no sample of the two lines is negative as an `int`, then none is after an update, even if a
-- counter has been reset or has wrapped around.
pub update-Sampled :
    {F : Type 0} (fmt : Format F) (interfaces : Option (List Counters)) (net : NetWidget)
    → Sampled net
    → Sampled (update fmt interfaces net)
unfolding update
update-Sampled fmt none net h = h
update-Sampled fmt (some interfaces) net h = (
  grow (net.total_bytes_recv == 0) (recent _ net.total_bytes_recv) net.recv_line (recent_bound _ _)
      h.0,
  grow (net.total_bytes_recv == 0) (recent _ net.total_bytes_sent) net.sent_line (recent_bound _ _)
      h.1,
)
  where
    grow :
        (b : Bool) (n : ℕ) (line : Sparkline)
        → n < 2 ^ 63
        → All (λ k. k < 2 ^ 63) line.samples
        → All (λ k. k < 2 ^ 63) (if b then line else sampled (if b then 0 else n) line).samples
    grow true n line small hs = hs
    grow false n line small hs = All-append (λ k. k < 2 ^ 63) line.samples (n ∷ []) hs (small, tt)
