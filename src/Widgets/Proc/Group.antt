-- ===== src/Widgets/Proc/Group.antt =====
-- `groupProcs` of widgets/proc.go: which groups it makes of a list of processes.
use gotop.Prelude.{
  ℕ, ◌+◌, ℤ, pos, ◌+ℤ◌, suc, false, List, [], ◌∷◌, Option, none, some, if◌then◌else◌, map, length,
  Bytes, beq, beq_iff, ◌≡◌, refl, ap, ◌∙◌, inl, inr, arith, Bool-cases, int_laws,
}
use gotop.Prelude.Maps.{Map, lookup, insert, lookup-insert}
use gotop.Widgets.Proc.{Proc, Platform, count_in, group_map}

module _ {F : Type 0} (sys : Platform F) where
  -- The processes of a command, in their order.
  abbrev pub of_command : Bytes → List (Proc F) → List (Proc F)
  of_command name [] = []
  of_command name (p ∷ ps) =
      let rest = of_command name ps in if beq p.command_name name then p ∷ rest else rest

  abbrev pub sum : F → List F → F
  sum x [] = x
  sum x (y ∷ ys) = sum (sys.plus x y) ys

  -- The group that stands for the processes of one command: their number, and the sums of their
  -- shares of the processor and of memory.
  abbrev pub group_of : List (Proc F) → Option (Proc F)
  group_of [] = none
  group_of (p ∷ ps) = some (record {
    pid = pos (suc (length ps));
    command_name = p.command_name;
    full_command = [];
    cpu = sum p.cpu (map (λ q. q.cpu) ps);
    mem = sum p.mem (map (λ q. q.mem) ps);
  })

  abbrev gain_all : Option (Proc F) → List (Proc F) → Option (Proc F)
  gain_all g [] = g
  gain_all g (p ∷ ps) = gain_all (some (count_in sys g p)) ps

  -- A group of `n` processes.
  abbrev group : ℤ → Bytes → F → F → Proc F
  group n name c m = record { pid = n; command_name = name; full_command = []; cpu = c; mem = m }

  gain_all-some :
      (n : ℕ) (name : Bytes) (c m : F) (ps : List (Proc F))
      → gain_all (some (group (pos n) name c m)) ps
        ≡ some (
            group
              (pos (n + length ps))
              name
              (sum c (map (λ q. q.cpu) ps))
              (sum m (map (λ q. q.mem) ps)))
  gain_all-some n name c m [] = ap (λ k. some (group (pos k) name c m)) (omega arith)
  gain_all-some n name c m (p ∷ ps) =
      let c' = sys.plus c p.cpu in
      let m' = sys.plus m p.mem in
      ap (λ k. gain_all (some (group k name c' m')) ps) one_more
      ∙ gain_all-some (suc n) name c' m' ps
      ∙ ap
          (λ k.
            some (group (pos k) name (sum c' (map (λ q. q.cpu) ps)) (sum m' (map (λ q. q.mem) ps))))
          (omega arith)
    where
      one_more : pos n +ℤ pos 1 ≡ pos (suc n)
      one_more = omega int_laws

  lookup-group_map :
      (name : Bytes) (ps : List (Proc F)) (m : Map (Proc F))
      → lookup name (group_map sys ps m) ≡ gain_all (lookup name m) (of_command name ps)
  unfolding group_map
  lookup-group_map name [] m = refl
  lookup-group_map name (p ∷ ps) m =
      lookup-group_map name ps (insert p.command_name (count_in sys (lookup p.command_name m) p) m)
      ∙ rw (lookup-insert p.command_name name (count_in sys (lookup p.command_name m) p) m) by_name
    where
      by_name :
          gain_all
            (if beq p.command_name name
              then some (count_in sys (lookup p.command_name m) p)
              else lookup name m)
            (of_command name ps)
          ≡ gain_all (lookup name m) (of_command name (p ∷ ps))
      by_name = elim (Bool-cases (beq p.command_name name)) [
        | inl e ↦ rw e (
            ap (λ n. gain_all (some (count_in sys (lookup n m) p)) (of_command name ps))
              ((beq_iff p.command_name name).0 e))
        | inr e ↦ rw e refl
      ]

  -- The group of a command in the map that `groupProcs` builds is the group that stands for the
  -- processes of that command; without such a process there is none.
  pub lookup-group_map-group_of :
      (name : Bytes) (ps : List (Proc F))
      → lookup name (group_map sys ps []) ≡ group_of (of_command name ps)
  lookup-group_map-group_of name ps =
      lookup-group_map name ps []
      ∙ ap (λ x. gain_all x (of_command name ps)) {y = none} (unfold lookup in refl)
      ∙ from_none (of_command name ps)
    where
      from_none : (qs : List (Proc F)) → gain_all none qs ≡ group_of qs
      from_none [] = refl
      from_none (q ∷ qs) =
          gain_all-some 1 q.command_name q.cpu q.mem qs
          ∙ ap
              (λ k. some (
                group (pos k) q.command_name (sum q.cpu (map (λ p. p.cpu) qs))
                  (sum q.mem (map (λ p. p.mem) qs))))
              (omega arith)

  abbrev pub total : Map (Proc F) → ℤ
  total [] = pos 0
  total ((k, g) ∷ m) = g.pid +ℤ total m

  lookup_skip :
      (k j : Bytes) (g : Proc F) (m : Map (Proc F))
      → beq k j ≡ false
      → lookup j ((k, g) ∷ m) ≡ lookup j m
  unfolding lookup
  lookup_skip k j g m e = rw e refl

  total-insert :
      (p : Proc F) (m : Map (Proc F))
      → total (insert p.command_name (count_in sys (lookup p.command_name m) p) m)
        ≡ total m +ℤ pos 1
  unfolding insert lookup
  total-insert p [] = omega int_laws
  total-insert p ((k, g) ∷ m) = elim (Bool-cases (beq k p.command_name)) [
    | inl e ↦ rw e (omega int_laws)
    | inr e ↦ rw e (
        ap (λ o. g.pid +ℤ total (insert p.command_name (count_in sys o p) m))
          (lookup_skip k p.command_name g m e)
        ∙ ap (λ t. g.pid +ℤ t) (total-insert p m)
        ∙ omega int_laws)
  ]

  -- The counts of the groups add up to the number of processes.
  pub total-group_map :
      (ps : List (Proc F)) (m : Map (Proc F))
      → total (group_map sys ps m) ≡ total m +ℤ pos (length ps)
  unfolding group_map
  total-group_map [] m = omega int_laws
  total-group_map (p ∷ ps) m =
      total-group_map ps (insert p.command_name (count_in sys (lookup p.command_name m) p) m)
      ∙ ap (λ t. t +ℤ pos (length ps)) (total-insert p m)
      ∙ omega int_laws
