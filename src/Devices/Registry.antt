-- ===== src/Devices/Registry.antt =====
-- The registry of devices/devices.go, and the updates of devices/temp.go, devices/cpu.go and
-- devices/mem.go. A registered function is a function on the state of the rest of the program; the
-- errors that it returns are a list. Logging is left out.
mod Tests
use gotop.Prelude.{
  ℕ, List, [], ◌∷◌, ◌++◌, Option, none, some, if◌then◌else◌, Bytes, beq, ◌≡◌, refl, ap, sym, ◌∙◌,
  Bool, true, false, Bool-cases, inl, inr, append_assoc, append-nil, beq_iff,
}
use gotop.Prelude.Maps.{Map, lookup, insert, lookup-insert}

pub record Registry (W E : Type 0) : Type 0 where
  pub startup_funcs : List (Map Bytes → W → W × Option E)
  pub shutdown_funcs : List (W → W × Option E)
  pub devs : Map (List Bytes)
  pub defaults : Map (List Bytes)

abbrev or_none : Option (List Bytes) → List Bytes
or_none none = []
or_none (some l) = l

abbrev add : Bytes → List Bytes → Map (List Bytes) → Map (List Bytes)
add typ names m = insert typ (or_none (lookup typ m) ++ names) m

or_none-add :
    (domain typ : Bytes) (names : List Bytes) (m : Map (List Bytes))
    → or_none (lookup domain (add typ names m))
      ≡ or_none (lookup domain m) ++ (if beq typ domain then names else [])
or_none-add domain typ names m =
    ap or_none (lookup-insert typ domain (or_none (lookup typ m) ++ names) m)
    ∙ by_name (beq typ domain) refl
  where
    by_name :
        (b : Bool)
        → beq typ domain ≡ b
        → or_none (if b then some (or_none (lookup typ m) ++ names) else lookup domain m)
          ≡ or_none (lookup domain m) ++ (if b then names else [])
    by_name true e = ap (λ t. or_none (lookup t m) ++ names) ((beq_iff typ domain).0 e)
    by_name false e = sym (append-nil (or_none (lookup domain m)))

abbrev pub error_list : {E : Type 0} → Option E → List E
error_list none = []
error_list (some e) = e ∷ []

module _ {W E : Type 0} where
  unfoldable pub register_shutdown : (W → W × Option E) → Registry W E → Registry W E
  register_shutdown f r = record r { shutdown_funcs = r.shutdown_funcs ++ (f ∷ []) }

  unfoldable pub register_startup : (Map Bytes → W → W × Option E) → Registry W E → Registry W E
  register_startup f r = record r { startup_funcs = r.startup_funcs ++ (f ∷ []) }

  -- The functions run in their order, each whatever the others returned.
  unfoldable pub run_startup : List (Map Bytes → W → W × Option E) → Map Bytes → W → W × List E
  run_startup [] vars w = (w, [])
  run_startup (f ∷ fs) vars w =
      let (mid, e) = f vars w in
      let (end, es) = run_startup fs vars mid in (end, error_list e ++ es)

  unfoldable pub startup : Map Bytes → Registry W E → W → W × List E
  unfolding run_startup
  startup vars r w = run_startup r.startup_funcs vars w

  unfoldable pub run_shutdown : List (W → W × Option E) → W → W
  run_shutdown [] w = w
  run_shutdown (f ∷ fs) w = run_shutdown fs (f w).0

  unfoldable pub shutdown : Registry W E → W → W
  unfolding run_shutdown
  shutdown r w = run_shutdown r.shutdown_funcs w

  -- The arguments are what `all` and `def` return.
  unfoldable pub register_device_list :
      Bytes → List Bytes → List Bytes → Registry W E → Registry W E
  register_device_list typ all def r = record r {
    devs = add typ all r.devs;
    defaults = add typ def r.defaults;
  }

  unfoldable pub devices : Bytes → Bool → Registry W E → List Bytes
  devices domain all r = or_none (lookup domain (if all then r.devs else r.defaults))

  run_startup-append :
      (fs gs : List (Map Bytes → W → W × Option E)) (vars : Map Bytes) (w : W)
      → run_startup (fs ++ gs) vars w ≡ (
        (run_startup gs vars (run_startup fs vars w).0).0,
        (run_startup fs vars w).1 ++ (run_startup gs vars (run_startup fs vars w).0).1,
      )
  unfolding run_startup
  run_startup-append [] gs vars w = refl
  run_startup-append (f ∷ fs) gs vars w =
      ap (λ (x : W × List E). (x.0, error_list (f vars w).1 ++ x.1))
        (run_startup-append fs gs vars (f vars w).0)
      ∙ ap (λ (es : List E). ((run_startup gs vars (run_startup fs vars (f vars w).0).0).0, es))
          (sym (append_assoc (error_list (f vars w).1) _ _))

  -- A function registered last runs last, also after others have failed, and its error, if it
  -- returns one, comes after theirs.
  pub startup-register_startup :
      (f : Map Bytes → W → W × Option E) (r : Registry W E) (vars : Map Bytes) (w : W)
      → startup vars (register_startup f r) w ≡ (
        (f vars (startup vars r w).0).0,
        (startup vars r w).1 ++ error_list (f vars (startup vars r w).0).1,
      )
  unfolding startup register_startup run_startup
  startup-register_startup f r vars w =
      run_startup-append r.startup_funcs (f ∷ []) vars w
      ∙ ap (λ (es : List E). ((f vars (startup vars r w).0).0, (startup vars r w).1 ++ es))
          (append-nil (error_list (f vars (startup vars r w).0).1))

  -- The devices of a domain, all or the enabled ones, are those before a registration, and after
  -- them those that it brings for the domain.
  pub devices-register_device_list :
      (domain typ : Bytes) (every : Bool) (all def : List Bytes) (r : Registry W E)
      → devices domain every (register_device_list typ all def r)
        ≡ devices domain every r ++ (if beq typ domain then if every then all else def else [])
  unfolding devices register_device_list
  devices-register_device_list domain typ true all def r = or_none-add domain typ all r.devs
  devices-register_device_list domain typ false all def r = or_none-add domain typ def r.defaults

-- `UpdateTemps`, `UpdateCPU` and `UpdateMem` call each registered function on the map, in turn.
unfoldable pub update_all : {V : Type 0} → List (Map V → Map V) → Map V → Map V
update_all [] values = values
update_all (f ∷ fs) values = update_all fs (f values)
