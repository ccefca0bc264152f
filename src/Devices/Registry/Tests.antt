-- ===== src/Devices/Registry/Tests.antt =====
-- Runs of the registry of devices, on a state that counts the calls.
use gotop.Prelude.{ℕ, ◌+◌, [], ◌∷◌, Option, none, some, Bytes, codes, beq, false, ◌≡◌, refl}
use gotop.Prelude.Maps.{Map, lookup, insert}
use gotop.Devices.Registry.{
  Registry, devices, register_device_list, register_startup, startup, run_startup,
}

abbrev fails : Map Bytes → ℕ → ℕ × Option Bytes
fails vars n = (n + 1, some (codes "no"))

abbrev works : Map Bytes → ℕ → ℕ × Option Bytes
works vars n = (n + 1, none)

abbrev registry : Registry ℕ Bytes
registry = record { startup_funcs = fails ∷ []; shutdown_funcs = []; devs = []; defaults = [] }

-- A function that fails does not stop the next one.
two_starts : startup [] (register_startup works registry) 0 ≡ (2, codes "no" ∷ [])
unfolding startup run_startup register_startup
two_starts = refl

-- A second list of a domain stands behind the first.
two_lists :
    devices (codes "t") false (
      register_device_list
        (codes "t")
        []
        (codes "b" ∷ [])
        (register_device_list (codes "t") [] (codes "a" ∷ []) registry))
    ≡ codes "a" ∷ codes "b" ∷ []
unfolding devices register_device_list lookup insert beq
two_lists = refl
