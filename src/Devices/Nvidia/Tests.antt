-- ===== src/Devices/Nvidia/Tests.antt =====
-- Runs of devices/nvidia.go.
use gotop.Prelude.{
  ℤ, pos, true, List, [], ◌∷◌, ◌++◌, none, some, codes, Bytes, beq, atoi, atoi_value, ◌≡◌, refl,
  arith,
}
use gotop.Prelude.Maps.{lookup}
use gotop.Devices.Nvidia.{Nvidia, mebibytes, update_nvidia, Started, start_nvidia}
use gotop.Devices.Nvidia.Rows.{Has, device, update_nvidia-Has}

abbrev percent : ℤ → ℤ → ℤ
percent used total = used

abbrev empty : Nvidia ℤ
empty = record { temps = []; mems = []; cpus = []; errors = [] }

abbrev card : List Bytes
card = codes "GTX" ∷ codes "0" ∷ codes "31" ∷ codes "9" ∷ codes "11175" ∷ codes "206" ∷ []

update_nvidia-Has_example :
    (n : Nvidia ℤ) × (update_nvidia percent
        (some (
          (card ∷ [])
          ++ ((codes "GTX" ∷ codes "1" ∷ codes "40" ∷ codes "N/A" ∷ codes "8" ∷ codes "2" ∷ [])
              ∷ card
              ∷ [])))
        empty
      ≡ some n)
    × Has percent
        (device (codes "GTX") (codes "1"))
        (some (atoi_value (codes "40")))
        (some (atoi_value (codes "N/A")))
        (some (record {
          total = mebibytes (atoi_value (codes "8"));
          used = mebibytes (atoi_value (codes "2"));
          used_percent = atoi_value (codes "2");
        }))
        n
update_nvidia-Has_example =
    update_nvidia-Has percent (card ∷ []) (card ∷ []) (codes "GTX") (codes "1") (codes "40")
      (codes "N/A") (codes "8") (codes "2") empty (omega arith, tt) (omega arith, tt)
      (unfold beq in refl, tt)

-- A value that cannot be read is stored as 0.
no_value : atoi_value (codes "N/A") ≡ pos 0
unfolding atoi_value
no_value = refl

-- Without the variable "nvidia" nothing is started.
not_started : start_nvidia percent atoi true none [] ≡ Started.idle
unfolding start_nvidia beq lookup
not_started = refl
