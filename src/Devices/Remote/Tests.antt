-- ===== src/Devices/Remote/Tests.antt =====
-- Runs of the remote extension, with whole numbers for `float64`.
use gotop.Prelude.{
  ℕ, ◌/◌, ℤ, pos, Bool, true, false, List, [], ◌∷◌, ◌++◌, Option, none, some, ◌>>=◌, if◌then◌else◌,
  Bytes, codes, beq, atoi, itoa, wrap_int, leb, not, ◌&&◌, length, beq_iff, ◌*ℤ◌, All, ◌≡◌, refl,
  inl, inr, arith, ◌≤◌,
}
use gotop.Prelude.Maps.{Map, insert, lookup}
use gotop.Prelude.Strings.{split, lines, has_prefix}
use gotop.Devices.Remote.{Cache, Remote, process, process_line, parse_config}
use gotop.Devices.Remote.Metrics.{IsLong, process_total, process_line_cpu}
use gotop.Devices.Remote.Options.{parse_config_total}

abbrev parse_float : Bytes → Option ℕ
parse_float s = elim (atoi s) [
  | none ↦ none
  | some z ↦ elim z [ pos n ↦ some n | gotop.Prelude.negsuc n ↦ none ]
]

abbrev hundred_over : ℕ → ℕ
hundred_over n = 100 / n

abbrev empty : Cache ℕ
empty = record { cpu_data = []; temp_data = []; net_data = []; disk_data = []; mem_data = [] }

abbrev text : Bytes
text = codes "# HELP\ngotop_cpu_CPU0 12\ngo_threads 4\ngotop_memory_Main 50\n"

-- A line that is not "gotop_net_", as a test can tell.
long :
    (c : ℕ) {l : Bytes}
    → (leb 6 (length (c ∷ l)) && not (beq (c ∷ l) (codes "gotop_net_"))) ≡ true
    → IsLong (c ∷ l)
long c {l} h =
    inr (ground (arith, h), λ e. ground (arith, (beq_iff (c ∷ l) (codes "gotop_net_")).1 e, h))

text-IsLong : All IsLong (lines text)
text-IsLong = unfold lines beq in (inl refl, (long _ refl, (long _ refl, (long _ refl, tt))))

-- A memory that is half used is stored with 2 of 100 in use.
metrics :
    process parse_float hundred_over (codes "a-") text empty
    ≡ some (record empty {
      cpu_data = (codes "a-CPU0", pos 12) ∷ [];
      mem_data = (codes "a-Main", record { total = 100; used = 2; used_percent = 50 }) ∷ [];
    })
unfolding process lines has_prefix split beq insert atoi wrap_int
metrics = refl

-- A blank line panics.
blank : process parse_float hundred_over (codes "a-") (codes "\n") empty ≡ none
unfolding process lines
blank = refl

-- A network metric without a name panics.
nameless : process parse_float hundred_over (codes "a-") (codes "gotop_net_\n") empty ≡ none
unfolding process lines has_prefix beq
nameless = refl

process_total_example :
    (c : Cache ℕ) × (process parse_float hundred_over (codes "a-") text empty ≡ some c)
process_total_example = process_total parse_float hundred_over (codes "a-") text empty text-IsLong

process_line_cpu_example :
    process_line parse_float hundred_over
      (codes "a-")
      (codes "gotop_cpu_" ++ (codes "CPU1" ++ (b' ' ∷ itoa (pos 7))))
      empty
    ≡ some (record empty { cpu_data = insert (codes "a-" ++ codes "CPU1") (pos 7) [] })
process_line_cpu_example =
    process_line_cpu parse_float hundred_over (codes "a-") (codes "CPU1") (pos 7) empty
      (refl, (refl, (refl, (refl, tt)))) (omega arith)

abbrev vars : Map Bytes
vars =
    (codes "remote-a-url", codes "http://a")
    ∷ (codes "remote-a-refresh", codes "2")
    ∷ (codes "remote-b", codes "x")
    ∷ (codes "nvidia", codes "true")
    ∷ []

parse_config_total_example : (rv : Map Remote) × (parse_config vars ≡ some rv)
parse_config_total_example = parse_config_total vars

options :
    parse_config vars
    ≡ some ((codes "a", record { url = codes "http://a"; refresh = pos 2000000000 }) ∷ [])
unfolding parse_config split has_prefix beq insert lookup atoi wrap_int ◌*ℤ◌
options = refl
