-- ===== src/Widgets/Net.antt =====
-- `NetWidget` of widgets/net.go: which interfaces it counts, and the traffic since the last update.
-- The counters are `uint64`s, which wrap around at 2 ^ 64. What `IOCounters` returns is an
-- argument; `none` is its error. `float64` and the formatting of the titles are parameters. The
-- exported metrics are left out.
pub mod Recent
mod Tests
use gotop.Prelude.{
  ℕ, ◌+◌, ◌-◌, ◌%◌, ◌^◌, ltb, Bool, true, false, List, [], ◌∷◌, ◌++◌, Option, none, some,
  if◌then◌else◌, ◌==◌, Bytes, codes, drop,
}
use gotop.Prelude.Maps.{Map, lookup, insert, delete}
use gotop.Prelude.Strings.{has_prefix}
use gotop.Utils.{convert_bytes}

-- `IOCountersStat`
pub record Counters : Type 0 where
  pub name : Bytes
  pub bytes_recv : ℕ
  pub bytes_sent : ℕ

-- A line of the group: its data and its two titles.
pub record Sparkline : Type 0 where
  pub samples : List ℕ
  pub title1 : Bytes
  pub title2 : Bytes

pub record NetWidget : Type 0 where
  pub recv_line : Sparkline
  pub sent_line : Sparkline
  pub total_bytes_recv : ℕ
  pub total_bytes_sent : ℕ
  pub net_interface : List Bytes
  pub mbps : Bool

-- The titles' texts, by the label and the value.
pub record Format (F : Type 0) : Type 0 where
  pub over : ℕ → ℕ → F
  pub total_title : Bytes → F → Bytes → Bytes
  pub rate_title : Bytes → F → Bytes → Bytes
  pub mbps_title : ℕ → Bytes

-- `uint64` arithmetic
abbrev pub plus64 : ℕ → ℕ → ℕ
plus64 a b = (a + b) % 2 ^ 64

abbrev pub minus64 : ℕ → ℕ → ℕ
minus64 a b = (a + 2 ^ 64 - b) % 2 ^ 64

-- The wanted status of the named interfaces; "all" stands for those that are not named.
abbrev pub wish : Bytes → Map Bool → Map Bool
wish iface m =
    if has_prefix iface (codes "!")
    then insert (drop 1 iface) false m
    else insert iface true (delete (codes "all") m)

abbrev pub wishes : List Bytes → Map Bool → Map Bool
wishes [] m = m
wishes (iface ∷ ifaces) m = wishes ifaces (wish iface m)

abbrev pub or_false : Option Bool → Bool
or_false none = false
or_false (some b) = b

abbrev pub is_counted : Option Bool → Map Bool → Bool
is_counted (some wanted) m = wanted
is_counted none m = or_false (lookup (codes "all") m)

unfoldable pub wanted : List Bytes → Bytes → Bool
wanted ifaces name =
    let m = wishes ifaces (insert (codes "tun0") false (insert (codes "all") true [])) in
    is_counted (lookup name m) m

unfoldable pub sum_wanted : (Counters → ℕ) → List Bytes → List Counters → ℕ → ℕ
sum_wanted f ifaces [] total = total
sum_wanted f ifaces (c ∷ cs) total =
    sum_wanted f ifaces cs (if wanted ifaces c.name then plus64 total (f c) else total)

-- The traffic since the last total; a value that is negative as an `int` becomes 0.
unfoldable pub recent : ℕ → ℕ → ℕ
recent total last = let d = minus64 total last in if ltb d (2 ^ 63) then d else 0

abbrev titled : {F : Type 0} → Format F → Bool → Bytes → Bytes → ℕ → ℕ → Sparkline → Sparkline
titled fmt mbps label rate total now line =
    let (converted, unit) = convert_bytes fmt.over total in
    let (now_converted, now_unit) = convert_bytes fmt.over now in
    record line {
      title1 = fmt.total_title label converted unit;
      title2 = if mbps then fmt.mbps_title now else fmt.rate_title rate now_converted now_unit;
    }

abbrev pub sampled : ℕ → Sparkline → Sparkline
sampled n line = record line { samples = line.samples ++ (n ∷ []) }

unfoldable pub update : {F : Type 0} → Format F → Option (List Counters) → NetWidget → NetWidget
unfolding recent sum_wanted wanted
update fmt none net = net
update fmt (some interfaces) net =
    let recv = sum_wanted (λ c. c.bytes_recv) net.net_interface interfaces 0 in
    let sent = sum_wanted (λ c. c.bytes_sent) net.net_interface interfaces 0 in
    let first = net.total_bytes_recv == 0 in
    let recv_now = if first then 0 else recent recv net.total_bytes_recv in
    let sent_now = if first then 0 else recent sent net.total_bytes_sent in
    record net {
      recv_line =
          titled fmt net.mbps (codes "RX") (codes "RX/s") recv recv_now
            (if first then net.recv_line else sampled recv_now net.recv_line);
      sent_line =
          titled fmt net.mbps (codes "TX") (codes "TX/s") sent sent_now
            (if first then net.sent_line else sampled sent_now net.sent_line);
      total_bytes_recv = recv;
      total_bytes_sent = sent;
    }
