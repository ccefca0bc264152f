-- ===== src/Widgets/Net/Tests.antt =====
-- Runs of the network widget.
use gotop.Prelude.{ℕ, true, false, List, [], ◌∷◌, none, some, if◌then◌else◌, codes, beq, ◌≡◌, refl}
use gotop.Prelude.Maps.{insert, lookup, delete}
use gotop.Prelude.Strings.{has_prefix}
use gotop.Widgets.Net.{Counters, Sparkline, NetWidget, Format, wanted, update}
use gotop.Widgets.Net.Recent.{named, others, wanted-named, Sampled, update-Sampled}

abbrev fmt : Format ℕ
fmt = record {
  over = λ b k. b;
  total_title = λ label x unit. unit;
  rate_title = λ label x unit. unit;
  mbps_title = λ n. codes "mbps";
}

abbrev line : Sparkline
line = record { samples = []; title1 = []; title2 = [] }

abbrev net : NetWidget
net = record {
  recv_line = line;
  sent_line = line;
  total_bytes_recv = 1000;
  total_bytes_sent = 700;
  net_interface = codes "all" ∷ codes "!lo" ∷ [];
  mbps = false;
}

abbrev counters : List Counters
counters =
    record { name = codes "eth0"; bytes_recv = 4096; bytes_sent = 600 }
    ∷ record { name = codes "lo"; bytes_recv = 5; bytes_sent = 5 }
    ∷ []

-- The sent counter has been reset: its sample is 0.
after : update fmt (some counters) net ≡ record net {
  recv_line = record { samples = 3096 ∷ []; title1 = codes "KB"; title2 = codes "KB" };
  sent_line = record { samples = 0 ∷ []; title1 = codes "B"; title2 = codes "B" };
  total_bytes_recv = 4096;
  total_bytes_sent = 600;
}
unfolding update gotop.Utils.convert_bytes insert lookup delete has_prefix beq
after = refl

wanted-named_example :
    wanted (codes "all" ∷ codes "!lo" ∷ []) (codes "lo")
    ≡ (elim (named
        (codes "lo")
        (codes "all" ∷ codes "!lo" ∷ [])
        (if beq (codes "tun0") (codes "lo") then some false else none)) [
          | some b ↦ b
          | none ↦ others (codes "all" ∷ codes "!lo" ∷ []) true
        ])
wanted-named_example =
    wanted-named (codes "all" ∷ codes "!lo" ∷ []) (codes "lo") (unfold beq in refl)

update-Sampled_example : Sampled (update fmt (some counters) net)
update-Sampled_example = update-Sampled fmt (some counters) net (tt, tt)
