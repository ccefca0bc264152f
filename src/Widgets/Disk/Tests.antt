-- ===== src/Widgets/Disk/Tests.antt =====
-- Runs of the disk widget.
use gotop.Prelude.{◌&&◌, ◌||◌, List, [], ◌∷◌, some, codes, itoa, pos, beq, ◌≡◌, refl}
use gotop.Prelude.Maps.{Map, lookup, insert}
use gotop.Prelude.Strings.{has_prefix}
use gotop.Widgets.Disk.{
  Partition, Listed, System, fresh, is_listed, is_hidden, refresh_one, remove_all, update,
}
use gotop.Widgets.Disk.Kept.{has, is_shown, has-update}

abbrev sys : System
sys = record {
  usage = λ mount. some (record { percent = 40; free = 9 });
  io_counters = λ device. some ((codes "sda1", record { read = 12; written = 3 }) ∷ []);
  free_text = λ n. codes "  9B";
  bytes_text = λ n. itoa (pos n);
  sort = λ keys. keys;
}

abbrev listed : List Listed
listed =
    record { device = codes "/dev/sda1"; mount_point = codes "/" }
    ∷ record { device = codes "/dev/loop0"; mount_point = codes "/snap" }
    ∷ []

abbrev before : Map Partition
before =
    (
      codes "/dev/sda1",
      record (fresh (record { device = codes "/dev/sda1"; mount_point = codes "/" })) {
        bytes_read = 2;
        bytes_written = 3;
      },
    )
    ∷ (codes "/dev/gone", fresh (record { device = codes "/dev/gone"; mount_point = codes "/x" }))
    ∷ []

rows :
    (update sys (some listed) (before, [])).1
    ≡ (codes "sda1" ∷ codes "/" ∷ codes "40%" ∷ codes "  9B" ∷ codes "10" ∷ codes "0" ∷ []) ∷ []
unfolding update is_hidden is_listed refresh_one remove_all lookup insert has_prefix beq itoa
rows = refl

has-update_example : has (codes "/dev/gone") (update sys (some listed) (before, [])).0 ≡ (
    (has (codes "/dev/gone") before || is_shown (codes "/dev/gone") listed)
    && is_listed (codes "/dev/gone") listed)
has-update_example = has-update sys (codes "/dev/gone") listed before []
