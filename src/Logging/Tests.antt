-- ===== src/Logging/Tests.antt =====
-- Runs of the log of logging/logging.go, on files that are a function from names to texts.
use gotop.Prelude.{
  pos, ◌==◌, ==_iff, Bool, true, false, [], ◌++◌, Option, none, some, if◌then◌else◌, Bytes, codes,
  ltb, ◌≡◌, ◌≢◌, refl, sym, ap, ◌∙◌, arith,
}
use gotop.Logging.{LogName, current, backup, Files, RotateWriter, write}
use gotop.Logging.Rotate.{size_of, Works, Written, write-Written}

abbrev Disk : Type 0
Disk = LogName → Option Bytes

abbrev same : LogName → LogName → Bool
same current current = true
same current (backup i) = false
same (backup i) current = false
same (backup i) (backup j) = i == j

same_self : (n : LogName) → same n n ≡ true
same_self current = refl
same_self (backup i) = ground arith

same_apart : (n m : LogName) → n ≢ m → same n m ≡ false
same_apart current current ne = absurd (ne refl)
same_apart current (backup i) ne = refl
same_apart (backup i) current ne = refl
same_apart (backup i) (backup j) ne = by_number (i == j) refl
  where
    by_number : (b : Bool) → (i == j) ≡ b → b ≡ false
    by_number true e = absurd (ne (ap backup ((==_iff i j).0 e)))
    by_number false e = refl

abbrev put : LogName → Option Bytes → Disk → Disk
put n t s m = if same m n then t else s m

abbrev append_to : Option Bytes → Bytes → Option Bytes
append_to none output = none
append_to (some t) output = some (t ++ output)

abbrev rename_text : Option Bytes → LogName → LogName → Disk → Disk × Bool
rename_text none from to s = (s, false)
rename_text (some t) from to s = (put from none (put to (some t) s), true)

abbrev disk : Files Disk
disk = record {
  stat = λ n s. size_of (s n);
  rename = λ from to s. rename_text (s from) from to s;
  open_file = λ n s. (put n (some []) s, true);
  close = λ s. (s, true);
  write_file = λ output s. (put current (append_to (s current) output) s, true);
}

put_self : (n : LogName) (t : Option Bytes) (s : Disk) → put n t s n ≡ t
put_self n t s = ap (λ b. if b then t else s n) (same_self n)

put_other : (n m : LogName) (t : Option Bytes) (s : Disk) → m ≢ n → put n t s m ≡ s m
put_other n m t s ne = ap (λ b. if b then t else s m) (same_apart m n ne)

abbrev works : Works disk
works = record {
  text = λ s n. s n;
  stat_size = λ n s. refl;
  rename_ok = λ from to s t e. ap (λ o. (rename_text o from to s).1) e;
  rename_to = λ from to s t e ne.
      ap (λ o. (rename_text o from to s).0 to) e
      ∙ put_other from to none (put to (some t) s) (λ h. ne (sym h))
      ∙ put_self to (some t) s;
  rename_from = λ from to s t e ne.
      ap (λ o. (rename_text o from to s).0 from) e ∙ put_self from none (put to (some t) s);
  rename_other = λ from to n s t e h k.
      ap (λ o. (rename_text o from to s).0 n) e
      ∙ put_other from n none (put to (some t) s) h
      ∙ put_other to n (some t) s k;
  open_ok = λ n s. refl;
  open_empty = λ n s. put_self n (some []) s;
  open_other = λ n m s ne. put_other n m (some []) s ne;
  close_ok = λ s. refl;
  close_text = λ s n. refl;
  write_ok = λ output s. refl;
  write_current = λ output t s e. ap (λ o. append_to o output) e;
  write_other = λ output s n ne. put_other current n (append_to (s current) output) s ne;
}

abbrev start : Disk
start current = some (codes "full")
start (backup i) = if i == 0 then some (codes "old") else none

abbrev writer : RotateWriter Disk
writer = record { is_open = true; max_log_size = pos 3; files = start }

write-Written_example :
    ((write disk (codes "new") writer).1 ≡ true)
    × ((write disk (codes "new") writer).0.is_open ≡ true)
    × Written disk works
        (ltb 3 4)
        (codes "full")
        (codes "new")
        start
        (write disk (codes "new") writer).0.files
write-Written_example = write-Written disk works (codes "new") (codes "full") writer refl refl
