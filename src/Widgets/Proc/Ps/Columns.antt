-- ===== src/Widgets/Proc/Ps/Columns.antt =====
-- What `getProcs` of widgets/proc_linux.go reads in the columns of a line.
use gotop.Prelude.{
  ℕ, zero, suc, ◌+◌, ◌-◌, ◌≤◌, leb, true, List, [], ◌∷◌, ◌++◌, Option, none, some, ◌>>=◌,
  if◌then◌else◌, Bytes, atoi_value, length, length-append, append-nil, take, drop, ◌≡◌, refl, sym,
  ap, ◌∙◌, arith,
}
use gotop.Prelude.Strings.{trim_space}
use gotop.Widgets.Proc.Ps.{slice_of, proc_of_line}

drop_append :
    {A : Type 0} (p s : List A) (k n : ℕ) → length p ≡ k → drop (k + n) (p ++ s) ≡ drop n s
drop_append [] s k n h = let same : k + n ≡ n = omega (arith, h) in ap (λ m. drop m s) same
drop_append (c ∷ p) s zero n h = absurd (omega (arith, h))
drop_append (c ∷ p) s (suc k) n h =
    let same : suc k + n ≡ suc (k + n) = omega arith in
    let short : length p ≡ k = omega (arith, h) in
    ap (λ m. drop m (c ∷ (p ++ s))) same ∙ drop_append p s k n short

take_append : {A : Type 0} (p s : List A) (k : ℕ) → length p ≡ k → take k (p ++ s) ≡ p
take_append [] s zero h = refl
take_append [] s (suc k) h = absurd (omega (arith, h))
take_append (c ∷ p) s zero h = absurd (omega (arith, h))
take_append (c ∷ p) s (suc k) h =
    let short : length p ≡ k = omega (arith, h) in
    ap (λ (l : List _). c ∷ l) (take_append p s k short)

-- A slice behind a prefix.
slice_of_rest :
    (p s : Bytes) (k low high : ℕ)
    → length p ≡ k
    → low ≤ high
    → slice_of (k + low) (k + high) (p ++ s) ≡ slice_of low high s
unfolding slice_of
slice_of_rest p s k low high h le =
    let fits : leb (k + high) (length (p ++ s)) ≡ leb high (length s) =
      ground (arith, h, length-append p s) in
    let size : k + high - (k + low) ≡ high - low = omega arith in
    ap (λ b. if b then some (take (k + high - (k + low)) (drop (k + low) (p ++ s))) else none) fits
    ∙ ap (λ n. if leb high (length s) then some (take n (drop (k + low) (p ++ s))) else none) size
    ∙ ap (λ (l : Bytes). if leb high (length s) then some (take (high - low) l) else none)
        (drop_append p s k low h)

-- The slice of a first part.
slice_of_first : (p s : Bytes) (k : ℕ) → length p ≡ k → slice_of 0 k (p ++ s) ≡ some p
unfolding slice_of
slice_of_first p s k h =
    let fits : leb k (length (p ++ s)) ≡ true = ground (arith, h, length-append p s) in
    let size : k - 0 ≡ k = omega arith in
    ap (λ b. if b then some (take (k - 0) (p ++ s)) else none) fits
    ∙ ap (λ n. some (take n (p ++ s))) size
    ∙ ap some (take_append p s k h)

all_found :
    {B : Type 0} (read : Bytes → Bytes → Bytes → Bytes → Bytes → B) {o p q r s : Option Bytes}
    {a b c d e : Bytes}
    → o ≡ some a
    → p ≡ some b
    → q ≡ some c
    → r ≡ some d
    → s ≡ some e
    → (o >>= λ a. p >>= λ b. q >>= λ c. r >>= λ d. s >>= λ e. some (read a b c d e))
      ≡ some (read a b c d e)
all_found read eo ep eq er es = rw eo (rw ep (rw eq (rw er (rw es refl))))

-- The columns of a line that the code reads, with what stands between them.
pub record Columns : Type 0 where
  pub pid : Bytes
  pub gap : Bytes
  pub comm : Bytes
  pub gap2 : Bytes
  pub cpu : Bytes
  pub gap3 : Bytes
  pub mem : Bytes
  pub args : Bytes

abbrev pub line_of_columns : Columns → Bytes
line_of_columns c =
    c.pid ++ (c.gap ++ (c.comm ++ (c.gap2 ++ (c.cpu ++ (c.gap3 ++ (c.mem ++ c.args))))))

-- The widths.
pub record Wide (c : Columns) : Type 0 where
  pub pid_width : length c.pid ≡ 10
  pub gap_width : length c.gap ≡ 1
  pub comm_width : length c.comm ≡ 50
  pub gap2_width : length c.gap2 ≡ 2
  pub cpu_width : length c.cpu ≡ 5
  pub gap3_width : length c.gap3 ≡ 1
  pub mem_width : length c.mem ≡ 5

module _ (c : Columns) (w : Wide c) where
  pid_slice : slice_of 0 10 (line_of_columns c) ≡ some c.pid
  pid_slice = slice_of_first c.pid _ 10 w.pid_width

  comm_slice : slice_of 11 61 (line_of_columns c) ≡ some c.comm
  comm_slice =
      slice_of_rest c.pid _ 10 1 51 w.pid_width (omega arith)
      ∙ slice_of_rest c.gap _ 1 0 50 w.gap_width (omega arith)
      ∙ slice_of_first c.comm _ 50 w.comm_width

  -- What follows the name of the command.
  behind_comm :
      (low high : ℕ)
      → low ≤ high
      → slice_of (10 + (1 + (50 + (2 + low)))) (10 + (1 + (50 + (2 + high)))) (line_of_columns c)
        ≡ slice_of low high (c.cpu ++ (c.gap3 ++ (c.mem ++ c.args)))
  behind_comm low high le =
      slice_of_rest c.pid _ 10 _ _ w.pid_width (omega (arith, le))
      ∙ slice_of_rest c.gap _ 1 _ _ w.gap_width (omega (arith, le))
      ∙ slice_of_rest c.comm _ 50 _ _ w.comm_width (omega (arith, le))
      ∙ slice_of_rest c.gap2 _ 2 low high w.gap2_width le

  cpu_slice : slice_of 63 68 (line_of_columns c) ≡ some c.cpu
  cpu_slice = behind_comm 0 5 (omega arith) ∙ slice_of_first c.cpu _ 5 w.cpu_width

  mem_slice : slice_of 69 74 (line_of_columns c) ≡ some c.mem
  mem_slice =
      behind_comm 6 11 (omega arith)
      ∙ slice_of_rest c.cpu _ 5 1 6 w.cpu_width (omega arith)
      ∙ slice_of_rest c.gap3 _ 1 0 5 w.gap3_width (omega arith)
      ∙ slice_of_first c.mem _ 5 w.mem_width

  line_length : length (line_of_columns c) ≡ 10 + (1 + (50 + (2 + (5 + (1 + (5 + length c.args))))))
  line_length = omega (
    arith,
    w.pid_width,
    w.gap_width,
    w.comm_width,
    w.gap2_width,
    w.cpu_width,
    w.gap3_width,
    w.mem_width,
    length-append c.pid (c.gap ++ (c.comm ++ (c.gap2 ++ (c.cpu ++ (c.gap3 ++ (c.mem ++ c.args)))))),
    length-append c.gap (c.comm ++ (c.gap2 ++ (c.cpu ++ (c.gap3 ++ (c.mem ++ c.args))))),
    length-append c.comm (c.gap2 ++ (c.cpu ++ (c.gap3 ++ (c.mem ++ c.args)))),
    length-append c.gap2 (c.cpu ++ (c.gap3 ++ (c.mem ++ c.args))),
    length-append c.cpu (c.gap3 ++ (c.mem ++ c.args)),
    length-append c.gap3 (c.mem ++ c.args),
    length-append c.mem c.args,
  )

  args_slice : slice_of 74 (length (line_of_columns c)) (line_of_columns c) ≡ some c.args
  args_slice =
      let n = length c.args in
      ap (λ h. slice_of 74 h (line_of_columns c)) line_length
      ∙ behind_comm 11 (5 + (1 + (5 + n))) (omega arith)
      ∙ slice_of_rest c.cpu _ 5 6 (1 + (5 + n)) w.cpu_width (omega arith)
      ∙ slice_of_rest c.gap3 _ 1 5 (5 + n) w.gap3_width (omega arith)
      ∙ slice_of_rest c.mem c.args 5 0 n w.mem_width (omega arith)
      ∙ ap (slice_of 0 n) (sym (append-nil c.args))
      ∙ slice_of_first c.args [] n refl

  -- A line with these columns is read without a panic: the pid, the name of the command, the load
  -- and the memory are what stands in their columns, trimmed, and the full command is the rest.
  pub proc_of_line-columns :
      {F : Type 0} (parse_float : Bytes → F)
      → proc_of_line parse_float (line_of_columns c)
        ≡ some (record {
          pid = atoi_value (trim_space c.pid);
          command_name = trim_space c.comm;
          full_command = c.args;
          cpu = parse_float (trim_space c.cpu);
          mem = parse_float (trim_space c.mem);
        })
  unfolding proc_of_line
  proc_of_line-columns parse_float =
      all_found
        (λ pid cpu mem command args. record {
          pid = atoi_value (trim_space pid);
          command_name = trim_space command;
          full_command = args;
          cpu = parse_float (trim_space cpu);
          mem = parse_float (trim_space mem);
        })
        pid_slice cpu_slice mem_slice comm_slice args_slice
