-- ===== src/Devices/Remote/Metrics.antt =====
-- Which lines `process` of devices/remote.go takes.
use gotop.Prelude.{
  ℕ, ℤ, pos, negsuc, suc, ◌≤◌, ltb, Bool, true, false, List, [], ◌∷◌, ◌++◌, Option, none, some,
  ◌>>=◌, take, drop, ◌<◌, ◌≢◌, sym, take-append-drop, beq_iff, if◌then◌else◌, ◌==◌, Bytes, codes,
  beq, atoi, itoa, atoi-itoa, InInt, itoa-All, length, All, All-weaken, ◌≡◌, ◌⊎◌, refl, ap, ◌∙◌,
  inl, inr, arith,
}
use gotop.Prelude.Maps.{Map, insert}
use gotop.Prelude.Strings.{split, split-append, split-Lacks, Lacks, lines, has_prefix}
use gotop.Devices.Remote.{
  Cache, columns, memory, slice_from, store, store_value, proc_int, metric, process_line,
  process_lines, process,
}

-- A comment, or a line of six bytes or more other than "gotop_net_".
abbrev pub IsLong : Bytes → Type 0
IsLong [] = ⊥
IsLong (c ∷ l) = ((c == b'#') ≡ true) ⊎ ((6 ≤ length (c ∷ l)) × ((c ∷ l) ≢ codes "gotop_net_"))

abbrev Returns : {A : Type 0} → Option A → Type 0
Returns {A} o = (x : A) × (o ≡ some x)

if_Returns :
    {A : Type 0} (b : Bool) (o p : Option A)
    → (b ≡ true → Returns o)
    → Returns p
    → Returns (if b then o else p)
if_Returns true o p h k = h refl
if_Returns false o p h k = k

slice_from-some : (n : ℕ) (s : Bytes) → n ≤ length s → slice_from n s ≡ some (drop n s)
unfolding slice_from
slice_from-some n s h = fits (ltb (length s) n) (ground arith)
  where
    fits : {A : Type 0} {x : Option A} (b : Bool) → b ≡ false → (if b then none else x) ≡ x
    fits b e = rw e refl

-- A text with a prefix is the prefix, or longer.
has_prefix-longer : (s p : Bytes) → has_prefix s p ≡ true → (s ≡ p) ⊎ (length p < length s)
unfolding has_prefix
has_prefix-longer [] [] h = inl refl
has_prefix-longer (c ∷ s) [] h = inr (omega arith)
has_prefix-longer [] (q ∷ p) h = absurd (ground (arith, h))
has_prefix-longer (c ∷ s) (q ∷ p) h =
    let same : c ≡ q = ground (arith, h) in
    elim (has_prefix-longer s p (ground (arith, h))) [
      | inl e ↦ inl (cc)
      | inr lt ↦ inr (omega (arith, lt))
    ]

eq_of_halves : (n : ℕ) (s p q : Bytes) → take n s ≡ p → drop n s ≡ q → s ≡ p ++ q
eq_of_halves n s p q e f =
    sym (take-append-drop n s) ∙ ap (λ (t : Bytes). t ++ drop n s) e ∙ ap (λ (t : Bytes). p ++ t) f

has_prefix-length : (s p : Bytes) → has_prefix s p ≡ true → length p ≤ length s
unfolding has_prefix
has_prefix-length s [] h = omega arith
has_prefix-length [] (q ∷ p) h = absurd (ground (arith, h))
has_prefix-length (c ∷ s) (q ∷ p) h =
    let shorter : length p ≤ length s = has_prefix-length s p (ground (arith, h)) in omega arith

module _ {F : Type 0} (parse_float : Bytes → Option F) (hundred_over : F → ℕ) where
  sliced :
      (n : ℕ) (p sub : Bytes) (f : Bytes → Cache F)
      → n ≤ length p
      → has_prefix sub p ≡ true
      → Returns (slice_from n sub >>= (λ s. some (f s)))
  sliced n p sub f h starts =
      let long : length p ≤ length sub = has_prefix-length sub p starts in
      (f (drop n sub), ap (λ o. o >>= (λ s. some (f s))) (slice_from-some n sub (omega arith)))

  metric_total :
      (host sub : Bytes) (cache : Cache F)
      → sub ≢ codes "net_"
      → Returns (metric parse_float hundred_over host sub cache)
  unfolding metric
  metric_total host sub cache ne =
      if_Returns (has_prefix sub (codes "cpu_")) _ _ (sliced 4 (codes "cpu_") sub _ (omega arith)) (
        if_Returns (has_prefix sub (codes "temp_")) _ _
          (sliced 5 (codes "temp_") sub _ (omega arith))
          (if_Returns (has_prefix sub (codes "net_")) _ _ (λ starts. net_sliced starts)
            (if_Returns (has_prefix sub (codes "disk_")) _ _
              (sliced 5 (codes "disk_") sub
                (λ s. record cache {
                  disk_data = store parse_float host (columns (split s b' ')) cache.disk_data;
                })
                (omega arith))
              (if_Returns (has_prefix sub (codes "memory_")) _ (some cache)
                (sliced 7 (codes "memory_") sub
                  (λ s. record cache {
                    mem_data =
                        store (memory parse_float hundred_over) host (columns (split s b' '))
                          cache.mem_data;
                  })
                  (omega arith))
                (cache, refl)))))
    where
      net_sliced :
          has_prefix sub (codes "net_") ≡ true
          → Returns (
              slice_from 5 sub >>= (λ s. some (record cache {
                net_data = store parse_float host (columns (split s b' ')) cache.net_data;
              })))
      net_sliced starts = elim (has_prefix-longer sub (codes "net_") starts) [
        | inl e ↦ absurd (ne e)
        | inr long ↦ (
          _,
          ap
              (λ o. o >>= (λ s. some (record cache {
                net_data = store parse_float host (columns (split s b' ')) cache.net_data;
              })))
              (slice_from-some 5 sub (omega (arith, long))),
        )
      ]

  process_line_total :
      (host l : Bytes) (cache : Cache F)
      → IsLong l
      → (c' : Cache F) × (process_line parse_float hundred_over host l cache ≡ some c')
  unfolding process_line
  process_line_total host [] cache h = absurd h
  process_line_total host (c ∷ l) cache (inl hash) = (cache, rw hash refl)
  process_line_total host (c ∷ l) cache (inr (long, apart)) =
      if_Returns (c == b'#') (some cache) _ (λ _. (cache, refl))
        (let (c', e) = named in (c', short (ltb (length (c ∷ l)) 6) (ground arith) ∙ e))
    where
      rest : Option (Cache F)
      rest =
          if beq (take 6 (c ∷ l)) (codes "gotop_")
          then slice_from 6 (c ∷ l) >>= (λ sub. metric parse_float hundred_over host sub cache)
          else some cache

      short : {A : Type 0} {x : Option A} (b : Bool) → b ≡ false → (if b then none else x) ≡ x
      short b e = rw e refl

      named : Returns rest
      named =
          if_Returns (beq (take 6 (c ∷ l)) (codes "gotop_")) _ (some cache)
            (λ starts.
              let head : take 6 (c ∷ l) ≡ codes "gotop_" =
                (beq_iff (take 6 (c ∷ l)) (codes "gotop_")).0 starts in
              let (c', e) = metric_total host (drop 6 (c ∷ l)) cache (λ tail.
                apart (eq_of_halves 6 (c ∷ l) (codes "gotop_") (codes "net_") head tail)) in
              (
                c',
                ap (λ o. o >>= (λ sub. metric parse_float hundred_over host sub cache))
                      (slice_from-some 6 (c ∷ l) long)
                    ∙ e,
              ))
            (cache, refl)

  process_lines_total :
      (host : Bytes) (ls : List Bytes) (cache : Cache F)
      → All IsLong ls
      → (c' : Cache F) × (process_lines parse_float hundred_over host ls cache ≡ some c')
  unfolding process_lines
  process_lines_total host [] cache h = (cache, refl)
  process_lines_total host (l ∷ ls) cache (h, hs) =
      let (mid, e) = process_line_total host l cache h in
      let (end, e') = process_lines_total host ls mid hs in (end, rw e e')

  -- A text of which each line is a comment, or has six bytes or more and is not "gotop_net_", is
  -- processed without a panic.
  pub process_total :
      (host text : Bytes) (cache : Cache F)
      → All IsLong (lines text)
      → (c' : Cache F) × (process parse_float hundred_over host text cache ≡ some c')
  process_total host text cache h = unfold process in process_lines_total host (lines text) cache h

  no_space-itoa : (v : ℤ) → Lacks (λ b. b == b' ') (itoa v)
  no_space-itoa (pos n) = All-weaken _ _ (λ d h. ground arith) (itoa (pos n)) (itoa-All n)
  no_space-itoa (negsuc n) =
      unfold itoa in (refl, All-weaken _ _ (λ d h. ground arith) _ (itoa-All (suc n)))

  proc_int_line :
      (host name : Bytes) (v : ℤ) (cache : Map ℤ)
      → Lacks (λ b. b == b' ') name
      → InInt v
      → proc_int host (name ++ (b' ' ∷ itoa v)) cache ≡ insert (host ++ name) v cache
  unfolding proc_int
  proc_int_line host name v cache h fits =
      ap (λ ps. store atoi host (columns ps) cache) parts
      ∙ ap (λ o. store_value atoi host name o cache) (atoi-itoa v fits)
    where
      parts : split (name ++ (b' ' ∷ itoa v)) b' ' ≡ name ∷ itoa v ∷ []
      parts =
          split-append name b' ' h (itoa v)
          ∙ ap (λ (r : List Bytes). name ∷ r) (split-Lacks (itoa v) b' ' (no_space-itoa v))

  -- The line "gotop_cpu_NAME VALUE" sets the entry of the host's name and NAME to VALUE, if NAME
  -- has no space and VALUE is an `int`.
  pub process_line_cpu :
      (host name : Bytes) (v : ℤ) (cache : Cache F)
      → Lacks (λ b. b == b' ') name
      → InInt v
      → process_line parse_float hundred_over host
          (codes "gotop_cpu_" ++ (name ++ (b' ' ∷ itoa v)))
          cache
        ≡ some (record cache { cpu_data = insert (host ++ name) v cache.cpu_data })
  unfolding process_line metric beq has_prefix
  process_line_cpu host name v cache h fits =
      long_line (ltb (length (codes "gotop_cpu_" ++ (name ++ (b' ' ∷ itoa v)))) 6) (ground arith)
      ∙ ap (λ o. o >>= (λ sub. metric parse_float hundred_over host sub cache))
          (slice_from-some 6 (codes "gotop_cpu_" ++ (name ++ (b' ' ∷ itoa v))) (omega arith))
      ∙ ap (λ o. o >>= (λ s. some (record cache { cpu_data = proc_int host s cache.cpu_data })))
          (slice_from-some 4 (codes "cpu_" ++ (name ++ (b' ' ∷ itoa v))) (omega arith))
      ∙ ap (λ d. some (record cache { cpu_data = d }))
          (proc_int_line host name v cache.cpu_data h fits)
    where
      long_line : {A : Type 0} {x : Option A} (t : Bool) → t ≡ false → (if t then none else x) ≡ x
      long_line t e = rw e refl
