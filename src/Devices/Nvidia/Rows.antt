-- ===== src/Devices/Nvidia/Rows.antt =====
-- Which rows of nvidia-smi the caches of devices/nvidia.go keep.
use gotop.Prelude.{
  ◌≤◌, ℤ, false, List, [], ◌∷◌, ◌++◌, Option, none, some, ◌>>=◌, if◌then◌else◌, Bytes, codes, beq,
  beq_self, atoi_value, length, All, ◌≡◌, refl, ap, ◌∙◌, arith,
}
use gotop.Prelude.Maps.{Map, lookup, insert, lookup-insert}
use gotop.Devices.Remote.{MemoryInfo}
use gotop.Devices.Nvidia.{Nvidia, mebibytes, put_row, read_row, read_rows, update_nvidia}

-- The row has the six fields, and names another device.
abbrev pub Six : List Bytes → Type 0
Six row = 6 ≤ length row

abbrev pub device : Bytes → Bytes → Bytes
device name index = name ++ codes "." ++ index

abbrev pub Other : Bytes → List Bytes → Type 0
Other dev (name ∷ index ∷ row) = beq (device name index) dev ≡ false
Other dev row = ⊥

module _ {F : Type 0} (percent : ℤ → ℤ → F) where
  -- The entries of a device in the caches.
  abbrev pub Has : Bytes → Option ℤ → Option ℤ → Option (MemoryInfo F) → Nvidia F → Type 0
  Has dev temp cpu mem n =
      (lookup dev n.temps ≡ temp) × (lookup dev n.cpus ≡ cpu) × (lookup dev n.mems ≡ mem)

  read_row_total :
      (row : List Bytes) (n : Nvidia F)
      → Six row
      → (n' : Nvidia F) × (read_row percent row n ≡ some n')
  unfolding read_row
  read_row_total [] n h = absurd (omega (arith, h))
  read_row_total (a ∷ []) n h = absurd (omega (arith, h))
  read_row_total (a ∷ b ∷ []) n h = absurd (omega (arith, h))
  read_row_total (a ∷ b ∷ c ∷ []) n h = absurd (omega (arith, h))
  read_row_total (a ∷ b ∷ c ∷ d ∷ []) n h = absurd (omega (arith, h))
  read_row_total (a ∷ b ∷ c ∷ d ∷ e ∷ []) n h = absurd (omega (arith, h))
  read_row_total (a ∷ b ∷ c ∷ d ∷ e ∷ f ∷ row) n h = (put_row percent (device a b) c d e f n, refl)

  read_rows_total :
      (rows : List (List Bytes)) (n : Nvidia F)
      → All Six rows
      → (n' : Nvidia F) × (read_rows percent rows n ≡ some n')
  unfolding read_rows
  read_rows_total [] n h = (n, refl)
  read_rows_total (row ∷ rows) n h =
      let (mid, e) = read_row_total row n h.0 in
      let (end, e') = read_rows_total rows mid h.1 in
      (end, ap (λ o. o >>= read_rows percent rows) e ∙ e')

  miss :
      {V : Type 0} (j k : Bytes) (v : V) (m : Map V)
      → beq j k ≡ false
      → lookup k (insert j v m) ≡ lookup k m
  miss j k v m h = lookup-insert j k v m ∙ ap (λ b. if b then some v else lookup k m) h

  hit : {V : Type 0} (k : Bytes) (v : V) (m : Map V) → lookup k (insert k v m) ≡ some v
  hit k v m = lookup-insert k k v m ∙ ap (λ b. if b then some v else lookup k m) (beq_self k)

  -- Rows of other devices leave the entries of a device alone.
  read_row-Other :
      (row : List Bytes) (dev : Bytes) (temp cpu : Option ℤ) (mem : Option (MemoryInfo F))
      (n : Nvidia F)
      → Six row
      → Other dev row
      → Has dev temp cpu mem n
      → (n' : Nvidia F) × (read_row percent row n ≡ some n') × Has dev temp cpu mem n'
  unfolding read_row
  read_row-Other [] dev temp cpu mem n h o has = absurd o
  read_row-Other (a ∷ []) dev temp cpu mem n h o has = absurd o
  read_row-Other (a ∷ b ∷ []) dev temp cpu mem n h o has = absurd (omega (arith, h))
  read_row-Other (a ∷ b ∷ c ∷ []) dev temp cpu mem n h o has = absurd (omega (arith, h))
  read_row-Other (a ∷ b ∷ c ∷ d ∷ []) dev temp cpu mem n h o has = absurd (omega (arith, h))
  read_row-Other (a ∷ b ∷ c ∷ d ∷ e ∷ []) dev temp cpu mem n h o has = absurd (omega (arith, h))
  read_row-Other (a ∷ b ∷ c ∷ d ∷ e ∷ f ∷ row) dev temp cpu mem n h o has = (
    put_row percent (device a b) c d e f n,
    refl,
    (
      miss (device a b) dev _ n.temps o ∙ has.0,
      miss (device a b) dev _ n.cpus o ∙ has.1,
      miss (device a b) dev _ n.mems o ∙ has.2,
    ),
  )

  read_rows-Other :
      (rows : List (List Bytes)) (dev : Bytes) (temp cpu : Option ℤ) (mem : Option (MemoryInfo F))
      (n : Nvidia F)
      → All Six rows
      → All (Other dev) rows
      → Has dev temp cpu mem n
      → (n' : Nvidia F) × (read_rows percent rows n ≡ some n') × Has dev temp cpu mem n'
  unfolding read_rows
  read_rows-Other [] dev temp cpu mem n h o has = (n, refl, has)
  read_rows-Other (row ∷ rows) dev temp cpu mem n h o has =
      let (mid, e, has') = read_row-Other row dev temp cpu mem n h.0 o.0 has in
      let (end, e', has'') = read_rows-Other rows dev temp cpu mem mid h.1 o.1 has' in
      (end, ap (λ o. o >>= read_rows percent rows) e ∙ e', has'')

  read_rows-append :
      (rows more : List (List Bytes)) (n mid : Nvidia F)
      → read_rows percent rows n ≡ some mid
      → read_rows percent (rows ++ more) n ≡ read_rows percent more mid
  unfolding read_rows
  read_rows-append [] more n mid e = ap (λ o. o >>= read_rows percent more) e
  read_rows-append (row ∷ rows) more n mid e =
      next (read_row percent row n) e (λ s. read_rows-append rows more s mid)
    where
      next :
          (o : Option (Nvidia F))
          → (o >>= read_rows percent rows) ≡ some mid
          → ((s : Nvidia F)
              → read_rows percent rows s ≡ some mid
              → read_rows percent (rows ++ more) s ≡ read_rows percent more mid)
          → (o >>= read_rows percent (rows ++ more)) ≡ read_rows percent more mid
      next none e append = absurd (ground (arith, e))
      next (some s) e append = append s e

  -- Records that have six fields each are read without a panic, and then the caches hold for a
  -- device the temperature, the load and the memory (in bytes, as `uint64`s) of the last row that
  -- names it; a number that cannot be read counts as what `Atoi` returns beside its error.
  pub update_nvidia-Has :
      (rows later : List (List Bytes)) (name index temp cpu total used : Bytes) (n : Nvidia F)
      → All Six rows
      → All Six later
      → All (Other (device name index)) later
      → (n' : Nvidia F) × (update_nvidia percent
            (some (rows ++ ((name ∷ index ∷ temp ∷ cpu ∷ total ∷ used ∷ []) ∷ later)))
            n
          ≡ some n')
        × Has
            (device name index)
            (some (atoi_value temp))
            (some (atoi_value cpu))
            (some (record {
              total = mebibytes (atoi_value total);
              used = mebibytes (atoi_value used);
              used_percent = percent (atoi_value used) (atoi_value total);
            }))
            n'
  unfolding update_nvidia read_rows read_row
  update_nvidia-Has rows later name index temp cpu total used n hs hl others =
      let (mid, e) = read_rows_total rows n hs in
      let dev = device name index in
      let (end, e', has) =
        read_rows-Other later dev _ _ _ (put_row percent dev temp cpu total used mid) hl others
          (hit dev _ mid.temps, hit dev _ mid.cpus, hit dev _ mid.mems) in
      (
        end,
        read_rows-append rows ((name ∷ index ∷ temp ∷ cpu ∷ total ∷ used ∷ []) ∷ later) n mid e
            ∙ e',
        has,
      )
