-- ===== src/Kernel/Fat32/ReadLength.antt =====
-- How much `read_data_from_chain` reads, and that its rounds are enough.
use Prim.Native.Nat.{min}
use arona_os.Prelude.{
  ℕ, zero, suc, ◌+◌, ◌-◌, ◌*◌, ◌≤◌, ◌≡◌, ◌≢◌, refl, sym, ap, inl, inr, Text, u32, true, false, List,
  ◌++◌, Result, ok, length, nat_eq, length-append, if◌then◌else◌, arith, Bool-cases, Result-cases,
  bind-eq-ok, ◌>>=◌,
}
use arona_os.Kernel.Fat32.{Bytes, BlockDevice, words_to_bytes, cluster_to_sector}
use arona_os.Kernel.Fat32.Table.{read_fat_entry}
use arona_os.Kernel.Fat32.Read.{slice, read_sectors, read_data_rounds, read_data_from_chain}

length-slice : (n o : ℕ) (b : Bytes) → length (slice n o b) ≡ n
length-slice zero o b = refl
length-slice (suc n) o b = ap suc (length-slice n (o + 1) b)

ok-list : {xs ys : List ℕ} → ◌≡◌ {A = Result (List ℕ) Text} (ok xs) (ok ys) → xs ≡ ys
ok-list e = cc

nat_eq-true : (m n : ℕ) → nat_eq m n ≡ true → m ≡ n
nat_eq-true m n h = ground (arith, h)

pub nat_eq-false : (m n : ℕ) → nat_eq m n ≡ false → m ≢ n
nat_eq-false m n h e = ground (arith, h, e)

module _ {D : Type 0} (device : BlockDevice D) where
  -- The sectors that are read give as many bytes as remain, or all that they have.
  pub length-read_sectors :
      (n s r : ℕ) (d : D) (part : List ℕ)
      → read_sectors device n s r d ≡ ok part
      → length part ≡ min r (n * 512)
  unfolding read_sectors
  length-read_sectors zero s r d part h = omega (arith, ap length (ok-list h))
  length-read_sectors (suc n) s r d part h =
      let (words, read, rest) = bind-eq-ok (device.read_sector (u32 s) d) _ h in
      let here = slice (min r 512) 0 (words_to_bytes words) in
      let long = length-slice (min r 512) 0 (words_to_bytes words) in
      elim (Bool-cases (nat_eq (r - min r 512) 0)) [
        | inl done ↦
            let all = nat_eq-true (r - min r 512) 0 done in
            let same : ◌≡◌ {A = Result (List ℕ) Text} (ok here) (ok part) = rw done at rest in
            omega (arith, all, long, ap length (ok-list same))
        | inr more ↦
            let left = nat_eq-false (r - min r 512) 0 more in
            let after : (read_sectors device n (s + 1) (r - min r 512) d >>= λ ys. ok (here ++ ys))
                ≡ ok part =
              rw more at rest in
            let (ys, later, joined) =
              bind-eq-ok (read_sectors device n (s + 1) (r - min r 512) d) _ after in
            let rest_long = length-read_sectors n (s + 1) (r - min r 512) d ys later in
            omega (arith, left, long, rest_long, length-append here ys, ap length (ok-list joined))
      ]

  -- What a round that reads leaves is less.
  progress :
      (c n : ℕ) (d : D) (part : List ℕ)
      → read_sectors device 8 (cluster_to_sector c) (suc n) d ≡ ok part
      → suc n - length part ≤ n
  progress c n d part h =
      omega (arith, length-read_sectors 8 (cluster_to_sector c) (suc n) d part h)

  rounds-agree :
      (m k c n : ℕ) (d : D)
      → n ≤ m
      → n ≤ k
      → read_data_rounds device m c n d ≡ read_data_rounds device k c n d
  unfolding read_data_rounds
  rounds-agree zero zero c n d h h' = refl
  rounds-agree zero (suc k) c zero d h h' = refl
  rounds-agree zero (suc k) c (suc n) d h h' = absurd (omega (arith, h))
  rounds-agree (suc m) zero c zero d h h' = refl
  rounds-agree (suc m) zero c (suc n) d h h' = absurd (omega (arith, h'))
  rounds-agree (suc m) (suc k) c zero d h h' = refl
  rounds-agree (suc m) (suc k) c (suc n) d h h' =
      elim (Result-cases (read_sectors device 8 (cluster_to_sector c) (suc n) d)) [
        | inr (e, failed) ↦ rw failed refl
        | inl (part, read) ↦
            let less = progress c n d part read in
            let rest : (next : ℕ)
                → read_data_rounds device m next (suc n - length part) d
                  ≡ read_data_rounds device k next (suc n - length part) d =
              λ next.
                rounds-agree m k next (suc n - length part) d (omega (arith, less, h))
                  (omega (arith, less, h')) in
            rw read (λ i.
              if nat_eq (suc n - length part) 0
              then ok part
              else (read_fat_entry device c d >>= λ next. rest next i >>= λ xs. ok (part ++ xs)))
      ]

  -- The loop of `read_data_from_chain` ends within as many rounds as the file has bytes: with more
  -- rounds, its result is the same, on any disk and also where it is an error.
  pub read_data_rounds-enough :
      (rounds c n : ℕ) (d : D)
      → n ≤ rounds
      → read_data_rounds device rounds c n d ≡ read_data_from_chain device c n d
  unfolding read_data_from_chain
  read_data_rounds-enough rounds c n d h = rounds-agree rounds n c n d h (omega arith)

  length-read_data_rounds :
      (rounds c n : ℕ) (d : D) (data_ : List ℕ)
      → n ≤ rounds
      → read_data_rounds device rounds c n d ≡ ok data_
      → length data_ ≡ n
  unfolding read_data_rounds
  length-read_data_rounds zero c n d data_ enough h = omega (arith, enough, ap length (ok-list h))
  length-read_data_rounds (suc rounds) c zero d data_ enough h = sym (ap length (ok-list h))
  length-read_data_rounds (suc rounds) c (suc n) d data_ enough h =
      let (part, read, rest) =
        bind-eq-ok (read_sectors device 8 (cluster_to_sector c) (suc n) d) _ h in
      let less = progress c n d part read in
      let long = length-read_sectors 8 (cluster_to_sector c) (suc n) d part read in
      elim (Bool-cases (nat_eq (suc n - length part) 0)) [
        | inl done ↦
            let all = nat_eq-true (suc n - length part) 0 done in
            let same : ◌≡◌ {A = Result (List ℕ) Text} (ok part) (ok data_) = rw done at rest in
            omega (arith, all, long, ap length (ok-list same))
        | inr more ↦
            let left = nat_eq-false (suc n - length part) 0 more in
            let after : (read_fat_entry device c d >>= λ next.
            read_data_rounds device rounds next (suc n - length part) d >>= λ xs. ok (part ++ xs))
                ≡ ok data_ =
              rw more at rest in
            let (next, names, went) = bind-eq-ok (read_fat_entry device c d) _ after in
            let (xs, later, joined) =
              bind-eq-ok (read_data_rounds device rounds next (suc n - length part) d) _ went in
            let rest_long =
              length-read_data_rounds rounds next (suc n - length part) d xs
                (omega (arith, less, enough)) later in
            omega (arith, left, rest_long, length-append part xs, ap length (ok-list joined))
      ]

  -- On any disk, the data that `read_data_from_chain` answers is as long as the file size it was given.
  pub length-read_data_from_chain :
      (c n : ℕ) (d : D) (data_ : List ℕ)
      → read_data_from_chain device c n d ≡ ok data_
      → length data_ ≡ n
  unfolding read_data_from_chain
  length-read_data_from_chain c n d data_ h = length-read_data_rounds n c n d data_ (omega arith) h
