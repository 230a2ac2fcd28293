-- ===== src/Kernel/Fat32/ReadBack.antt =====
-- `read_data_from_chain` reads what a chain holds.
use Prim.Native.Nat.{min}
use native.Mathlib.Nat.{mod-eq_of_lt}
use arona_os.Prelude.{
  ℕ, zero, suc, ◌+◌, ◌-◌, ◌*◌, ◌^◌, ◌<◌, ◌≤◌, ◌≡◌, refl, sym, ap, ◌∙◌, u32, true, false, List, [],
  ◌∷◌, ◌++◌, ok, length, take, drop, length-drop, length-take, take_all, take-append-drop, arith,
  All, nat_eq, leb, Bool-cases, inl, inr,
}
use arona_os.Kernel.Fat32.{Bytes, BlockDevice, cluster_to_sector, words_to_bytes}
use arona_os.Kernel.Fat32.Free.{Links}
use arona_os.Kernel.Fat32.Data.{byte_at}
use arona_os.Kernel.Fat32.Read.{slice, read_sectors, read_data_rounds}
use arona_os.Kernel.Fat32.Stored.{Holds, cluster_to_sector-eq, byte_at-drop}
use arona_os.Kernel.Fat32.Written.{OnDisk, Stored, Filled}

slice-take :
    (n o : ℕ) (b : Bytes) (xs : List ℕ)
    → n ≤ length xs
    → ((j : ℕ) → j < n → b (o + j) ≡ byte_at xs j)
    → slice n o b ≡ take n xs
slice-take zero o b xs h same = refl
slice-take (suc n) o b [] h same = absurd (omega (arith, h))
slice-take (suc n) o b (x ∷ xs) h same =
    let here : o + 0 ≡ o = omega arith in
    let first : b o ≡ x = ap b (sym here) ∙ same 0 (omega arith) in
    let rest = slice-take n (o + 1) b xs (omega (arith, h)) (λ j k.
      let e : o + 1 + j ≡ o + suc j = omega arith in ap b e ∙ same (suc j) (omega (arith, k))) in
    cc (first, rest)

take-take-drop : (m k p : ℕ) (xs : List ℕ) → m + k ≡ p → take m xs ++ take k (drop m xs) ≡ take p xs
take-take-drop zero k p xs e = let e' : k ≡ p = omega (arith, e) in ap (λ n. take n xs) e'
take-take-drop (suc m) k zero xs e = absurd (omega (arith, e))
take-take-drop (suc m) zero (suc p) [] e = refl
take-take-drop (suc m) (suc k) (suc p) [] e = refl
take-take-drop (suc m) k (suc p) (x ∷ xs) e =
    ap (λ ys. x ∷ ys) (take-take-drop m k p xs (omega (arith, e)))

nat_eq_pos : (n : ℕ) → 0 < n → nat_eq n 0 ≡ false
nat_eq_pos n h = ground arith

leb-false : (m n : ℕ) → leb m n ≡ false → n < m
leb-false m n h = ground arith

module _ {D : Type 0} (device : BlockDevice D) where
  read_sectors-Holds :
      (n s : ℕ) (xs : List ℕ) (d : D)
      → s + n < 2 ^ 32
      → 0 < length xs
      → ((i : ℕ) → i < n → Holds device d (s + i) (i * 512) xs)
      → read_sectors device n s (length xs) d ≡ ok (take (n * 512) xs)
  unfolding read_sectors
  read_sectors-Holds zero s xs d fits pos holds = refl
  read_sectors-Holds (suc n) s xs d fits pos holds =
      let first = holds 0 (omega arith) in
      let place : u32 s ≡ s + 0 = mod-eq_of_lt (omega (arith, fits)) ∙ omega arith in
      let reads : device.read_sector (u32 s) d ≡ ok first.words =
        ap (λ t. device.read_sector t d) place ∙ first.reads in
      let part : slice (min (length xs) 512) 0 (words_to_bytes first.words)
          ≡ take (min (length xs) 512) xs =
        slice-take (min (length xs) 512) 0 (words_to_bytes first.words) xs (omega arith) (λ j h.
          let from_zero : 0 + j ≡ j = omega arith in
          let at : 0 * 512 + j ≡ j = omega arith in
          ap (words_to_bytes first.words) from_zero
          ∙ (first.bytes j (omega (arith, h)) ∙ ap (byte_at xs) at)) in
      elim (Bool-cases (leb (length xs) 512)) [
        | inl short ↦
            let fact : nat_eq (length xs - min (length xs) 512) 0 ≡ true = ground (arith, short) in
            let all : take (min (length xs) 512) xs ≡ take (suc n * 512) xs =
              take_all (min (length xs) 512) xs (ground (arith, short))
              ∙ sym (take_all (suc n * 512) xs (ground (arith, short))) in
            rw (reads, read_sectors) (rw fact (ap ok (part ∙ all)))
        | inr long ↦
            let above = leb-false (length xs) 512 long in
            let fact = nat_eq_pos (length xs - min (length xs) 512) (omega (arith, above)) in
            let all : min (length xs) 512 ≡ 512 = omega (arith, above) in
            let left : length xs - min (length xs) 512 ≡ length (drop 512 xs) =
              omega (arith, all, length-drop 512 xs) in
            let later : read_sectors device n (s + 1) (length (drop 512 xs)) d
                ≡ ok (take (n * 512) (drop 512 xs)) =
              read_sectors-Holds n (s + 1) (drop 512 xs) d (omega (arith, fits))
                (omega (arith, length-drop 512 xs, above))
                (λ i h. next s xs d i (holds (suc i) (omega (arith, h)))) in
            let joined : take (min (length xs) 512) xs ++ take (n * 512) (drop 512 xs)
                ≡ take (suc n * 512) xs =
              ap (λ k. take k xs ++ take (n * 512) (drop 512 xs)) all
              ∙ take-take-drop 512 (n * 512) (suc n * 512) xs (omega arith) in
            rw (reads, read_sectors)
              (rw (fact, left, later)
                (ap (λ ys. ok (ys ++ take (n * 512) (drop 512 xs))) part ∙ ap ok joined))
      ]
    where
      next :
          (s : ℕ) (xs : List ℕ) (d : D) (i : ℕ)
          → Holds device d (s + suc i) (suc i * 512) xs
          → Holds device d (s + 1 + i) (i * 512) (drop 512 xs)
      next s xs d i h =
          let place : s + 1 + i ≡ s + suc i = omega arith in
          record {
            words = h.words;
            reads = ap (λ t. device.read_sector t d) place ∙ h.reads;
            bytes = λ j k.
                let at : suc i * 512 + j ≡ 512 + (i * 512 + j) = omega arith in
                h.bytes j k ∙ (ap (byte_at xs) at ∙ sym (byte_at-drop 512 (i * 512 + j) xs));
          }

  read_sectors-Filled :
      (c : ℕ) (xs : List ℕ) (d : D)
      → OnDisk c
      → 0 < length xs
      → Filled device d c xs
      → read_sectors device 8 (cluster_to_sector c) (length xs) d ≡ ok (take 4096 xs)
  read_sectors-Filled c xs d on pos filled =
      ap (λ s. read_sectors device 8 s (length xs) d) (cluster_to_sector-eq c on.0 on.1)
      ∙ read_sectors-Holds 8 (2064 + c * 8) xs d (omega (arith, on.1)) pos filled

  -- A chain that holds the list on disk is read as the list.
  pub read_data_rounds-Stored :
      (rounds c : ℕ) (tail xs : List ℕ) (d : D)
      → All OnDisk (c ∷ tail)
      → Links device d c tail
      → Stored device d c tail xs
      → length xs ≤ rounds
      → length tail * 4096 < length xs
      → length xs ≤ length tail * 4096 + 4096
      → read_data_rounds device rounds c (length xs) d ≡ ok xs
  unfolding read_data_rounds
  read_data_rounds-Stored rounds c tail [] d on links stored enough low high =
      absurd (omega (arith, low))
  read_data_rounds-Stored zero c tail (b ∷ bs) d on links stored enough low high =
      absurd (omega (arith, enough))
  read_data_rounds-Stored (suc rounds) c [] (b ∷ bs) d on links stored enough low high =
      let xs = b ∷ bs in
      let part = read_sectors-Filled c xs d on.0 (omega arith) stored in
      let all : read_sectors device 8 (cluster_to_sector c) (length xs) d ≡ ok xs =
        part ∙ ap ok (take_all 4096 xs (omega (arith, high))) in
      let fact : nat_eq (length xs - length xs) 0 ≡ true = ground arith in
      rw (all, read_data_rounds) (rw fact refl)
  read_data_rounds-Stored (suc rounds) c (e ∷ es) (b ∷ bs) d on links stored enough low high =
      let xs = b ∷ bs in
      let part = read_sectors-Filled c xs d on.0 (omega arith) stored.0 in
      let long : length (take 4096 xs) ≡ 4096 = length-take 4096 xs (omega (arith, low)) in
      let fact = nat_eq_pos (length xs - length (take 4096 xs)) (omega (arith, long, low)) in
      let left : length xs - length (take 4096 xs) ≡ length (drop 4096 xs) =
        omega (arith, long, length-drop 4096 xs) in
      let rest : read_data_rounds device rounds e (length (drop 4096 xs)) d ≡ ok (drop 4096 xs) =
        read_data_rounds-Stored rounds e es (drop 4096 xs) d on.1 links.1 stored.1
          (omega (arith, left, long, enough)) (omega (arith, left, long, low))
          (omega (arith, left, long, high)) in
      rw (part, read_data_rounds)
        (rw (fact, links.0, left, rest) (ap ok (take-append-drop 4096 xs)))
