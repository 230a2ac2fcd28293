-- ===== src/Kernel/Fat32/Others.antt =====
-- What `write_file` leaves of the other files.
use native.Mathlib.Nat.{mod-eq_of_lt}
use Prim.Native.Nat.{min}
use arona_os.Prelude.{
  ℕ, zero, suc, ◌+◌, ◌-◌, ◌*◌, ◌^◌, ◌<◌, ◌≤◌, ◌≡◌, ◌≢◌, refl, sym, ap, subst, ◌∙◌, ◌⊎◌, inl, inr,
  Text, u32, List, [], ◌∷◌, ◌++◌, Result, ok, length, nat_eq, if◌then◌else◌, arith, All, Bool-cases,
  Result-cases, Option-cases, ◌>>=◌,
}
use arona_os.Kernel.Fat32.{
  Words, Bytes, BlockDevice, IsLawful, root_cluster, cluster_to_sector, words_to_bytes,
  bytes_to_words,
}
use arona_os.Kernel.Fat32.Table.{read_fat_entry}
use arona_os.Kernel.Fat32.Free.{fat_free, fat_eoc, IsFree, Links}
use arona_os.Kernel.Fat32.Read.{slice, read_sectors, read_data_rounds, read_data_from_chain}
use arona_os.Kernel.Fat32.ReadLength.{length-read_sectors, nat_eq-false}
use arona_os.Kernel.Fat32.Stored.{cluster_to_sector-eq}
use arona_os.Kernel.Fat32.Written.{OnDisk, Outside, read_fat_entry-SameTable}
use arona_os.Kernel.Fat32.Directory.{write_entry, find_slot, to_short_name, add_entry, write_file}
use arona_os.Kernel.Fat32.Added.{add_entry-found, add_entry-next, add_entry-failed}
use arona_os.Kernel.Fat32.Filling.{write_file-Steps, Filling, write_data_to_chain-Filling}

module _ {D : Type 0} (device : BlockDevice D) where
  -- The cluster and its entry read the same.
  abbrev pub SameCluster : D → D → ℕ → Type 0
  SameCluster d d' c =
      ((i : ℕ)
        → i < 8
        → device.read_sector (2064 + c * 8 + i) d' ≡ device.read_sector (2064 + c * 8 + i) d)
      × (read_fat_entry device c d' ≡ read_fat_entry device c d)

  read_sectors-cong :
      (n s r : ℕ) (d d' : D)
      → s + n < 2 ^ 32
      → ((i : ℕ) → i < n → device.read_sector (s + i) d' ≡ device.read_sector (s + i) d)
      → read_sectors device n s r d' ≡ read_sectors device n s r d
  unfolding read_sectors
  read_sectors-cong zero s r d d' fits same = refl
  read_sectors-cong (suc n) s r d d' fits same =
      let place : s + 0 ≡ u32 s = omega arith ∙ sym (mod-eq_of_lt (omega (arith, fits))) in
      let here : device.read_sector (u32 s) d' ≡ device.read_sector (u32 s) d =
        subst (λ t. device.read_sector t d' ≡ device.read_sector t d) place
          (same 0 (omega arith)) in
      let left = r - min r 512 in
      let later = read_sectors-cong n (s + 1) left d d' (omega (arith, fits)) (λ i h.
        let next : s + suc i ≡ s + 1 + i = omega arith in
        subst (λ t. device.read_sector t d' ≡ device.read_sector t d) next
          (same (suc i) (omega (arith, h)))) in
      let step : Result (List ℕ) Text → Words → Result (List ℕ) Text = λ rest words.
        let part = slice (min r 512) 0 (words_to_bytes words) in
        if nat_eq left 0 then ok part else (rest >>= λ ys. ok (part ++ ys)) in
      ap (λ x. x >>= step (read_sectors device n (s + 1) left d')) here
      ∙ ap (λ rest. device.read_sector (u32 s) d >>= step rest) later

  read_data_rounds-cong :
      (rounds c n : ℕ) (tail : List ℕ) (d d' : D)
      → All OnDisk (c ∷ tail)
      → Links device d c tail
      → n ≤ length tail * 4096 + 4096
      → All (SameCluster d d') (c ∷ tail)
      → read_data_rounds device rounds c n d' ≡ read_data_rounds device rounds c n d
  unfolding read_data_rounds
  read_data_rounds-cong zero c n tail d d' on links high same = refl
  read_data_rounds-cong (suc rounds) c zero tail d d' on links high same = refl
  read_data_rounds-cong (suc rounds) c (suc r) tail d d' on links high same =
      let place = cluster_to_sector-eq c on.0.0 on.0.1 in
      let part_same : read_sectors device 8 (cluster_to_sector c) (suc r) d'
          ≡ read_sectors device 8 (cluster_to_sector c) (suc r) d =
        ap (λ s. read_sectors device 8 s (suc r) d') place
        ∙ (read_sectors-cong 8 (2064 + c * 8) (suc r) d d' (omega (arith, on.0.1)) same.0.0
            ∙ ap (λ s. read_sectors device 8 s (suc r) d) (sym place)) in
      elim (Result-cases (read_sectors device 8 (cluster_to_sector c) (suc r) d)) [
        | inr (e, failed) ↦ rw (part_same, failed) refl
        | inl (part, read) ↦
            let long = length-read_sectors device 8 (cluster_to_sector c) (suc r) d part read in
            rw (part_same, read)
              (elim (Bool-cases (nat_eq (suc r - length part) 0)) [
                | inl done ↦ rw done refl
                | inr more ↦ rw more (
                    rest (λ e n es. read_data_rounds-cong rounds e n es d d') tail on links high
                      same part (nat_eq-false (suc r - length part) 0 more) long)
              ])
      ]
    where
      rest :
          ((e n : ℕ) (es : List ℕ)
            → All OnDisk (e ∷ es)
            → Links device d e es
            → n ≤ length es * 4096 + 4096
            → All (SameCluster d d') (e ∷ es)
            → read_data_rounds device rounds e n d' ≡ read_data_rounds device rounds e n d)
          → (tail : List ℕ) → All OnDisk (c ∷ tail)
          → Links device d c tail
          → suc r ≤ length tail * 4096 + 4096
          → All (SameCluster d d') (c ∷ tail)
          → (part : List ℕ) → suc r - length part ≢ 0
          → length part ≡ min (suc r) (8 * 512)
          → (read_fat_entry device c d' >>= λ next.
              read_data_rounds device rounds next (suc r - length part) d' >>= λ xs.
              ok (part ++ xs))
            ≡ (read_fat_entry device c d >>= λ next.
                read_data_rounds device rounds next (suc r - length part) d >>= λ xs.
                ok (part ++ xs))
      rest again [] on links high same part left long = absurd (omega (arith, high, left, long))
      rest again (e ∷ es) on links high same part left long =
          let later =
            again e (suc r - length part) es on.1 links.1 (omega (arith, high, left, long))
              same.1 in
          rw (same.0.1, links.0) (ap (λ x. x >>= λ xs. ok (part ++ xs)) later)

  pub add_entry-kept :
      (lawful : IsLawful device) (count sector first size s : ℕ) (short : Bytes) (d d' : D)
      → (s < sector) ⊎ (sector + count ≤ s)
      → add_entry device count sector short first size d ≡ (d', ok tt)
      → device.read_sector s d' ≡ device.read_sector s d
  unfolding add_entry
  add_entry-kept lawful zero sector first size s short d d' away h = absurd (cc (ap (λ r. r.1) h))
  add_entry-kept lawful (suc count) sector first size s short d d' away h =
      elim (Result-cases (device.read_sector sector d)) [
        | inr (e, failed) ↦ absurd (
            cc (
              ap (λ r. r.1)
                (sym (add_entry-failed device count sector first size short e d failed) ∙ h)))
        | inl (words, read) ↦ elim (Option-cases (find_slot 16 0 (words_to_bytes words))) [
          | inr (start, slot) ↦
              lawful.read-write_other sector s
                (bytes_to_words (write_entry short first size start (words_to_bytes words))) d d'
                (sym (add_entry-found device count sector first size start short words d read slot)
                  ∙ h)
                (λ e. ground (arith, e, away))
          | inl full ↦
              add_entry-kept lawful count (sector + 1) first size s short d d'
                (ground (arith, away))
                (sym (add_entry-next device count sector first size short words d read full) ∙ h)
        ]
      ]

  -- The entries of a chain are not free.
  pub in_use :
      (c : ℕ) (tail : List ℕ) (d : D)
      → All OnDisk (c ∷ tail)
      → Links device d c tail
      → All (λ e. read_fat_entry device e d ≢ ok fat_free) (c ∷ tail)
  in_use c [] d on links = (mark_not_free (links), tt)
    where
      mark_not_free : {x : Result ℕ Text} → x ≡ ok fat_eoc → x ≢ ok fat_free
      mark_not_free e f = let same : fat_eoc ≡ fat_free = cc (sym e ∙ f) in omega (arith, same)
  in_use c (e ∷ es) d on links = (next_not_free e on.1.0 links.0, in_use e es d on.1 links.1)
    where
      next_not_free : {x : Result ℕ Text} (e : ℕ) → OnDisk e → x ≡ ok e → x ≢ ok fat_free
      next_not_free e on p f = let same : e ≡ fat_free = cc (sym p ∙ f) in omega (arith, same, on.0)

  -- A sector of a cluster in use is none of the clusters that were free.
  Outside-IsFree :
      (e i : ℕ) (cs : List ℕ) (d : D)
      → i < 8
      → read_fat_entry device e d ≢ ok fat_free
      → All (IsFree device d) cs
      → All (Outside (2064 + e * 8 + i)) cs
  Outside-IsFree e i [] d small busy free = tt
  Outside-IsFree e i (c ∷ cs) d small busy free =
      let differ : e ≢ c = λ q. busy (ap (λ x. read_fat_entry device x d) q ∙ free.0.2) in
      (ground (arith, differ, small), Outside-IsFree e i cs d small busy free.1)

module _ {D : Type 0} (device : BlockDevice D) (lawful : IsLawful device) where
  pub same_clusters :
      (cs : List ℕ) (first : ℕ) (data_ : List ℕ) (d filled d' : D)
      → Filling device lawful first data_ d filled
      → ((s : ℕ) → (s < 2080) ⊎ (2088 ≤ s) → device.read_sector s d' ≡ device.read_sector s filled)
      → All OnDisk cs
      → All (λ e. e ≢ root_cluster) cs
      → All (λ e. read_fat_entry device e d ≢ ok fat_free) cs
      → All (SameCluster device d d') cs
  same_clusters [] first data_ d filled d' f kept on apart busy = tt
  same_clusters (e ∷ es) first data_ d filled d' f kept on apart busy =
      let behind : 3 ≤ e = ground (arith, on.0.0, apart.0) in
      (
        (
          (λ i h.
              kept (2064 + e * 8 + i) (inr (omega (arith, behind)))
              ∙ f.untouched (2064 + e * 8 + i) (omega (arith, behind))
                  (Outside-IsFree device e i (first ∷ f.tail) d h busy.0 f.free)),
          read_fat_entry-SameTable device lawful e filled d' (omega (arith, on.0.1))
                (λ s h. kept s (inl h))
              ∙ f.table e (omega (arith, on.0.1)) busy.0,
        ),
        same_clusters es first data_ d filled d' f kept on.1 apart.1 busy.1,
      )

  -- A `write_file` that succeeds on a lawful device whose root directory is in use leaves the data of
  -- every other chain as it was: where the entries of the table link clusters of the disk, none of
  -- them the root directory's, up to an end mark, and are enough for `n` bytes, the reading of `n`
  -- bytes from that chain answers afterwards what it answered before, also an error.
  pub read_data_from_chain-write_file :
      (name : Text) (data_ : List ℕ) (c n : ℕ) (tail : List ℕ) (d d' : D)
      → read_fat_entry device root_cluster d ≢ ok fat_free
      → All (λ b. b < 256) data_
      → All OnDisk (c ∷ tail)
      → All (λ e. e ≢ root_cluster) (c ∷ tail)
      → Links device d c tail
      → n ≤ length tail * 4096 + 4096
      → write_file device name data_ d ≡ (d', ok tt)
      → read_data_from_chain device c n d' ≡ read_data_from_chain device c n d
  unfolding read_data_from_chain
  read_data_from_chain-write_file name data_ c n tail d d' used small on apart links high h =
      let p = write_file-Steps device name data_ d d' h in
      let f =
        write_data_to_chain-Filling device lawful p.first data_ d p.allocated p.filled used small
          p.allocates p.fills in
      let kept : (s : ℕ)
          → (s < 2080) ⊎ (2088 ≤ s)
          → device.read_sector s d' ≡ device.read_sector s p.filled =
        λ s away.
          add_entry-kept device lawful 8 2080 p.first (length data_) s (to_short_name name) p.filled
            d' away p.adds in
      read_data_rounds-cong device n c n tail d d' on links high (
        same_clusters (c ∷ tail) p.first data_ d p.filled d' f kept on apart
          (in_use device c tail d on links))
