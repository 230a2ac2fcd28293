-- ===== src/Kernel/Fat32/Space.antt =====
-- How many clusters of a disk are free, and the allocation of a chain on a device that never fails.
use arona_os.Prelude.{
  ℕ, zero, suc, ◌+◌, ◌%◌, ◌^◌, ◌<◌, ◌≤◌, ◌≡◌, ◌≢◌, refl, sym, ap, ◌∙◌, subst, inl, inr, Text, codes,
  u32, Result, ok, err, arith, nat_eq, if◌then◌else◌, Bool-cases,
}
use arona_os.Prelude.Actions.{◌>>=◌, bind_ok}
use arona_os.Kernel.Fat32.{Words, BlockDevice, IsLawful, fat_start_sector, words_to_bytes}
use arona_os.Kernel.Fat32.Geometry.{total_clusters}
use arona_os.Kernel.Fat32.Table.{
  from_le_bytes, sector_in_fat, offset_in_sector, read_fat_entry, updated, sector_of_copy,
  write_copy, write_fat_entry,
}
use arona_os.Kernel.Fat32.Entries.{
  read_fat_entry-write_fat_entry, read_fat_entry-write_fat_entry_other,
}
use arona_os.Kernel.Fat32.Free.{fat_eoc, fat_free, find_free_from, find_free_cluster, IsFree}

-- No read and no write fails.
pub record IsReliable {D : Type 0} (device : BlockDevice D) : Type 0 where
  pub reads : (s : ℕ) (d : D) → (words : Words) × (device.read_sector s d ≡ ok words)
  pub writes :
      (s : ℕ) (words : Words) (d : D) → (d' : D) × (device.write_sector s words d ≡ (d', ok tt))

-- 1 for an entry that is free.
abbrev pub free_number : Result ℕ Text → ℕ
free_number (err e) = 0
free_number (ok v) = if nat_eq v fat_free then 1 else 0

module _ {D : Type 0} (device : BlockDevice D) where
  -- The free ones among the `count` clusters from `cluster` on.
  unfoldable pub count_free : ℕ → ℕ → D → ℕ
  count_free zero cluster d = 0
  count_free (suc count) cluster d =
      free_number (read_fat_entry device cluster d) + count_free count (cluster + 1) d

  unfoldable pub free_clusters : D → ℕ
  free_clusters d = count_free total_clusters 2 d

  pub count_free-same :
      (count cluster : ℕ) (d d' : D)
      → ((e : ℕ)
          → cluster ≤ e
          → e < cluster + count
          → free_number (read_fat_entry device e d') ≡ free_number (read_fat_entry device e d))
      → count_free count cluster d' ≡ count_free count cluster d
  unfolding count_free
  count_free-same zero cluster d d' same = refl
  count_free-same (suc count) cluster d d' same = omega (
    arith,
    same cluster (omega arith) (omega arith),
    count_free-same count (cluster + 1) d d'
        (λ e a b. same e (omega (arith, a)) (omega (arith, b))),
  )

  -- One cluster is taken.
  count_free-taken :
      (count cluster x : ℕ) (d d' : D)
      → cluster ≤ x
      → x < cluster + count
      → free_number (read_fat_entry device x d) ≡ 1
      → free_number (read_fat_entry device x d') ≡ 0
      → ((e : ℕ)
          → cluster ≤ e
          → e < cluster + count
          → e ≢ x
          → free_number (read_fat_entry device e d') ≡ free_number (read_fat_entry device e d))
      → count_free count cluster d' + 1 ≡ count_free count cluster d
  unfolding count_free
  count_free-taken zero cluster x d d' low high was now same = absurd (omega (arith, low, high))
  count_free-taken (suc count) cluster x d d' low high was now same =
      elim (Bool-cases (nat_eq cluster x)) [
        | inl here ↦
            let e : x ≡ cluster = ground (arith, here) in
            let was' = ap (λ y. free_number (read_fat_entry device y d)) (sym e) ∙ was in
            let now' = ap (λ y. free_number (read_fat_entry device y d')) (sym e) ∙ now in
            let rest = count_free-same count (cluster + 1) d d' (λ y a b.
              same y (omega (arith, a)) (omega (arith, b)) (λ q. omega (arith, q, e, a))) in
            omega (arith, was', now', rest)
        | inr later ↦
            let rest =
              count_free-taken count (cluster + 1) x d d' (ground (arith, later, low))
                (omega (arith, high)) was now
                (λ y a b. same y (omega (arith, a)) (omega (arith, b))) in
            let first = same cluster (omega arith) (omega arith) (λ q. ground (arith, q, later)) in
            omega (arith, first, rest)
      ]

module _ {D : Type 0} (device : BlockDevice D) (reliable : IsReliable device) where
  write_copy_total : (k c v : ℕ) (d : D) → (d' : D) × (write_copy device k c v d ≡ (d', ok tt))
  unfolding write_copy
  write_copy_total k c v d =
      let (words, read) = reliable.reads (sector_of_copy k c) d in
      let (d', written) = reliable.writes (sector_of_copy k c) (updated c v words) d in
      (d', (rw (read, write_copy) refl) ∙ written)

  pub write_fat_entry_total :
      (c v : ℕ) (d : D) → (d' : D) × (write_fat_entry device c v d ≡ (d', ok tt))
  unfolding write_fat_entry ◌>>=◌
  write_fat_entry_total c v d =
      let (d₁, first) = write_copy_total 0 c v d in
      let (d₂, second) = write_copy_total 1 c v d₁ in
      (d₂, bind_ok (write_copy device 0 c v) (λ _. write_copy device 1 c v) d d₁ tt first ∙ second)

  pub read_fat_entry_total : (c : ℕ) (d : D) → (v : ℕ) × (read_fat_entry device c d ≡ ok v)
  unfolding read_fat_entry
  read_fat_entry_total c d =
      let s = u32 (fat_start_sector + sector_in_fat c) in
      let (words, read) = reliable.reads s d in
      (
        from_le_bytes (words_to_bytes words) (offset_in_sector c) % 2 ^ 28,
        rw (read, read_fat_entry) refl,
      )

  find_free_from_total :
      (count cluster : ℕ) (d : D)
      → 0 < count_free device count cluster d
      → (c : ℕ) × (find_free_from device count cluster d ≡ ok c)
  unfolding find_free_from count_free
  find_free_from_total zero cluster d h = absurd (omega (arith, h))
  find_free_from_total (suc count) cluster d h =
      let (v, read) = read_fat_entry_total cluster d in
      elim (Bool-cases (nat_eq v fat_free)) [
        | inl free ↦ (cluster, rw (read, find_free_from) (rw free refl))
        | inr used ↦
            let none_here : free_number (read_fat_entry device cluster d) ≡ 0 =
              ap free_number read ∙ rw used refl in
            let (c, later) =
              find_free_from_total count (cluster + 1) d (omega (arith, h, none_here)) in
            (c, rw (read, find_free_from) (rw used later))
      ]

  find_free_from_none :
      (count cluster : ℕ) (d : D)
      → count_free device count cluster d ≡ 0
      → find_free_from device count cluster d ≡ err (codes "空きクラスタが見つかりません(ディスクフル)")
  unfolding find_free_from count_free
  find_free_from_none zero cluster d h = refl
  find_free_from_none (suc count) cluster d h =
      let (v, read) = read_fat_entry_total cluster d in
      elim (Bool-cases (nat_eq v fat_free)) [
        | inl free ↦
            let one_here : free_number (read_fat_entry device cluster d) ≡ 1 =
              ap free_number read ∙ rw free refl in
            absurd (omega (arith, h, one_here))
        | inr used ↦
            let later = find_free_from_none count (cluster + 1) d (omega (arith, h)) in
            rw (read, find_free_from) (rw used later)
      ]

  pub find_free_cluster_total :
      (d : D) → 0 < free_clusters device d → (c : ℕ) × (find_free_cluster device d ≡ ok c)
  unfolding find_free_cluster free_clusters
  find_free_cluster_total d h = find_free_from_total total_clusters 2 d h

  pub find_free_cluster_none :
      (d : D)
      → free_clusters device d ≡ 0
      → find_free_cluster device d ≡ err (codes "空きクラスタが見つかりません(ディスクフル)")
  unfolding find_free_cluster free_clusters
  find_free_cluster_none d h = find_free_from_none total_clusters 2 d h

module _ {D : Type 0} (device : BlockDevice D) (lawful : IsLawful device) where
  free_number_marked :
      (c v : ℕ) (d d' : D)
      → c < 131072
      → 2 ≤ v
      → v < 2 ^ 28
      → write_fat_entry device c v d ≡ (d', ok tt)
      → free_number (read_fat_entry device c d') ≡ 0
  free_number_marked c v d d' small low high h =
      let read = read_fat_entry-write_fat_entry device lawful c v d d' small h in
      ap free_number read ∙ marked v low high
    where
      marked : (v : ℕ) → 2 ≤ v → v < 2 ^ 28 → free_number (ok (v % 2 ^ 28)) ≡ 0
      marked v low high = let e : v % 2 ^ 28 ≡ v = omega (arith, high) in rw e (ground (arith, low))

  -- A free cluster becomes the end of a chain.
  pub free_clusters-marked :
      (c : ℕ) (d d' : D)
      → IsFree device d c
      → write_fat_entry device c fat_eoc d ≡ (d', ok tt)
      → free_clusters device d' + 1 ≡ free_clusters device d
  unfolding free_clusters
  free_clusters-marked c d d' free h =
      let (low, high, reads) = free in
      count_free-taken device total_clusters 2 c d d' low (omega (arith, high))
        (ap free_number reads)
        (free_number_marked c fat_eoc d d' (omega (arith, high)) (omega arith) (omega arith) h)
        (λ e a b other. ap free_number (
          read_fat_entry-write_fat_entry_other device lawful c e fat_eoc d d' (omega (arith, high))
            (omega (arith, b)) (λ q. other (sym q)) h))

  -- A cluster in use names the next one of its chain.
  pub free_clusters-linked :
      (c v : ℕ) (d d' : D)
      → c < 2 + total_clusters
      → 2 ≤ v
      → v < 2 + total_clusters
      → free_number (read_fat_entry device c d) ≡ 0
      → write_fat_entry device c v d ≡ (d', ok tt)
      → free_clusters device d' ≡ free_clusters device d
  unfolding free_clusters
  free_clusters-linked c v d d' small low high used h =
      count_free-same device total_clusters 2 d d' (λ e a b. elim (Bool-cases (nat_eq c e)) [
        | inl here ↦
            let same : c ≡ e = ground (arith, here) in
            let now =
              free_number_marked c v d d' (omega (arith, small)) low (omega (arith, high)) h in
            subst
              (λ x.
                free_number (read_fat_entry device x d') ≡ free_number (read_fat_entry device x d))
              same (now ∙ sym used)
        | inr other ↦ ap free_number (
            read_fat_entry-write_fat_entry_other device lawful c e v d d' (omega (arith, small))
              (omega (arith, b)) (λ q. ground (arith, q, other)) h)
      ])
