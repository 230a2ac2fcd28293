-- ===== src/Kernel/Fat32/Free.antt =====
-- `find_free_cluster` and `allocate_cluster_chain` of arona_kernel/src/fat32/dir.rs.
use Prim.Native.Nat.{max}
use arona_os.Prelude.{
  ℕ, zero, suc, ◌+◌, ◌-◌, ◌*◌, ◌/◌, ◌≤◌, ◌<◌, ◌≡◌, ap, sym, ◌∙◌, Text, codes, Result, ok, err,
  nat_eq, if◌then◌else◌, arith, Result-cases, Bool-cases, inl, inr, List, [], ◌∷◌,
}
use arona_os.Prelude.Actions.{Action, ◌>>=◌, lift}
use arona_os.Kernel.Fat32.{BlockDevice, bytes_per_sector, sectors_per_cluster}
use arona_os.Kernel.Fat32.Geometry.{total_clusters}
use arona_os.Kernel.Fat32.Table.{read_fat_entry, write_fat_entry}

abbrev pub cluster_size : ℕ
cluster_size = bytes_per_sector * sectors_per_cluster

abbrev pub fat_eoc : ℕ
fat_eoc = 0x0fff_ffff

abbrev pub fat_free : ℕ
fat_free = 0

-- `byte_len.div_ceil(CLUSTER_SIZE).max(1)`
abbrev pub needed_clusters : ℕ → ℕ
needed_clusters byte_len = max ((byte_len + (cluster_size - 1)) / cluster_size) 1

module _ {D : Type 0} (device : BlockDevice D) where
  -- The `for` loop over the `count` clusters from `cluster` on.
  unfoldable pub find_free_from : ℕ → ℕ → D → Result ℕ Text
  find_free_from zero cluster d = err (codes "空きクラスタが見つかりません(ディスクフル)")
  find_free_from (suc count) cluster d =
      let later = find_free_from count (cluster + 1) d in
      elim (read_fat_entry device cluster d) [
        | err e ↦ err e
        | ok v ↦ if nat_eq v fat_free then ok cluster else later
      ]

  unfoldable pub find_free_cluster : D → Result ℕ Text
  find_free_cluster d = find_free_from total_clusters 2 d

  -- The loop that appends `count` clusters behind `prev`.
  unfoldable pub append_clusters : ℕ → ℕ → Action D Text (Unit {0})
  unfolding ◌>>=◌
  append_clusters zero prev = lift (ok tt)
  append_clusters (suc count) prev = do
    next ← λ d. (d, find_free_cluster d)
    _ ← write_fat_entry device prev next
    _ ← write_fat_entry device next fat_eoc
    append_clusters count next

  unfoldable pub allocate_cluster_chain : ℕ → Action D Text ℕ
  unfolding ◌>>=◌
  allocate_cluster_chain byte_len = do
    first ← λ d. (d, find_free_cluster d)
    _ ← write_fat_entry device first fat_eoc
    _ ← append_clusters (needed_clusters byte_len - 1) first
    lift (ok first)

  -- A cluster of the disk that is free.
  abbrev pub IsFree : D → ℕ → Type 0
  IsFree d c = (2 ≤ c) × (c < 2 + total_clusters) × (read_fat_entry device c d ≡ ok fat_free)

  -- Each entry names the next cluster, and the last one the end of the chain.
  abbrev pub Links : D → ℕ → List ℕ → Type 0
  Links d c [] = read_fat_entry device c d ≡ ok fat_eoc
  Links d c (e ∷ es) = (read_fat_entry device c d ≡ ok e) × Links d e es

  find_free_from-IsFree :
      (count cluster c : ℕ) (d : D)
      → find_free_from count cluster d ≡ ok c
      → (cluster ≤ c) × (c < cluster + count) × (read_fat_entry device c d ≡ ok fat_free)
  unfolding find_free_from
  find_free_from-IsFree zero cluster c d h = absurd (cc)
  find_free_from-IsFree (suc count) cluster c d h =
      elim (Result-cases (read_fat_entry device cluster d)) [
        | inr (e, failed) ↦ absurd (ground (arith, failed, h))
        | inl (v, read) ↦ elim (Bool-cases (nat_eq v fat_free)) [
          | inl free ↦
              let here : cluster ≡ c = ground (arith, read, free, h) in
              let zero_ : v ≡ fat_free = ground (arith, free) in
              (
                omega (arith, here),
                omega (arith, here),
                ap (λ x. read_fat_entry device x d) (sym here) ∙ (read ∙ ap ok zero_),
              )
          | inr used ↦
              let later : find_free_from count (cluster + 1) d ≡ ok c =
                ground (arith, read, used, h) in
              let (low, high, at) = find_free_from-IsFree count (cluster + 1) c d later in
              (omega (arith, low), omega (arith, high), at)
        ]
      ]

  pub find_free_cluster-IsFree : (c : ℕ) (d : D) → find_free_cluster d ≡ ok c → IsFree d c
  unfolding find_free_cluster
  find_free_cluster-IsFree c d h = find_free_from-IsFree total_clusters 2 c d h
