-- ===== src/Kernel/Fat32/Capacity.antt =====
-- `write_file` on a device that never fails: it succeeds as long as the disk has room.
use arona_os.Prelude.{
  ℕ, zero, suc, ◌+◌, ◌<◌, ◌≤◌, ◌≡◌, refl, sym, ap, ◌∙◌, inl, inr, Text, true, false, Bool-cases,
  ltb, List, [], ◌∷◌, ok, length, drop, take, u32, arith,
}
use arona_os.Prelude.Actions.{Action, bind_ok}
use arona_os.Kernel.Fat32.{
  BlockDevice, IsLawful, cluster_to_sector, bytes_to_words, sectors_per_cluster,
}
use arona_os.Kernel.Fat32.Geometry.{total_clusters}
use arona_os.Kernel.Fat32.Table.{read_fat_entry}
use arona_os.Kernel.Fat32.Free.{cluster_size, needed_clusters}
use arona_os.Kernel.Fat32.Data.{
  sector_bytes, write_sectors, go_on, write_data_from, write_data_to_chain,
}
use arona_os.Kernel.Fat32.Written.{read_fat_entry-SameTable}
use arona_os.Kernel.Fat32.Directory.{to_short_name, add_entry, write_file}
use arona_os.Kernel.Fat32.Slots.{to_short_name_small}
use arona_os.Kernel.Fat32.Filling.{
  root_sector, write_file-Steps, write_data_to_chain-Filling, write_data_to_chain-table,
}
use arona_os.Kernel.Fat32.FullRoot.{write_file-taken}
use arona_os.Kernel.Fat32.Others.{add_entry-kept}
use arona_os.Kernel.Fat32.Contents.{File, IsGiven, Holds}
use arona_os.Kernel.Fat32.Space.{
  IsReliable, free_number, free_clusters, count_free-same, read_fat_entry_total,
}
use arona_os.Kernel.Fat32.RootSpace.{
  count_entries, count_entries-cong, add_entry_total, add_entry-room,
}
use arona_os.Kernel.Fat32.Allocating.{allocate_cluster_chain_total, allocate_cluster_chain_full}

module _ {D : Type 0} (device : BlockDevice D) (reliable : IsReliable device) where
  write_sectors_total :
      (count start i : ℕ) (chunk : List ℕ) (d : D)
      → (d' : D) × (write_sectors device count start i chunk d ≡ (d', ok tt))
  unfolding write_sectors
  write_sectors_total zero start i chunk d = (d, refl)
  write_sectors_total (suc count) start i chunk d =
      let words = bytes_to_words (sector_bytes chunk i) in
      let (d₁, written) = reliable.writes (u32 (start + i)) words d in
      let (d', rest) = write_sectors_total count start (i + 1) chunk d₁ in
      (
        d',
        bind_ok (device.write_sector (u32 (start + i)) words)
              (λ _. write_sectors device count start (i + 1) chunk) d d₁ tt written
            ∙ rest,
      )

  go_on_total :
      (cluster : ℕ) (round : ℕ → List ℕ → Action D Text (Unit {0})) (rest : List ℕ) (d : D)
      → ((next : ℕ) → (d' : D) × (round next rest d ≡ (d', ok tt)))
      → (d' : D) × (go_on device cluster round rest d ≡ (d', ok tt))
  go_on_total cluster round [] d later = (d, refl)
  go_on_total cluster round (b ∷ bs) d later =
      let (next, read) = read_fat_entry_total device reliable cluster d in
      let (d', done) = later next in
      (
        d',
        bind_ok (λ x. (x, read_fat_entry device cluster x)) (λ next. round next (b ∷ bs)) d d next
              (ap (λ r. (d, r)) read)
            ∙ done,
      )

  write_data_from_total :
      (rounds cluster : ℕ) (data_ : List ℕ) (d : D)
      → (d' : D) × (write_data_from device rounds cluster data_ d ≡ (d', ok tt))
  unfolding write_data_from
  write_data_from_total zero cluster data_ d = (d, refl)
  write_data_from_total (suc rounds) cluster [] d = (d, refl)
  write_data_from_total (suc rounds) cluster (b ∷ bs) d =
      let chunk = take cluster_size (b ∷ bs) in
      let rest = drop cluster_size (b ∷ bs) in
      let (d₁, written) =
        write_sectors_total sectors_per_cluster (cluster_to_sector cluster) 0 chunk d in
      let (d', done) =
        go_on_total cluster (write_data_from device rounds) rest d₁
          (λ next. write_data_from_total rounds next rest d₁) in
      (
        d',
        bind_ok (write_sectors device sectors_per_cluster (cluster_to_sector cluster) 0 chunk)
              (λ _. go_on device cluster (write_data_from device rounds) rest) d d₁ tt written
            ∙ done,
      )

  write_data_to_chain_total :
      (first : ℕ) (data_ : List ℕ) (d : D)
      → (d' : D) × (write_data_to_chain device first data_ d ≡ (d', ok tt))
  unfolding write_data_to_chain
  write_data_to_chain_total first data_ d = write_data_from_total (length data_) first data_ d

module _ {D : Type 0} (device : BlockDevice D) (lawful : IsLawful device)
    (reliable : IsReliable device) where
  free_clusters-table :
      (d d' : D)
      → ((s : ℕ) → s < 2080 → device.read_sector s d' ≡ device.read_sector s d)
      → free_clusters device d' ≡ free_clusters device d
  unfolding free_clusters
  free_clusters-table d d' same = count_free-same device total_clusters 2 d d' (λ e low high.
      ap free_number
        (read_fat_entry-SameTable device lawful e d d' (omega (arith, high)) (λ s h. same s h)))

  -- A write that has room succeeds, and takes the clusters and the entry that it needs.
  pub record Wrote (name : Text) (data_ : List ℕ) (d : D) : Type 0 where
    pub after : D
    pub succeeds : write_file device name data_ d ≡ (after, ok tt)
    pub clusters :
        free_clusters device after + needed_clusters (length data_) ≡ free_clusters device d
    pub entries : count_entries device 8 2080 after + 1 ≡ count_entries device 8 2080 d

  pub write_file_total :
      (name : Text) (data_ : List ℕ) (files : List File) (d : D)
      → Holds device d files
      → IsGiven name data_ files
      → 0 < count_entries device 8 2080 d
      → needed_clusters (length data_) ≤ free_clusters device d
      → Wrote name data_ d
  write_file_total name data_ files d holds given room space =
      let short = to_short_name name in
      let (first, allocated, allocates, left) =
        allocate_cluster_chain_total device lawful reliable (length data_) d space in
      let (filled, fills) = write_data_to_chain_total device reliable first data_ allocated in
      let f =
        write_data_to_chain-Filling device lawful first data_ d allocated filled holds.root
          given.small allocates fills in
      let root =
        count_entries-cong device 8 2080 d filled (λ s a b. f.kept s a (omega (arith, b))) in
      let (after, adds, less) =
        add_entry_total device lawful reliable 8 2080 first (length data_) short filled given.usable
          (to_short_name_small name) (omega (arith, root, room)) in
      let table₁ = free_clusters-table allocated filled (
        write_data_to_chain-table device lawful first data_ d allocated filled holds.root
          given.small allocates fills) in
      let table₂ = free_clusters-table filled after (λ s h.
        add_entry-kept device lawful 8 2080 first (length data_) s short filled after (inl h)
          adds) in
      record {
        after = after;
        succeeds =
            write_file-taken device name data_ first d allocated filled allocates fills
            ∙ (ap (λ s. add_entry device 8 s short first (length data_) filled) root_sector ∙ adds);
        clusters = omega (arith, left, table₁, table₂);
        entries = omega (arith, less, root);
      }

  -- A write that succeeds had room.
  pub write_file-room :
      (name : Text) (data_ : List ℕ) (files : List File) (d d' : D)
      → Holds device d files
      → IsGiven name data_ files
      → write_file device name data_ d ≡ (d', ok tt)
      → (0 < count_entries device 8 2080 d)
        × (needed_clusters (length data_) ≤ free_clusters device d)
  write_file-room name data_ files d d' holds given h =
      let p = write_file-Steps device name data_ d d' h in
      let f =
        write_data_to_chain-Filling device lawful p.first data_ d p.allocated p.filled holds.root
          given.small p.allocates p.fills in
      let root =
        count_entries-cong device 8 2080 d p.filled (λ s a b. f.kept s a (omega (arith, b))) in
      let room =
        add_entry-room device 8 2080 p.first (length data_) (to_short_name name) p.filled d'
          p.adds in
      (
        omega (arith, room, root),
        elim (Bool-cases (ltb (free_clusters device d) (needed_clusters (length data_)))) [
          | inl short ↦
              let (full, fails, _) =
                allocate_cluster_chain_full device lawful reliable (length data_) d
                  (ltb→lt (free_clusters device d) (needed_clusters (length data_)) short) in
              absurd (cc (ap (λ r. r.1) (sym fails ∙ p.allocates)))
          | inr enough ↦ ltb-false (free_clusters device d) (needed_clusters (length data_)) enough
        ],
      )
    where
      ltb→lt : (m n : ℕ) → ltb m n ≡ true → m < n
      ltb→lt m n h = ground arith

      ltb-false : (m n : ℕ) → ltb m n ≡ false → n ≤ m
      ltb-false m n h = ground arith
