-- ===== src/Kernel/Fat32/Room.antt =====
-- How many files a disk takes after the formatting.
use arona_os.Prelude.{
  ℕ, zero, suc, ◌+◌, ◌*◌, ◌<◌, ◌≤◌, ◌≡◌, refl, sym, ap, ◌∙◌, Text, List, [], ◌∷◌, ok, length, arith,
}
use arona_os.Kernel.Fat32.{BlockDevice, IsLawful, words_to_bytes}
use arona_os.Kernel.Fat32.Table.{read_fat_entry}
use arona_os.Kernel.Fat32.Free.{fat_free, fat_eoc, needed_clusters}
use arona_os.Kernel.Fat32.Directory.{write_file}
use arona_os.Kernel.Fat32.Format.{zero_sector, format}
use arona_os.Kernel.Fat32.Fresh.{zero_byte, format-fresh, format-root}
use arona_os.Kernel.Fat32.Space.{IsReliable, free_number, count_free, free_clusters}
use arona_os.Kernel.Fat32.RootSpace.{slots_of, count_slots, count_entries}
use arona_os.Kernel.Fat32.Contents.{File, IsGiven}
use arona_os.Kernel.Fat32.History.{History, formatted, written, History-Holds}
use arona_os.Kernel.Fat32.Capacity.{write_file_total, write_file-room}

-- The clusters that files take.
abbrev pub used_clusters : List File → ℕ
used_clusters [] = 0
used_clusters (f ∷ files) = needed_clusters (length f.1) + used_clusters files

module _ {D : Type 0} (device : BlockDevice D) where
  count_free-all :
      (count cluster : ℕ) (d : D)
      → ((c : ℕ) → cluster ≤ c → c < cluster + count → read_fat_entry device c d ≡ ok fat_free)
      → count_free device count cluster d ≡ count
  unfolding count_free
  count_free-all zero cluster d free = refl
  count_free-all (suc count) cluster d free = omega (
    arith,
    ap free_number (free cluster (omega arith) (omega arith)),
    count_free-all count (cluster + 1) d (λ c a b. free c (omega (arith, a)) (omega (arith, b))),
  )

  count_free-first :
      (count cluster : ℕ) (d : D)
      → read_fat_entry device cluster d ≡ ok fat_eoc
      → count_free device (suc count) cluster d ≡ count_free device count (cluster + 1) d
  unfolding count_free
  count_free-first count cluster d used = omega (arith, ap free_number used)

count_slots-zero_sector : (n e : ℕ) → count_slots n e (words_to_bytes zero_sector) ≡ n
unfolding count_slots
count_slots-zero_sector zero e = refl
count_slots-zero_sector (suc n) e =
    let rest = count_slots-zero_sector n (e + 1) in rw (zero_byte (e * 32)) (omega (arith, rest))

module _ {D : Type 0} (device : BlockDevice D) where
  count_entries-empty :
      (count sector : ℕ) (d : D)
      → ((s : ℕ) → sector ≤ s → s < sector + count → device.read_sector s d ≡ ok zero_sector)
      → count_entries device count sector d ≡ count * 16
  unfolding count_entries
  count_entries-empty zero sector d empty = refl
  count_entries-empty (suc count) sector d empty = omega (
    arith,
    ap slots_of (empty sector (omega arith) (omega arith)),
    count_slots-zero_sector 16 0,
    count_entries-empty count (sector + 1) d
        (λ s a b. empty s (omega (arith, a)) (omega (arith, b))),
  )

-- What is left of the clusters behind the root directory's, and of the entries of the root
-- directory.
pub record Room {D : Type 0} (device : BlockDevice D) (d : D) (files : List File) : Type 0 where
  pub clusters : free_clusters device d + used_clusters files ≡ 130_811
  pub entries : count_entries device 8 2080 d + length files ≡ 128

module _ {D : Type 0} (device : BlockDevice D) (lawful : IsLawful device) where
  format-Room :
      (volume_id : ℕ) (d d' : D) → format device volume_id d ≡ (d', ok tt) → Room device d' []
  unfolding free_clusters
  format-Room volume_id d d' h =
      let (root, free, _) = format-fresh device lawful volume_id d d' h in
      let behind : count_free device 130_811 3 d' ≡ 130_811 =
        count_free-all device 130_811 3 d' (λ c a b. free c a (omega (arith, b))) in
      let first = count_free-first device 130_811 2 d' root in
      let entries =
        count_entries-empty device 8 2080 d'
          (λ s a b. format-root device lawful volume_id s d d' h a (omega (arith, b))) in
      record { clusters = omega (arith, first, behind); entries = omega (arith, entries) }

  module _ (reliable : IsReliable device) where
    -- A successful write had room.
    written-Room :
        (name : Text) (data_ : List ℕ) (files : List File) (d d' : D)
        → History device d files
        → IsGiven name data_ files
        → write_file device name data_ d ≡ (d', ok tt)
        → Room device d files
        → Room device d' ((name, data_) ∷ files)
    written-Room name data_ files d d' history given h room =
        let holds = History-Holds device lawful history in
        let (entry, space) =
          write_file-room device lawful reliable name data_ files d d' holds given h in
        let w =
          write_file_total device lawful reliable name data_ files d holds given entry space in
        let same : w.after ≡ d' = ap (λ r. r.0) (sym w.succeeds ∙ h) in
        let left = sym (ap (free_clusters device) same) in
        let fewer = sym (ap (λ x. count_entries device 8 2080 x) same) in
        record {
          clusters = omega (arith, w.clusters, left, room.clusters);
          entries = omega (arith, w.entries, fewer, room.entries);
        }

    pub History-Room : {d : D} {files : List File} → History device d files → Room device d files
    History-Room (formatted volume_id d d' h) = format-Room volume_id d d' h
    History-Room (written name data_ files d d' before given h) =
        written-Room name data_ files d d' before given h (History-Room before)

    -- On a lawful device that never fails, and that has been formatted and has had any number of
    -- successful calls of `write_file` since, the next call succeeds as long as fewer than 128 files
    -- have been written and their clusters, with those that the new data needs (one for each 4096
    -- bytes begun, and at least one), are no more than 130811. The call is given a name whose short
    -- form is that of no earlier file and starts with neither 0 nor 0xe5, and fewer than 2 ^ 32
    -- bytes, each below 256, as the earlier ones were.
    pub write_file-History :
        {d : D} {files : List File} (name : Text) (data_ : List ℕ)
        → History device d files
        → IsGiven name data_ files
        → length files < 128
        → used_clusters files + needed_clusters (length data_) ≤ 130_811
        → (d' : D) × (write_file device name data_ d ≡ (d', ok tt))
    write_file-History {d} {files} name data_ history given few space =
        let room = History-Room history in
        let w =
          write_file_total device lawful reliable name data_ files d
            (History-Holds device lawful history) given (omega (arith, room.entries, few))
            (omega (arith, room.clusters, space)) in
        (w.after, w.succeeds)
