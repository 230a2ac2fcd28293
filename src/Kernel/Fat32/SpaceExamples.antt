-- ===== src/Kernel/Fat32/SpaceExamples.antt =====
-- Tests of the room on a disk that is a function.
use arona_os.Prelude.{
  ℕ, zero, suc, ◌+◌, ◌*◌, ◌/◌, ◌%◌, ◌<◌, ◌≤◌, ◌≡◌, ◌≢◌, refl, ap, ◌⊎◌, codes, u32, ◌&&◌, [], ◌∷◌,
  ok, err, arith, Bool-cases, nat_eq, ltb, if◌then◌else◌, inl, inr,
}
use arona_os.Kernel.Fat32.{fat_start_sector, words_to_bytes}
use arona_os.Kernel.Fat32.Geometry.{total_clusters}
use arona_os.Kernel.Fat32.Table.{from_le_bytes, sector_in_fat, read_fat_entry}
use arona_os.Kernel.Fat32.Free.{fat_eoc, fat_free, allocate_cluster_chain}
use arona_os.Kernel.Fat32.Directory.{write_file}
use arona_os.Kernel.Fat32.Space.{IsReliable, free_number, count_free, free_clusters}
use arona_os.Kernel.Fat32.Allocating.{disk_full, allocate_cluster_chain_full}
use arona_os.Kernel.Fat32.Room.{write_file-History}
use arona_os.Kernel.Fat32.Examples.{Disk, device, lawful}
use arona_os.Kernel.Fat32.FormatExamples.{first_note, note_history, b-IsGiven}

pub reliable : IsReliable device
reliable = record { reads = λ s d. (d s, refl); writes = λ s w d. (_, refl) }

-- The second file fits on the disk.
write_file-History_example :
    (d' : Disk) × (write_file device (codes "b.txt") (7 ∷ []) first_note ≡ (d', ok tt))
write_file-History_example =
    write_file-History device lawful reliable (codes "b.txt") (7 ∷ []) note_history b-IsGiven
      (omega arith) (omega arith)

-- Every entry of its table is in use but that of the cluster 2.
abbrev spare : Disk
spare s i = if nat_eq s fat_start_sector && ltb i 6 then 0 else 0xffff

spare_byte : (s j : ℕ) → (s ≢ fat_start_sector) ⊎ (12 ≤ j) → words_to_bytes (spare s) j ≡ 255
unfolding words_to_bytes
spare_byte s j used =
    let full : spare s (j / 2) ≡ 0xffff = ground (arith, used) in
    elim (Bool-cases (nat_eq (j % 2) 0)) [
      | inl even ↦ rw even (rw full refl)
      | inr odd ↦ rw odd (rw full refl)
    ]

-- The entries behind the third lie in another sector, or behind its first twelve bytes.
entry_behind :
    (c : ℕ)
    → 3 ≤ c
    → c < 2 + total_clusters
    → (u32 (fat_start_sector + sector_in_fat c) ≢ fat_start_sector) ⊎ (12 ≤ c * 4 % 512)
entry_behind c low small = ground (arith, low, small)

spare_entry : (c : ℕ) → 3 ≤ c → c < 2 + total_clusters → read_fat_entry device c spare ≡ ok fat_eoc
unfolding read_fat_entry from_le_bytes
spare_entry c low small =
    let o = c * 4 % 512 in
    let s = u32 (fat_start_sector + sector_in_fat c) in
    let at : (k : ℕ) → words_to_bytes (spare s) (o + k) ≡ 255 =
      λ k. spare_byte s (o + k) (ground (arith, entry_behind c low small)) in
    let first : words_to_bytes (spare s) o ≡ 255 = spare_byte s o (entry_behind c low small) in
    rw first (rw (at 1) (rw (at 2) (rw (at 3) refl)))

spare_rest :
    (count cluster : ℕ)
    → 3 ≤ cluster
    → cluster + count ≤ 2 + total_clusters
    → count_free device count cluster spare ≡ 0
unfolding count_free
spare_rest zero cluster low small = refl
spare_rest (suc count) cluster low small = omega (
  arith,
  ap free_number (spare_entry cluster low (omega (arith, small))),
  spare_rest count (cluster + 1) (omega (arith, low)) (omega (arith, small)),
)

spare_first : read_fat_entry device 2 spare ≡ ok fat_free
unfolding read_fat_entry from_le_bytes words_to_bytes
spare_first = refl

spare_free :
    (count : ℕ) → 2 + suc count ≤ 2 + total_clusters → count_free device (suc count) 2 spare ≡ 1
unfolding count_free
spare_free count small =
    omega
      (arith, ap free_number spare_first, spare_rest count 3 (omega arith) (omega (arith, small)))

-- A file of two clusters takes the only free one and does not fit.
allocate_cluster_chain_full_example :
    (d' : Disk) × (allocate_cluster_chain device 5000 spare ≡ (d', err disk_full))
    × (free_clusters device d' ≡ 0)
unfolding free_clusters
allocate_cluster_chain_full_example =
    allocate_cluster_chain_full device lawful reliable 5000 spare
      (omega (arith, spare_free 130_811 (omega arith)))
