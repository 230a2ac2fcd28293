-- ===== src/Kernel/Fat32/FileExamples.antt =====
-- Tests of files and of the formatting, on a disk that is a function.
use arona_os.Prelude.{
  ap, ℕ, ◌≤◌, ◌<◌, ◌≡◌, ◌≢◌, refl, sym, Text, codes, ok, none, List, [], ◌∷◌, length, err, arith,
  All, true, ◌&&◌, leb, ltb, if◌then◌else◌,
}
use arona_os.Prelude.Actions.{◌>>=◌}
use arona_os.Kernel.Fat32.{bytes_to_words, words_to_bytes, cluster_to_sector}
use arona_os.Kernel.Fat32.Table.{
  from_le_bytes, put_le_bytes, read_fat_entry, updated, write_copy, write_fat_entry,
}
use arona_os.Kernel.Fat32.Free.{
  find_free_from, find_free_cluster, append_clusters, allocate_cluster_chain, IsFree, Links,
  fat_eoc,
}
use arona_os.Kernel.Fat32.Data.{sector_bytes, write_sectors, write_data_from, write_data_to_chain}
use arona_os.Kernel.Fat32.Directory.{
  rsplit_once, to_short_name, write_entry, find_slot, name_matches, find_name, add_entry,
  write_file,
}
use arona_os.Kernel.Fat32.Lookup.{look_up, find_file, read_file}
use arona_os.Kernel.Fat32.Files.{read_file-write_file}
use arona_os.Kernel.Fat32.Read.{read_sectors, read_data_rounds, read_data_from_chain}
use arona_os.Kernel.Fat32.ReadLength.{read_data_rounds-enough, length-read_data_from_chain}
use arona_os.Kernel.Fat32.Others.{read_data_from_chain-write_file}
use arona_os.Kernel.Fat32.FullRoot.{IsFull, write_file-full_root}
use arona_os.Kernel.Fat32.Examples.{Disk, device, lawful, rooted, root_taken, number_in}

abbrev pub note : Text
note = codes "hi.txt"

abbrev pub content : List ℕ
content = 104 ∷ 105 ∷ []

pub short_note : to_short_name note 0 ≡ 72
unfolding to_short_name rsplit_once
short_note = refl

note_absent : find_file device note rooted ≡ ok none
unfolding find_file look_up find_name name_matches words_to_bytes cluster_to_sector write_fat_entry
    write_copy ◌>>=◌
note_absent = refl

abbrev pub noted : Disk
noted = (write_file device note content rooted).0

write_note : write_file device note content rooted ≡ (noted, ok tt)
unfolding write_file allocate_cluster_chain append_clusters find_free_cluster find_free_from
    read_fat_entry write_fat_entry write_copy updated from_le_bytes put_le_bytes bytes_to_words
    words_to_bytes write_data_to_chain write_data_from write_sectors add_entry find_slot
    cluster_to_sector ◌>>=◌
write_note = refl

read_note : read_data_from_chain device 3 2 noted ≡ ok content
unfolding read_data_from_chain read_data_rounds read_sectors write_file allocate_cluster_chain
    append_clusters find_free_cluster find_free_from read_fat_entry write_fat_entry write_copy
    updated from_le_bytes put_le_bytes bytes_to_words words_to_bytes write_data_to_chain
    write_data_from write_sectors sector_bytes add_entry find_slot cluster_to_sector write_entry
    ◌>>=◌
read_note = refl

read_file-write_file_example : read_file device note noted ≡ ok content
read_file-write_file_example =
    read_file-write_file device lawful note content rooted noted note_absent root_taken
      ((λ e. omega (arith, sym short_note, e)), λ e. omega (arith, sym short_note, e))
      (omega arith, (omega arith, tt)) (omega arith) write_note

length-read_data_from_chain_example : length content ≡ 2
length-read_data_from_chain_example = length-read_data_from_chain device 3 2 noted content read_note

read_data_rounds-enough_example :
    read_data_rounds device 9 3 2 noted ≡ read_data_from_chain device 3 2 noted
read_data_rounds-enough_example = read_data_rounds-enough device 9 3 2 noted (omega arith)

-- All entries of the root directory are in use.
abbrev crowded : Disk
crowded s = if leb 2080 s && ltb s 2088 then (λ _. 0x4141) else rooted s

root_taken_crowded : read_fat_entry device 2 crowded ≢ ok 0
unfolding read_fat_entry
root_taken_crowded = root_taken

crowded-IsFull : (s : ℕ) → 2080 ≤ s → s < 2088 → IsFull device crowded s
unfolding find_slot words_to_bytes
crowded-IsFull s low high =
    let inside : (leb 2080 s && ltb s 2088) ≡ true = ground (arith, low, high) in
    ((λ _. 0x4141), (rw inside refl), refl)

abbrev crowded_allocated : Disk
crowded_allocated = (allocate_cluster_chain device 2 crowded).0

allocate_crowded : allocate_cluster_chain device 2 crowded ≡ (crowded_allocated, ok 3)
unfolding allocate_cluster_chain append_clusters find_free_cluster find_free_from read_fat_entry
    write_fat_entry write_copy updated from_le_bytes put_le_bytes bytes_to_words words_to_bytes
    ◌>>=◌
allocate_crowded = refl

abbrev crowded_filled : Disk
crowded_filled = (write_data_to_chain device 3 content crowded_allocated).0

fill_crowded : write_data_to_chain device 3 content crowded_allocated ≡ (crowded_filled, ok tt)
unfolding write_data_to_chain write_data_from write_sectors ◌>>=◌
fill_crowded = refl

write_file-full_root_example :
    (write_file device note content crowded
      ≡ (crowded_filled, err (codes "ルートディレクトリに空きエントリがありません")))
    × (tail : List ℕ) × Links device crowded_filled 3 tail
    × All (IsFree device crowded) (3 ∷ tail)
write_file-full_root_example =
    write_file-full_root device lawful note content 3 crowded crowded_allocated crowded_filled
      root_taken_crowded (omega arith, (omega arith, tt)) crowded-IsFull allocate_crowded
      fill_crowded

note_ends : read_fat_entry device 3 noted ≡ ok fat_eoc
unfolding read_fat_entry write_file allocate_cluster_chain append_clusters find_free_cluster
    find_free_from write_fat_entry write_copy updated from_le_bytes put_le_bytes bytes_to_words
    words_to_bytes write_data_to_chain write_data_from write_sectors sector_bytes add_entry
    find_slot cluster_to_sector write_entry ◌>>=◌
note_ends = refl

root_taken_noted : read_fat_entry device 2 noted ≢ ok 0
unfolding read_fat_entry write_file allocate_cluster_chain append_clusters find_free_cluster
    find_free_from write_fat_entry write_copy updated from_le_bytes put_le_bytes bytes_to_words
    words_to_bytes write_data_to_chain write_data_from write_sectors sector_bytes add_entry
    find_slot cluster_to_sector write_entry ◌>>=◌
root_taken_noted e = omega (arith, ap number_in e)

abbrev both : Disk
both = (write_file device (codes "b.txt") (7 ∷ []) noted).0

write_both : write_file device (codes "b.txt") (7 ∷ []) noted ≡ (both, ok tt)
unfolding write_file allocate_cluster_chain append_clusters find_free_cluster find_free_from
    read_fat_entry write_fat_entry write_copy updated from_le_bytes put_le_bytes bytes_to_words
    words_to_bytes write_data_to_chain write_data_from write_sectors sector_bytes add_entry
    find_slot cluster_to_sector write_entry to_short_name rsplit_once ◌>>=◌
write_both = refl

read_data_from_chain-write_file_example :
    read_data_from_chain device 3 2 both ≡ read_data_from_chain device 3 2 noted
read_data_from_chain-write_file_example =
    read_data_from_chain-write_file device lawful (codes "b.txt") (7 ∷ []) 3 2 [] noted both
      root_taken_noted (omega arith, tt) ((omega arith, omega arith), tt)
      ((λ e. omega (arith, e)), tt) note_ends (omega arith) write_both
