-- ===== src/Kernel/Fat32/FormatExamples.antt =====
-- Tests of the formatting, on a disk that is a function.
use arona_os.Prelude.{◌≡◌, refl, sym, Text, codes, List, [], ◌∷◌, ok, err, arith, All}
use arona_os.Prelude.Actions.{◌>>=◌}
use arona_os.Kernel.Fat32.{bytes_to_words, words_to_bytes, cluster_to_sector}
use arona_os.Kernel.Fat32.Table.{
  from_le_bytes, put_le_bytes, read_fat_entry, updated, write_copy, write_fat_entry,
}
use arona_os.Kernel.Fat32.Free.{
  find_free_from, find_free_cluster, append_clusters, allocate_cluster_chain,
}
use arona_os.Kernel.Fat32.Data.{sector_bytes, write_sectors, write_data_from, write_data_to_chain}
use arona_os.Kernel.Fat32.Directory.{
  rsplit_once, to_short_name, write_entry, add_entry, find_slot, write_file,
}
use arona_os.Kernel.Fat32.Lookup.{read_file}
use arona_os.Kernel.Fat32.Format.{
  first_sector, write_boot_sector, write_fsinfo_sector, clear_sectors, init_fat_tables,
  init_root_directory, format,
}
use arona_os.Kernel.Fat32.Contents.{File, IsNew, IsGiven}
use arona_os.Kernel.Fat32.History.{History, written, read_file-History}
use arona_os.Kernel.Fat32.Examples.{Disk, device, lawful, blank}
use arona_os.Kernel.Fat32.FileExamples.{note, content, short_note}

abbrev pub formatted : Disk
formatted = (format device 7 blank).0

format-blank : format device 7 blank ≡ (formatted, ok tt)
unfolding format write_boot_sector write_fsinfo_sector clear_sectors init_fat_tables
    init_root_directory ◌>>=◌
format-blank = refl

abbrev pub first_note : Disk
first_note = (write_file device note content formatted).0

write_first_note : write_file device note content formatted ≡ (first_note, ok tt)
unfolding write_file allocate_cluster_chain append_clusters find_free_cluster find_free_from
    read_fat_entry write_fat_entry write_copy updated from_le_bytes put_le_bytes bytes_to_words
    words_to_bytes first_sector write_data_to_chain write_data_from write_sectors add_entry
    find_slot cluster_to_sector clear_sectors format write_boot_sector write_fsinfo_sector
    init_fat_tables init_root_directory ◌>>=◌
write_first_note = refl

abbrev second_note : Disk
second_note = (write_file device (codes "b.txt") (7 ∷ []) first_note).0

write_second_note : write_file device (codes "b.txt") (7 ∷ []) first_note ≡ (second_note, ok tt)
unfolding write_file allocate_cluster_chain append_clusters find_free_cluster find_free_from
    read_fat_entry write_fat_entry write_copy updated from_le_bytes put_le_bytes bytes_to_words
    words_to_bytes first_sector write_data_to_chain write_data_from write_sectors sector_bytes
    add_entry find_slot write_entry to_short_name rsplit_once cluster_to_sector clear_sectors format
    write_boot_sector write_fsinfo_sector init_fat_tables init_root_directory ◌>>=◌
write_second_note = refl

short_b : to_short_name (codes "b.txt") 0 ≡ 66
unfolding to_short_name rsplit_once
short_b = refl

note-IsGiven : IsGiven note content []
note-IsGiven = record {
  new = tt;
  usable = ((λ e. omega (arith, sym short_note, e)), λ e. omega (arith, sym short_note, e));
  small = (omega arith, (omega arith, tt));
  fits = omega arith;
}

pub b-IsGiven : IsGiven (codes "b.txt") (7 ∷ []) ((note, content) ∷ [])
b-IsGiven = record {
  new = ((0, omega arith, λ e. omega (arith, short_note, short_b, e)), tt);
  usable = ((λ e. omega (arith, short_b, e)), λ e. omega (arith, short_b, e));
  small = (omega arith, tt);
  fits = omega arith;
}

pub note_history : History device first_note ((note, content) ∷ [])
note_history =
    written note content [] formatted first_note (History.formatted 7 blank formatted format-blank)
      note-IsGiven write_first_note

abbrev two_files : List File
two_files = (codes "b.txt", 7 ∷ []) ∷ (note, content) ∷ []

read_file-History_example :
    All (λ f. read_file device f.0 second_note ≡ ok f.1) two_files
    × ((name : Text)
        → IsNew name two_files
        → read_file device name second_note ≡ err (codes "指定された名前のファイルが見つかりません"))
read_file-History_example = read_file-History device lawful (
    written (codes "b.txt") (7 ∷ []) ((note, content) ∷ []) first_note second_note note_history
      b-IsGiven write_second_note)
