-- ===== src/Kernel/Fat32/Examples.antt =====
-- Tests of the file system's table, on a disk that is a function from sectors to words.
use arona_os.Prelude.{
  ℕ, ◌+◌, ◌≡◌, ◌≢◌, refl, sym, ap, ◌∙◌, Text, Result, ok, err, List, ◌∷◌, length, nat_eq,
  nat_eq_iff, if◌then◌else◌, arith, All,
}
use arona_os.Prelude.Actions.{◌>>=◌}
use arona_os.Kernel.Fat32.{Words, BlockDevice, IsLawful, bytes_to_words, words_to_bytes}
use arona_os.Kernel.Fat32.Table.{
  from_le_bytes, put_le_bytes, read_fat_entry, updated, write_copy, write_fat_entry,
}
use arona_os.Kernel.Fat32.Free.{
  fat_eoc, find_free_from, find_free_cluster, append_clusters, allocate_cluster_chain,
  needed_clusters, IsFree, Links,
}
use arona_os.Kernel.Fat32.Chain.{allocate_cluster_chain-Links}

abbrev pub Disk : Type 0
Disk = ℕ → Words

abbrev pub device : BlockDevice Disk
device = record {
  read_sector = λ s d. ok (d s);
  write_sector = λ s w d. ((λ t. if nat_eq t s then w else d t), ok tt);
}

pub lawful : IsLawful device
lawful = record {
  read-write = λ s w d d' h. read_back s w d d' (ap (λ r. r.0) h);
  read-write_other = λ s t w d d' h ne. passed s t w d d' (ap (λ r. r.0) h) ne;
}
  where
    read_back :
        (s : ℕ) (w : Words) (d d' : Disk)
        → (λ t. if nat_eq t s then w else d t) ≡ d'
        → ◌≡◌ {A = Result Words Text} (ok (d' s)) (ok w)
    read_back s w d d' e = ap (λ f. ok (f s)) (sym e) ∙ ground (arith, nat_eq_iff s s)

    passed :
        (s t : ℕ) (w : Words) (d d' : Disk)
        → (λ t. if nat_eq t s then w else d t) ≡ d'
        → s ≢ t
        → ◌≡◌ {A = Result Words Text} (ok (d' t)) (ok (d t))
    passed s t w d d' e ne = ap (λ f. ok (f t)) (sym e) ∙ ground (arith, nat_eq_iff t s, ne)

-- Every entry of the table is free.
abbrev pub blank : Disk
blank _ _ = 0

abbrev one_entry : Disk
one_entry = (write_fat_entry device 200 7 blank).0

write_one : write_fat_entry device 200 7 blank ≡ (one_entry, ok tt)
unfolding write_fat_entry write_copy ◌>>=◌
write_one = refl

abbrev allocated : Disk
allocated = (allocate_cluster_chain device 5000 blank).0

allocate_5000 : allocate_cluster_chain device 5000 blank ≡ (allocated, ok 2)
unfolding allocate_cluster_chain append_clusters find_free_cluster find_free_from read_fat_entry
    write_fat_entry write_copy updated from_le_bytes put_le_bytes bytes_to_words words_to_bytes
    ◌>>=◌
allocate_5000 = refl

allocate_cluster_chain-Links_example :
    (tail : List ℕ) × (1 + length tail ≡ needed_clusters 5000)
    × Links device allocated 2 tail
    × All (IsFree device blank) (2 ∷ tail)
allocate_cluster_chain-Links_example =
    allocate_cluster_chain-Links device lawful 5000 2 blank allocated allocate_5000

-- The root directory's cluster is in use.
abbrev pub rooted : Disk
rooted = (write_fat_entry device 2 fat_eoc blank).0

pub root_used : read_fat_entry device 2 rooted ≡ ok fat_eoc
unfolding read_fat_entry write_fat_entry write_copy updated from_le_bytes put_le_bytes
    bytes_to_words words_to_bytes ◌>>=◌
root_used = refl

abbrev grown : Disk
grown = (allocate_cluster_chain device 5000 rooted).0

allocate_rooted : allocate_cluster_chain device 5000 rooted ≡ (grown, ok 3)
unfolding allocate_cluster_chain append_clusters find_free_cluster find_free_from read_fat_entry
    write_fat_entry write_copy updated from_le_bytes put_le_bytes bytes_to_words words_to_bytes
    ◌>>=◌
allocate_rooted = refl

abbrev pub number_in : Result ℕ Text → ℕ
number_in (ok n) = n
number_in (err e) = 0

pub root_taken : read_fat_entry device 2 rooted ≢ ok 0
root_taken e = omega (arith, ap number_in (sym root_used ∙ e))
