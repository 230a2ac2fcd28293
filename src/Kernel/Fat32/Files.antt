-- ===== src/Kernel/Fat32/Files.antt =====
-- `write_file` and `read_file` together.
use arona_os.Prelude.{
  ℕ, ◌^◌, ◌<◌, ◌≤◌, ◌≡◌, ◌≢◌, refl, sym, ap, ◌∙◌, inl, inr, Text, List, [], ◌∷◌, ok, none, some,
  length, arith, All, ◌⊎◌,
}
use arona_os.Kernel.Fat32.{BlockDevice, IsLawful, cluster_to_sector, root_cluster}
use arona_os.Kernel.Fat32.Table.{read_fat_entry}
use arona_os.Kernel.Fat32.Free.{fat_free}
use arona_os.Kernel.Fat32.Written.{Links-SameTable}
use arona_os.Kernel.Fat32.Read.{read_data_rounds, read_data_from_chain}
use arona_os.Kernel.Fat32.ReadBack.{read_data_rounds-Stored}
use arona_os.Kernel.Fat32.Directory.{to_short_name, write_file}
use arona_os.Kernel.Fat32.Lookup.{look_up, find_file, read_file}
use arona_os.Kernel.Fat32.Slots.{IsUsable, to_short_name_small}
use arona_os.Kernel.Fat32.Added.{add_entry-Added}
use arona_os.Kernel.Fat32.Kept.{look_up-cong}
use arona_os.Kernel.Fat32.Filling.{
  on_disk, root_sector, Stored-kept, write_file-Steps, Filling, write_data_to_chain-Filling,
}

module _ {D : Type 0} (device : BlockDevice D) (lawful : IsLawful device) where
  -- The chain is read after the entry has been added.
  pub read_data_from_chain-Filling :
      (first : ℕ) (data_ : List ℕ) (d filled d' : D)
      → Filling device lawful first data_ d filled
      → ((s : ℕ) → (s < 2080) ⊎ (2088 ≤ s) → device.read_sector s d' ≡ device.read_sector s filled)
      → read_data_from_chain device first (length data_) d' ≡ ok data_
  unfolding read_data_from_chain read_data_rounds
  read_data_from_chain-Filling first [] d filled d' f kept = refl
  read_data_from_chain-Filling first (b ∷ bs) d filled d' f kept =
      let xs = b ∷ bs in
      let on = on_disk (first ∷ f.tail) f.behind in
      let stored =
        Stored-kept device first f.tail xs filled d' f.behind (λ s h. kept s (inr h))
          (f.stored (omega arith)) in
      let links =
        Links-SameTable device lawful first f.tail filled d' on (λ s h. kept s (inl h)) f.links in
      read_data_rounds-Stored device (length xs) first f.tail xs d' on links stored (omega arith)
        (omega (arith, f.long)) (omega (arith, f.long))

  -- On a lawful device where `write_file` succeeds, the data is what `read_file` answers for the name
  -- afterwards, if the directory had no file of that name, the root directory's cluster was in use,
  -- the short form of the name starts with neither 0 nor 0xe5, and the data is fewer than 2 ^ 32
  -- bytes (each below 256).
  pub read_file-write_file :
      (name : Text) (data_ : List ℕ) (d d' : D)
      → find_file device name d ≡ ok none
      → read_fat_entry device root_cluster d ≢ ok fat_free
      → IsUsable (to_short_name name)
      → All (λ b. b < 256) data_
      → length data_ < 2 ^ 32
      → write_file device name data_ d ≡ (d', ok tt)
      → read_file device name d' ≡ ok data_
  unfolding find_file read_file
  read_file-write_file name data_ d d' absent used usable small fits h =
      let p = write_file-Steps device name data_ d d' h in
      let f =
        write_data_to_chain-Filling device lawful p.first data_ d p.allocated p.filled used small
          p.allocates p.fills in
      let short = to_short_name name in
      let absent' : look_up device 8 2080 short p.filled ≡ ok none =
        look_up-cong device 8 2080 short d p.filled (λ s a b. f.kept s a (omega (arith, b)))
        ∙ (ap (λ s. look_up device 8 s short d) (sym root_sector) ∙ absent) in
      let a =
        add_entry-Added device lawful 8 2080 p.first (length data_) short p.filled d' usable
          (to_short_name_small name) (omega (arith, f.behind.0)) fits absent' p.adds in
      let found : look_up device 8 (cluster_to_sector 2) short d'
          ≡ ok (some (p.first, length data_)) =
        ap (λ s. look_up device 8 s short d') root_sector ∙ a.found in
      (rw (found, read_file) refl)
      ∙ read_data_from_chain-Filling p.first data_ d p.filled d' f a.kept
