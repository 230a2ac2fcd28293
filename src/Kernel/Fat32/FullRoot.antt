-- ===== src/Kernel/Fat32/FullRoot.antt =====
-- `write_file` when the root directory has no free entry.
use arona_os.Prelude.{
  ℕ, zero, suc, ◌+◌, ◌<◌, ◌≤◌, ◌≡◌, ◌≢◌, refl, ap, ◌∙◌, Text, codes, List, ◌∷◌, ok, err, none,
  length, arith, All,
}
use arona_os.Prelude.Actions.{Action, ◌>>=◌, bind_ok}
use arona_os.Kernel.Fat32.{
  Words, Bytes, BlockDevice, IsLawful, root_cluster, cluster_to_sector, words_to_bytes,
}
use arona_os.Kernel.Fat32.Table.{read_fat_entry}
use arona_os.Kernel.Fat32.Free.{fat_free, allocate_cluster_chain, IsFree, Links}
use arona_os.Kernel.Fat32.Data.{write_data_to_chain}
use arona_os.Kernel.Fat32.Directory.{find_slot, to_short_name, add_entry, write_file}
use arona_os.Kernel.Fat32.Added.{add_entry-next}
use arona_os.Kernel.Fat32.Filling.{root_sector, write_data_to_chain-Filling}

module _ {D : Type 0} (device : BlockDevice D) where
  -- The sector can be read and has no free entry.
  abbrev pub IsFull : D → ℕ → Type 0
  IsFull d s =
      (words : Words) × (device.read_sector s d ≡ ok words)
      × (find_slot 16 0 (words_to_bytes words) ≡ none)

  add_entry-full :
      (count sector first size : ℕ) (short : Bytes) (d : D)
      → ((s : ℕ) → sector ≤ s → s < sector + count → IsFull d s)
      → add_entry device count sector short first size d ≡ (d, err (codes "ルートディレクトリに空きエントリがありません"))
  unfolding add_entry
  add_entry-full zero sector first size short d full = refl
  add_entry-full (suc count) sector first size short d full =
      let (words, read, taken) = full sector (omega arith) (omega arith) in
      add_entry-next device count sector first size short words d read taken
      ∙ add_entry-full count (sector + 1) first size short d
          (λ s a b. full s (omega (arith, a)) (omega (arith, b)))

  -- `write_file` after its first two steps have succeeded.
  pub write_file-taken :
      (name : Text) (data_ : List ℕ) (first : ℕ) (d allocated filled : D)
      → allocate_cluster_chain device (length data_) d ≡ (allocated, ok first)
      → write_data_to_chain device first data_ allocated ≡ (filled, ok tt)
      → write_file device name data_ d
        ≡ add_entry device 8 (cluster_to_sector 2) (to_short_name name) first (length data_) filled
  unfolding write_file ◌>>=◌
  write_file-taken name data_ first d allocated filled allocates fills =
      let add : ℕ → Action D Text (Unit {0}) =
        λ c. add_entry device 8 (cluster_to_sector 2) (to_short_name name) c (length data_) in
      bind_ok (allocate_cluster_chain device (length data_))
        (λ c. write_data_to_chain device c data_ >>= λ _. add c) d allocated first allocates
      ∙ bind_ok (write_data_to_chain device first data_) (λ _. add first) allocated filled tt fills

module _ {D : Type 0} (device : BlockDevice D) (lawful : IsLawful device) where
  -- On a lawful device whose root directory is in use and full, where the allocation and the writing
  -- of the data succeed, `write_file` answers the error of a full directory and leaves a
  -- chain allocated whose clusters were all free before.
  pub write_file-full_root :
      (name : Text) (data_ : List ℕ) (first : ℕ) (d allocated filled : D)
      → read_fat_entry device root_cluster d ≢ ok fat_free
      → All (λ b. b < 256) data_
      → ((s : ℕ) → 2080 ≤ s → s < 2088 → IsFull device d s)
      → allocate_cluster_chain device (length data_) d ≡ (allocated, ok first)
      → write_data_to_chain device first data_ allocated ≡ (filled, ok tt)
      → (write_file device name data_ d ≡ (filled, err (codes "ルートディレクトリに空きエントリがありません")))
        × (tail : List ℕ) × Links device filled first tail
        × All (IsFree device d) (first ∷ tail)
  write_file-full_root name data_ first d allocated filled used small full allocates fills =
      let f =
        write_data_to_chain-Filling device lawful first data_ d allocated filled used small
          allocates fills in
      let still : (s : ℕ) → 2080 ≤ s → s < 2080 + 8 → IsFull device filled s = λ s a b.
        let (words, read, taken) = full s a (omega (arith, b)) in
        (words, f.kept s a (omega (arith, b)) ∙ read, taken) in
      let last =
        ap (λ s. add_entry device 8 s (to_short_name name) first (length data_) filled) root_sector
        ∙ add_entry-full device 8 2080 first (length data_) (to_short_name name) filled still in
      (
        write_file-taken device name data_ first d allocated filled allocates fills ∙ last,
        f.tail,
        f.links,
        f.free,
      )
