-- ===== src/Kernel/Fat32/Data.antt =====
-- `write_data_to_chain` of arona_kernel/src/fat32/dir.rs. A slice is a list of bytes; the loop
-- goes over what is left of the data instead of an offset into it.
use arona_os.Prelude.{
  ℕ, zero, suc, ◌+◌, ◌*◌, Text, u32, List, [], ◌∷◌, ok, length, ltb, if◌then◌else◌, take, drop,
}
use arona_os.Prelude.Actions.{Action, ◌>>=◌, lift}
use arona_os.Kernel.Fat32.{
  Bytes, BlockDevice, bytes_per_sector, sectors_per_cluster, cluster_to_sector, bytes_to_words,
}
use arona_os.Kernel.Fat32.Table.{read_fat_entry}
use arona_os.Kernel.Fat32.Free.{cluster_size}

-- An element of a slice, and 0 behind its end.
abbrev pub byte_at : List ℕ → ℕ → ℕ
byte_at [] i = 0
byte_at (b ∷ bs) zero = b
byte_at (b ∷ bs) (suc i) = byte_at bs i

-- The part of the chunk for one of its sectors, over zeros.
unfoldable pub sector_bytes : List ℕ → ℕ → Bytes
sector_bytes chunk sector_index j =
    if ltb (sector_index * bytes_per_sector + j) (length chunk)
    then byte_at chunk (sector_index * bytes_per_sector + j)
    else 0

module _ {D : Type 0} (device : BlockDevice D) where
  -- The inner `for` loop, for the `count` sectors from `sector_index` on.
  unfoldable pub write_sectors : ℕ → ℕ → ℕ → List ℕ → Action D Text (Unit {0})
  unfolding ◌>>=◌
  write_sectors zero sector_start sector_index chunk = lift (ok tt)
  write_sectors (suc count) sector_start sector_index chunk = do
    _ ←
        device.write_sector (u32 (sector_start + sector_index))
          (bytes_to_words (sector_bytes chunk sector_index))
    write_sectors count sector_start (sector_index + 1) chunk

  -- The end of a round: the next cluster is looked up if data is left.
  abbrev pub go_on : ℕ → (ℕ → List ℕ → Action D Text (Unit {0})) → List ℕ → Action D Text (Unit {0})
  go_on cluster round [] = lift (ok tt)
  go_on cluster round (b ∷ bs) =
      (λ d. (d, read_fat_entry device cluster d)) >>= λ next. round next (b ∷ bs)

  -- The `while` loop. Each round takes at least one byte, so `length data` rounds are enough.
  unfoldable pub write_data_from : ℕ → ℕ → List ℕ → Action D Text (Unit {0})
  unfolding ◌>>=◌
  write_data_from zero cluster data_ = lift (ok tt)
  write_data_from (suc rounds) cluster [] = lift (ok tt)
  write_data_from (suc rounds) cluster (b ∷ bs) = do
    _ ← write_sectors sectors_per_cluster (cluster_to_sector cluster) 0 (take cluster_size (b ∷ bs))
    go_on cluster (write_data_from rounds) (drop cluster_size (b ∷ bs))

  unfoldable pub write_data_to_chain : ℕ → List ℕ → Action D Text (Unit {0})
  write_data_to_chain first_cluster data_ = write_data_from (length data_) first_cluster data_
