-- ===== src/Kernel/Fat32/Read.antt =====
-- `read_data_from_chain` of arona_kernel/src/fat32/dir.rs. The loops count what is left to read
-- instead of what has been read.
use Prim.Native.Nat.{min}
use arona_os.Prelude.{
  ℕ, zero, suc, ◌+◌, ◌-◌, Text, u32, List, [], ◌∷◌, ◌++◌, Result, ok, ◌>>=◌, length, nat_eq,
  if◌then◌else◌,
}
use arona_os.Kernel.Fat32.{
  Bytes, BlockDevice, bytes_per_sector, sectors_per_cluster, cluster_to_sector, words_to_bytes,
}
use arona_os.Kernel.Fat32.Table.{read_fat_entry}

-- `bytes[o..o + n]`
abbrev pub slice : ℕ → ℕ → Bytes → List ℕ
slice zero o b = []
slice (suc n) o b = b o ∷ slice n (o + 1) b

module _ {D : Type 0} (device : BlockDevice D) where
  -- The inner `for` loop, for `count` sectors; it breaks when nothing is left.
  unfoldable pub read_sectors : ℕ → ℕ → ℕ → D → Result (List ℕ) Text
  read_sectors zero sector remaining d = ok []
  read_sectors (suc count) sector remaining d = do
    words ← device.read_sector (u32 sector) d
    let part = slice (min remaining bytes_per_sector) 0 (words_to_bytes words)
    let later = read_sectors count (sector + 1) (remaining - min remaining bytes_per_sector) d
    if nat_eq (remaining - min remaining bytes_per_sector) 0
        then ok part
        else (later >>= λ rest. ok (part ++ rest))

  -- The `while` loop. Each round reads at least one byte, so `remaining` rounds are enough.
  unfoldable pub read_data_rounds : ℕ → ℕ → ℕ → D → Result (List ℕ) Text
  read_data_rounds zero cluster remaining d = ok []
  read_data_rounds (suc rounds) cluster zero d = ok []
  read_data_rounds (suc rounds) cluster (suc r) d = do
    part ← read_sectors sectors_per_cluster (cluster_to_sector cluster) (suc r) d
    if nat_eq (suc r - length part) 0
        then ok part
        else (read_fat_entry device cluster d >>= λ next.
            read_data_rounds rounds next (suc r - length part) d >>= λ rest. ok (part ++ rest))

  unfoldable pub read_data_from_chain : ℕ → ℕ → D → Result (List ℕ) Text
  read_data_from_chain first_cluster file_size d =
      read_data_rounds file_size first_cluster file_size d
