-- ===== src/Kernel/Fat32/Table.antt =====
-- `read_fat_entry` and `write_fat_entry` of arona_kernel/src/fat32/dir.rs.
use arona_os.Prelude.{ℕ, ◌+◌, ◌*◌, ◌/◌, ◌%◌, ◌^◌, Text, Result, ok, err, u32, nat_eq, if◌then◌else◌}
use arona_os.Prelude.Actions.{Action, ◌>>=◌}
use arona_os.Kernel.Fat32.{
  Words, Bytes, BlockDevice, bytes_per_sector, fat_start_sector, sectors_per_fat, bytes_to_words,
  words_to_bytes,
}

-- `u32::from_le_bytes` of the four bytes at an offset.
unfoldable pub from_le_bytes : Bytes → ℕ → ℕ
from_le_bytes b o = b o + b (o + 1) * 256 + b (o + 2) * 65536 + b (o + 3) * 16777216

-- `copy_from_slice` of the four bytes of `to_le_bytes`.
unfoldable pub put_le_bytes : ℕ → ℕ → Bytes → Bytes
put_le_bytes v o b j =
    if nat_eq j o
    then v % 256
    else if nat_eq j (o + 1)
    then v / 256 % 256
    else if nat_eq j (o + 2)
    then v / 65536 % 256
    else if nat_eq j (o + 3)
    then v / 16777216 % 256
    else b j

abbrev pub offset_in_sector : ℕ → ℕ
offset_in_sector cluster = cluster * 4 % bytes_per_sector

abbrev pub sector_in_fat : ℕ → ℕ
sector_in_fat cluster = cluster * 4 / bytes_per_sector

-- Bytes are below 256, and the upper four bits are masked.
unfoldable pub read_fat_entry : {D : Type 0} → BlockDevice D → ℕ → D → Result ℕ Text
read_fat_entry device cluster d =
    elim (device.read_sector (u32 (fat_start_sector + sector_in_fat cluster)) d) [
      | err e ↦ err e
      | ok words ↦ ok (from_le_bytes (words_to_bytes words) (offset_in_sector cluster) % 2 ^ 28)
    ]

-- The upper four bits of what is there, and the lower 28 of the value.
unfoldable pub updated : ℕ → ℕ → Words → Words
updated cluster value words =
    let bytes = words_to_bytes words in
    let existing = from_le_bytes bytes (offset_in_sector cluster) in
    bytes_to_words
      (put_le_bytes (existing / 2 ^ 28 * 2 ^ 28 + value % 2 ^ 28) (offset_in_sector cluster) bytes)

abbrev pub sector_of_copy : ℕ → ℕ → ℕ
sector_of_copy fat_index cluster =
    u32 (fat_start_sector + fat_index * sectors_per_fat + sector_in_fat cluster)

-- One pass of the loop.
unfoldable pub write_copy : {D : Type 0} → BlockDevice D → ℕ → ℕ → ℕ → Action D Text (Unit {0})
write_copy device fat_index cluster value d =
    elim (device.read_sector (sector_of_copy fat_index cluster) d) [
      | err e ↦ (d, err e)
      | ok words ↦
          device.write_sector (sector_of_copy fat_index cluster) (updated cluster value words) d
    ]

unfoldable pub write_fat_entry : {D : Type 0} → BlockDevice D → ℕ → ℕ → Action D Text (Unit {0})
unfolding ◌>>=◌
write_fat_entry device cluster value = do
  _ ← write_copy device 0 cluster value
  write_copy device 1 cluster value
