-- ===== src/Kernel/Fat32/Format.antt =====
-- The formatting of arona_kernel/src/fat32/format.rs. The random volume number is an argument.
use arona_os.Prelude.{
  ℕ, zero, suc, ◌+◌, ◌-◌, ◌*◌, Text, codes, u32, ◌&&◌, ok, length, ltb, leb, if◌then◌else◌,
}
use arona_os.Prelude.Actions.{Action, ◌>>=◌, lift}
use arona_os.Kernel.Fat32.{
  Words, Bytes, BlockDevice, bytes_per_sector, sectors_per_cluster, reserved_sectors, num_fats,
  total_sectors, sectors_per_fat, root_cluster, fat_start_sector, cluster_to_sector, bytes_to_words,
}
use arona_os.Kernel.Fat32.Table.{put_le_bytes}
use arona_os.Kernel.Fat32.Data.{byte_at}
use arona_os.Kernel.Fat32.Directory.{put_byte, put_le_u16}

-- `sector[o..o + n].copy_from_slice(text)`
abbrev put_slice : Text → ℕ → Bytes → Bytes
put_slice text o b j = if leb o j && ltb j (o + length text) then byte_at text (j - o) else b j

abbrev zero_bytes : Bytes
zero_bytes j = 0

-- `[0u16; 256]`
abbrev pub zero_sector : Words
zero_sector i = 0

-- Its parameters of the disk, and its names and marks.
unfoldable pub boot_sector : ℕ → Bytes
boot_sector volume_id =
    let b0 : Bytes = put_byte 0x90 2 (put_byte 0x58 1 (put_byte 0xeb 0 zero_bytes)) in
    let b1 : Bytes = put_le_u16 bytes_per_sector 11 (put_slice (codes "ARONAOS ") 3 b0) in
    let b2 : Bytes =
      put_byte num_fats 16 (put_le_u16 reserved_sectors 14 (put_byte sectors_per_cluster 13 b1)) in
    let b3 : Bytes = put_byte 0xf8 21 (put_le_u16 0 19 (put_le_u16 0 17 b2)) in
    let b4 : Bytes = put_le_bytes 0 28 (put_le_u16 64 26 (put_le_u16 32 24 (put_le_u16 0 22 b3))) in
    let b5 : Bytes = put_le_bytes sectors_per_fat 36 (put_le_bytes total_sectors 32 b4) in
    let b6 : Bytes = put_le_bytes root_cluster 44 (put_le_u16 0 42 (put_le_u16 0 40 b5)) in
    let b7 : Bytes = put_le_u16 6 50 (put_le_u16 1 48 b6) in
    let b8 : Bytes = put_byte 0x29 66 (put_byte 0 65 (put_byte 0x80 64 b7)) in
    let b9 : Bytes = put_slice (codes "ARONAOS    ") 71 (put_le_bytes (u32 volume_id) 67 b8) in
    let b10 : Bytes = put_slice (codes "FAT32   ") 82 b9 in
    put_byte 0xaa 511 (put_byte 0x55 510 b10)

unfoldable pub fsinfo_sector : Bytes
fsinfo_sector =
    let b1 : Bytes = put_le_bytes 0x61417272 484 (put_le_bytes 0x41615252 0 zero_bytes) in
    let b2 : Bytes = put_le_bytes 0xffffffff 492 (put_le_bytes 0xffffffff 488 b1) in
    put_le_bytes 0xaa550000 508 b2

-- The three entries in use at the start of the table.
unfoldable pub first_sector : Bytes
first_sector =
    put_le_bytes 0x0fffffff 8 (put_le_bytes 0x0fffffff 4 (put_le_bytes 0x0ffffff8 0 zero_bytes))

module _ {D : Type 0} (device : BlockDevice D) where
  unfoldable pub write_boot_sector : ℕ → Action D Text (Unit {0})
  unfolding ◌>>=◌
  write_boot_sector volume_id = do
    _ ← device.write_sector 0 (bytes_to_words (boot_sector volume_id))
    device.write_sector 6 (bytes_to_words (boot_sector volume_id))

  unfoldable pub write_fsinfo_sector : Action D Text (Unit {0})
  unfolding ◌>>=◌
  write_fsinfo_sector = do
    _ ← device.write_sector 1 (bytes_to_words fsinfo_sector)
    device.write_sector 7 (bytes_to_words fsinfo_sector)

  -- A `for` loop that clears `count` sectors.
  unfoldable pub clear_sectors : ℕ → ℕ → Action D Text (Unit {0})
  unfolding ◌>>=◌
  clear_sectors zero sector = lift (ok tt)
  clear_sectors (suc count) sector = do
    _ ← device.write_sector (u32 sector) zero_sector
    clear_sectors count (sector + 1)

  unfoldable pub init_fat_tables : Action D Text (Unit {0})
  unfolding ◌>>=◌
  init_fat_tables = do
    _ ← clear_sectors sectors_per_fat (fat_start_sector + 0 * sectors_per_fat)
    _ ← clear_sectors sectors_per_fat (fat_start_sector + 1 * sectors_per_fat)
    _ ← device.write_sector (fat_start_sector + 0 * sectors_per_fat) (bytes_to_words first_sector)
    device.write_sector (fat_start_sector + 1 * sectors_per_fat) (bytes_to_words first_sector)

  unfoldable pub init_root_directory : Action D Text (Unit {0})
  init_root_directory = clear_sectors sectors_per_cluster (cluster_to_sector root_cluster)

  unfoldable pub format : ℕ → Action D Text (Unit {0})
  unfolding ◌>>=◌
  format volume_id = do
    _ ← write_boot_sector volume_id
    _ ← write_fsinfo_sector
    _ ← init_fat_tables
    init_root_directory
