-- ===== src/Kernel/Fat32.antt =====
-- arona_kernel/src/fat32/format.rs: the layout of the disk and the byte order of its sectors. The
-- ATA driver is a parameter. An array is a function on its indices.
pub mod Geometry
pub mod Table
pub mod Entries
pub mod Free
pub mod Chain
pub mod Data
pub mod Read
pub mod Stored
pub mod Written
pub mod ReadBack
pub mod Directory
pub mod Lookup
pub mod Slots
pub mod Found
pub mod Added
pub mod Kept
pub mod Filling
pub mod Files
pub mod ReadLength
pub mod Format
pub mod Fresh
pub mod Volume
pub mod FullRoot
pub mod Others
pub mod Names
pub mod Ended
pub mod EnteredBytes
pub mod OtherNames
pub mod Contents
pub mod History
pub mod Space
pub mod RootSpace
pub mod Allocating
pub mod Capacity
pub mod Room
pub mod FormatTotal
pub mod Examples
mod FileExamples
mod FormatExamples
pub mod SpaceExamples
use arona_os.Prelude.{
  ℕ, ◌+◌, ◌-◌, ◌*◌, ◌/◌, ◌%◌, ◌^◌, ◌<◌, ◌≡◌, ◌≢◌, Text, Result, ok, u32, nat_eq, if◌then◌else◌,
}

-- 256 words of 16 bits, and 512 bytes.
abbrev pub Words : Type 0
Words = ℕ → ℕ

abbrev pub Bytes : Type 0
Bytes = ℕ → ℕ

pub record BlockDevice (D : Type 0) : Type 0 where
  pub read_sector : ℕ → D → Result Words Text
  pub write_sector : ℕ → Words → D → D × Result (Unit {0}) Text

-- What a read answers after a write that succeeded.
pub record IsLawful {D : Type 0} (device : BlockDevice D) : Type 0 where
  pub read-write :
      (s : ℕ) (w : Words) (d d' : D)
      → device.write_sector s w d ≡ (d', ok tt)
      → device.read_sector s d' ≡ ok w
  pub read-write_other :
      (s t : ℕ) (w : Words) (d d' : D)
      → device.write_sector s w d ≡ (d', ok tt)
      → s ≢ t
      → device.read_sector t d' ≡ device.read_sector t d

abbrev pub bytes_per_sector : ℕ
bytes_per_sector = 512

abbrev pub sectors_per_cluster : ℕ
sectors_per_cluster = 8

abbrev pub reserved_sectors : ℕ
reserved_sectors = 32

abbrev pub num_fats : ℕ
num_fats = 2

abbrev pub total_sectors : ℕ
total_sectors = 1_048_576

abbrev pub sectors_per_fat : ℕ
sectors_per_fat = 1024

abbrev pub root_cluster : ℕ
root_cluster = 2

abbrev pub fat_start_sector : ℕ
fat_start_sector = reserved_sectors

abbrev pub data_start_sector : ℕ
data_start_sector = fat_start_sector + num_fats * sectors_per_fat

-- In `u32`, where `cluster - 2` wraps.
unfoldable pub cluster_to_sector : ℕ → ℕ
cluster_to_sector cluster =
    u32 (data_start_sector + u32 (u32 (cluster + (2 ^ 32 - 2)) * sectors_per_cluster))

-- The two bytes share no bit, so `|` is a sum.
unfoldable pub bytes_to_words : Bytes → Words
bytes_to_words bytes i = bytes (i * 2) + bytes (i * 2 + 1) * 256

-- `as u8` keeps the low byte.
unfoldable pub words_to_bytes : Words → Bytes
words_to_bytes words j = if nat_eq (j % 2) 0 then words (j / 2) % 256 else words (j / 2) / 256 % 256
