-- ===== src/Kernel/Fat32/Slots.antt =====
-- The entry that `write_file` adds is the one that `read_file` finds.
use arona_os.Prelude.{
  ℕ, ◌+◌, ◌-◌, ◌^◌, ◌≤◌, ◌<◌, ◌≡◌, ◌≢◌, ap, inl, inr, Text, get_elem?, ltb, arith, Bool-cases,
  Option-cases,
}
use arona_os.Kernel.Fat32.{Bytes}
use arona_os.Kernel.Fat32.Table.{from_le_bytes, put_le_bytes}
use arona_os.Kernel.Fat32.Directory.{
  to_short_name, upper_or_space, write_entry, first_cluster_of, file_size_of,
}

-- The first byte of a name in use is neither the mark of the end nor that of a deleted entry.
abbrev pub IsUsable : Bytes → Type 0
IsUsable short = (short 0 ≢ 0) × (short 0 ≢ 0xe5)

upper_or_space_small : (s : Text) (i : ℕ) → upper_or_space s i < 256
upper_or_space_small s i = elim (Option-cases (get_elem? s i)) [
  | inl behind ↦ rw (behind, upper_or_space) (omega arith)
  | inr (c, at) ↦ rw (at, upper_or_space) (omega arith)
]

pub to_short_name_small : (name : Text) (i : ℕ) → to_short_name name i < 256
unfolding to_short_name
to_short_name_small name i = elim (Bool-cases (ltb i 8)) [
  | inl base ↦ rw (base, to_short_name) (upper_or_space_small _ i)
  | inr ext ↦ rw (ext, to_short_name) (upper_or_space_small _ (i - 8))
]

pub write_entry_small :
    (short : Bytes) (first size start : ℕ) (b : Bytes)
    → ((i : ℕ) → short i < 256)
    → ((i : ℕ) → b i < 256)
    → (j : ℕ) → write_entry short first size start b j < 256
unfolding write_entry put_le_bytes
write_entry_small short first size start b hs hb j = ground (arith, hs (j - start), hb j)

pub write_entry-name :
    (short : Bytes) (first size start : ℕ) (b : Bytes) (i : ℕ)
    → i < 11
    → write_entry short first size start b (start + i) ≡ short i
unfolding write_entry put_le_bytes
write_entry-name short first size start b i h =
    let e : start + i - start ≡ i = omega arith in ground (arith, h, ap short e)

pub write_entry_before :
    (short : Bytes) (first size start : ℕ) (b : Bytes) (j : ℕ)
    → j < start
    → write_entry short first size start b j ≡ b j
unfolding write_entry put_le_bytes
write_entry_before short first size start b j h = ground arith

pub write_entry_after :
    (short : Bytes) (first size start : ℕ) (b : Bytes) (j : ℕ)
    → start + 32 ≤ j
    → write_entry short first size start b j ≡ b j
unfolding write_entry put_le_bytes
write_entry_after short first size start b j h = ground arith

pub first_cluster_of-write_entry :
    (short : Bytes) (first size start : ℕ) (b : Bytes)
    → first < 2 ^ 32
    → first_cluster_of start (write_entry short first size start b) ≡ first
unfolding write_entry put_le_bytes
first_cluster_of-write_entry short first size start b h = ground arith

pub file_size_of-write_entry :
    (short : Bytes) (first size start : ℕ) (b : Bytes)
    → size < 2 ^ 32
    → file_size_of start (write_entry short first size start b) ≡ size
unfolding write_entry put_le_bytes from_le_bytes
file_size_of-write_entry short first size start b h = ground arith
