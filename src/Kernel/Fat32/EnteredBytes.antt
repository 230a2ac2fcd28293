-- ===== src/Kernel/Fat32/EnteredBytes.antt =====
-- The sector that `add_entry` of arona_kernel/src/fat32/mod.rs writes.
use arona_os.Prelude.{ℕ, ◌+◌, ◌<◌, ◌≤◌, ◌≡◌, ◌∙◌, ◌⊎◌, inl, inr, arith}
use arona_os.Kernel.Fat32.{Words, Bytes, words_to_bytes, bytes_to_words}
use arona_os.Kernel.Fat32.Entries.{words_to_bytes-bytes_to_words, words_to_bytes_small}
use arona_os.Kernel.Fat32.Table.{from_le_bytes}
use arona_os.Kernel.Fat32.Directory.{write_entry, first_cluster_of, file_size_of}
use arona_os.Kernel.Fat32.Slots.{
  write_entry_small, write_entry-name, write_entry_before, write_entry_after,
}
use arona_os.Kernel.Fat32.Names.{Entered}

-- The bytes of the sector that `add_entry` writes.
unfoldable pub entered_bytes : Bytes → ℕ → ℕ → ℕ → Words → Bytes
entered_bytes short first size start words =
    words_to_bytes (bytes_to_words (write_entry short first size start (words_to_bytes words)))

pub entered_bytes-Entered :
    (short : Bytes) (first size start : ℕ) (words : Words)
    → ((i : ℕ) → short i < 256)
    → Entered start short (words_to_bytes words) (entered_bytes short first size start words)
unfolding entered_bytes
entered_bytes-Entered short first size start words small =
    let old = words_to_bytes words in
    let same : (j : ℕ)
        → entered_bytes short first size start words j ≡ write_entry short first size start old j =
      λ j.
        words_to_bytes-bytes_to_words (write_entry short first size start old) j
          (write_entry_small short first size start old small (words_to_bytes_small words)) in
    record {
      before = λ j h. same j ∙ write_entry_before short first size start old j h;
      name = λ i h. same (start + i) ∙ write_entry-name short first size start old i h;
      behind = λ j h. same j ∙ write_entry_after short first size start old j h;
    }

-- What an entry elsewhere says is as before.
pub entry_kept :
    (p start : ℕ) (short b b' : Bytes)
    → Entered start short b b'
    → (p + 32 ≤ start) ⊎ (start + 32 ≤ p)
    → (first_cluster_of p b' ≡ first_cluster_of p b) × (file_size_of p b' ≡ file_size_of p b)
unfolding from_le_bytes
entry_kept p start short b b' entered apart =
    let at : (j : ℕ) → p ≤ j → j < p + 32 → b' j ≡ b j =
      λ j low high. entry_byte p start j short b b' entered low high apart in
    (
      omega (
        arith,
        at (p + 20) (omega arith) (omega arith),
        at (p + 21) (omega arith) (omega arith),
        at (p + 26) (omega arith) (omega arith),
        at (p + 27) (omega arith) (omega arith),
      ),
      omega (
        arith,
        at (p + 28) (omega arith) (omega arith),
        at (p + 28 + 1) (omega arith) (omega arith),
        at (p + 28 + 2) (omega arith) (omega arith),
        at (p + 28 + 3) (omega arith) (omega arith),
      ),
    )
  where
    entry_byte :
        (p start j : ℕ) (short b b' : Bytes)
        → Entered start short b b'
        → p ≤ j
        → j < p + 32
        → (p + 32 ≤ start) ⊎ (start + 32 ≤ p)
        → b' j ≡ b j
    entry_byte p start j short b b' entered low high (inl front) =
        entered.before j (omega (arith, high, front))
    entry_byte p start j short b b' entered low high (inr back) =
        entered.behind j (omega (arith, low, back))
