-- ===== src/Kernel/Fat32/Entries.antt =====
-- What a write of an entry of the table changes.
use arona_os.Prelude.{
  ℕ, ◌+◌, ◌*◌, ◌/◌, ◌%◌, ◌^◌, ◌<◌, ◌≤◌, ◌≡◌, ◌≢◌, refl, sym, ap, ◌∙◌, ◌⊎◌, ok, u32, nat_eq,
  Bool-cases, arith, Result-cases, inl, inr,
}
use arona_os.Prelude.Actions.{◌>>=◌}
use arona_os.Kernel.Fat32.{
  Words, Bytes, BlockDevice, IsLawful, fat_start_sector, sectors_per_fat, bytes_to_words,
  words_to_bytes,
}
use arona_os.Kernel.Fat32.Table.{
  from_le_bytes, put_le_bytes, offset_in_sector, sector_in_fat, read_fat_entry, updated,
  sector_of_copy, write_copy, write_fat_entry,
}

-- Where all are below 256, bytes are the same after the way through words and back.
pub words_to_bytes-bytes_to_words :
    (b : Bytes) (j : ℕ) → ((i : ℕ) → b i < 256) → words_to_bytes (bytes_to_words b) j ≡ b j
unfolding words_to_bytes bytes_to_words
words_to_bytes-bytes_to_words b j small = elim (Bool-cases (nat_eq (j % 2) 0)) [
  | inl even ↦
      let e : j / 2 * 2 ≡ j = ground arith in rw even (omega (arith, small (j / 2 * 2), ap b e))
  | inr odd ↦
      let e : j / 2 * 2 + 1 ≡ j = ground arith in
      rw odd (omega (arith, small (j / 2 * 2), small (j / 2 * 2 + 1), ap b e))
]

pub words_to_bytes_small : (w : Words) (j : ℕ) → words_to_bytes w j < 256
unfolding words_to_bytes
words_to_bytes_small w j = ground arith

put_le_bytes_small :
    (v o : ℕ) (b : Bytes) → ((i : ℕ) → b i < 256) → (j : ℕ) → put_le_bytes v o b j < 256
unfolding put_le_bytes
put_le_bytes_small v o b small j = ground (arith, small j)

-- What was put is read, and bytes elsewhere stay.
from_le_bytes-put_le_bytes :
    (v o : ℕ) (b : Bytes) → v < 2 ^ 32 → from_le_bytes (put_le_bytes v o b) o ≡ v
unfolding from_le_bytes put_le_bytes
from_le_bytes-put_le_bytes v o b h = ground arith

put_le_bytes_other : (v o j : ℕ) (b : Bytes) → (j < o) ⊎ (o + 4 ≤ j) → put_le_bytes v o b j ≡ b j
unfolding put_le_bytes
put_le_bytes_other v o j b h = ground (arith, h)

-- The entry that the words of its sector hold.
abbrev pub entry_of : Words → ℕ → ℕ
entry_of words c = from_le_bytes (words_to_bytes words) (offset_in_sector c) % 2 ^ 28

from_le_bytes_small : (b : Bytes) (o : ℕ) → ((i : ℕ) → b i < 256) → from_le_bytes b o < 2 ^ 32
unfolding from_le_bytes
from_le_bytes_small b o small = omega (arith, small o, small (o + 1), small (o + 2), small (o + 3))

from_le_bytes-cong :
    (a b : Bytes) (o : ℕ)
    → a o ≡ b o
    → a (o + 1) ≡ b (o + 1)
    → a (o + 2) ≡ b (o + 2)
    → a (o + 3) ≡ b (o + 3)
    → from_le_bytes a o ≡ from_le_bytes b o
unfolding from_le_bytes
from_le_bytes-cong a b o p q r s = omega (arith, p, q, r, s)

-- The bytes that the updated sector is read as.
updated_bytes :
    (c v : ℕ) (w : Words) (j : ℕ)
    → words_to_bytes (updated c v w) j
      ≡ put_le_bytes
          (from_le_bytes (words_to_bytes w) (offset_in_sector c) / 2 ^ 28 * 2 ^ 28 + v % 2 ^ 28)
          (offset_in_sector c)
          (words_to_bytes w)
          j
unfolding updated
updated_bytes c v w j =
    words_to_bytes-bytes_to_words _ j (put_le_bytes_small _ _ _ (words_to_bytes_small w))

entry_of-updated : (c v : ℕ) (w : Words) → entry_of (updated c v w) c ≡ v % 2 ^ 28
entry_of-updated c v w =
    let o = offset_in_sector c in
    let old = from_le_bytes (words_to_bytes w) o in
    let new = old / 2 ^ 28 * 2 ^ 28 + v % 2 ^ 28 in
    let small = from_le_bytes_small (words_to_bytes w) o (words_to_bytes_small w) in
    let read =
      from_le_bytes-cong (words_to_bytes (updated c v w)) (put_le_bytes new o (words_to_bytes w)) o
        (updated_bytes c v w o) (updated_bytes c v w (o + 1)) (updated_bytes c v w (o + 2))
        (updated_bytes c v w (o + 3)) in
    let put = from_le_bytes-put_le_bytes new o (words_to_bytes w) (omega (arith, small)) in
    omega (arith, read, put)

updated_bytes_other :
    (c v j : ℕ) (w : Words)
    → (j < offset_in_sector c) ⊎ (offset_in_sector c + 4 ≤ j)
    → words_to_bytes (updated c v w) j ≡ words_to_bytes w j
updated_bytes_other c v j w away = updated_bytes c v w j ∙ put_le_bytes_other _ _ j _ away

apart :
    (c e i : ℕ)
    → c ≢ e
    → sector_in_fat c ≡ sector_in_fat e
    → i < 4
    → (offset_in_sector e + i < offset_in_sector c)
      ⊎ (offset_in_sector c + 4 ≤ offset_in_sector e + i)
apart c e i ne same h = ground arith

entry_of-updated_other :
    (c e v : ℕ) (w : Words)
    → c ≢ e
    → sector_in_fat c ≡ sector_in_fat e
    → entry_of (updated c v w) e ≡ entry_of w e
entry_of-updated_other c e v w ne same =
    let o = offset_in_sector e in
    let at : (i : ℕ) → i < 4 → words_to_bytes (updated c v w) (o + i) ≡ words_to_bytes w (o + i) =
      λ i h. updated_bytes_other c v (o + i) w (apart c e i ne same h) in
    ap (λ x. x % 2 ^ 28)
      (from_le_bytes-cong (words_to_bytes (updated c v w)) (words_to_bytes w) o
        (updated_bytes_other c v o w (ground arith)) (at 1 (omega arith)) (at 2 (omega arith))
        (at 3 (omega arith)))

module _ {D : Type 0} (device : BlockDevice D) (lawful : IsLawful device) where
  write_copy-eq-ok :
      (k c v : ℕ) (d d' : D)
      → write_copy device k c v d ≡ (d', ok tt)
      → (w : Words) × (device.read_sector (sector_of_copy k c) d ≡ ok w)
        × (device.write_sector (sector_of_copy k c) (updated c v w) d ≡ (d', ok tt))
  unfolding write_copy
  write_copy-eq-ok k c v d d' h = elim (Result-cases (device.read_sector (sector_of_copy k c) d)) [
    | inl (w, read) ↦ (w, read, (rw (read, write_copy) refl) ∙ h)
    | inr (e, failed) ↦ absurd (ground (arith, failed, h))
  ]

  -- What the two passes of a write that succeeds do.
  pub write_fat_entry-eq-ok :
      (c v : ℕ) (d d' : D)
      → write_fat_entry device c v d ≡ (d', ok tt)
      → (d₁ : D) × (write_copy device 0 c v d ≡ (d₁, ok tt))
        × (write_copy device 1 c v d₁ ≡ (d', ok tt))
  unfolding write_fat_entry ◌>>=◌
  write_fat_entry-eq-ok c v d d' h = elim (Result-cases (write_copy device 0 c v d).1) [
    | inl (u, first) ↦ (
      (write_copy device 0 c v d).0,
      ap (λ r. ((write_copy device 0 c v d).0, r)) first,
      (rw (first, write_fat_entry, ◌>>=◌) refl) ∙ h,
    )
    | inr (e, failed) ↦ absurd (ground (arith, failed, h))
  ]

  -- After a pass on copy `k`, the sector of entry `e` there has the words that a function of the
  -- words of before gives.
  read_sector-write_copy :
      (k c v : ℕ) (d d' : D)
      → write_copy device k c v d ≡ (d', ok tt)
      → (w : Words) × (device.read_sector (sector_of_copy k c) d ≡ ok w)
        × (device.read_sector (sector_of_copy k c) d' ≡ ok (updated c v w))
  read_sector-write_copy k c v d d' h =
      let (w, read, written) = write_copy-eq-ok k c v d d' h in
      (w, read, lawful.read-write (sector_of_copy k c) (updated c v w) d d' written)

  pub read_sector-write_copy_other :
      (k c v s : ℕ) (d d' : D)
      → write_copy device k c v d ≡ (d', ok tt)
      → sector_of_copy k c ≢ s
      → device.read_sector s d' ≡ device.read_sector s d
  read_sector-write_copy_other k c v s d d' h ne =
      let (w, read, written) = write_copy-eq-ok k c v d d' h in
      lawful.read-write_other (sector_of_copy k c) s (updated c v w) d d' written ne

  -- An entry is read from the sector of the first copy.
  pub read_fat_entry-ok :
      (c : ℕ) (w : Words) (d : D)
      → device.read_sector (sector_of_copy 0 c) d ≡ ok w
      → read_fat_entry device c d ≡ ok (entry_of w c)
  unfolding read_fat_entry
  read_fat_entry-ok c w d h =
      let there : device.read_sector (u32 (fat_start_sector + sector_in_fat c)) d ≡ ok w =
        ap (λ s. device.read_sector (u32 s) d) (omega arith) ∙ h in
      rw (there, read_fat_entry) refl

  pub read_fat_entry-cong :
      (c : ℕ) (d d' : D)
      → device.read_sector (sector_of_copy 0 c) d ≡ device.read_sector (sector_of_copy 0 c) d'
      → read_fat_entry device c d ≡ read_fat_entry device c d'
  unfolding read_fat_entry
  read_fat_entry-cong c d d' h =
      let e : u32 (fat_start_sector + sector_in_fat c) ≡ sector_of_copy 0 c =
        ap u32 (omega arith) in
      rw (e, read_fat_entry) (rw h refl)

  -- After a write of an entry of the table (below 131072) that succeeds on a lawful device, that entry
  -- reads as the lower 28 bits of the value.
  pub read_fat_entry-write_fat_entry :
      (c v : ℕ) (d d' : D)
      → c < 131072
      → write_fat_entry device c v d ≡ (d', ok tt)
      → read_fat_entry device c d' ≡ ok (v % 2 ^ 28)
  read_fat_entry-write_fat_entry c v d d' h e =
      let (d₁, first, second) = write_fat_entry-eq-ok c v d d' e in
      let (w, _, now) = read_sector-write_copy 0 c v d d₁ first in
      let later =
        read_sector-write_copy_other 1 c v (sector_of_copy 0 c) d₁ d' second (ground arith) in
      read_fat_entry-ok c (updated c v w) d' (later ∙ now) ∙ ap ok (entry_of-updated c v w)

  -- After a write of an entry of the table that succeeds on a lawful device, every other entry (both
  -- below 131072) reads as before.
  pub read_fat_entry-write_fat_entry_other :
      (c e v : ℕ) (d d' : D)
      → c < 131072
      → e < 131072
      → c ≢ e
      → write_fat_entry device c v d ≡ (d', ok tt)
      → read_fat_entry device e d' ≡ read_fat_entry device e d
  read_fat_entry-write_fat_entry_other c e v d d' hc he ne h =
      let (d₁, first, second) = write_fat_entry-eq-ok c v d d' h in
      let later =
        read_sector-write_copy_other 1 c v (sector_of_copy 0 e) d₁ d' second (ground arith) in
      read_fat_entry-cong e d' d₁ later
      ∙ elim (Bool-cases (nat_eq (sector_in_fat c) (sector_in_fat e))) [
        | inl equal ↦
            let same : sector_in_fat c ≡ sector_in_fat e = ground arith in
            let (w, before, now) = read_sector-write_copy 0 c v d d₁ first in
            let at : sector_of_copy 0 c ≡ sector_of_copy 0 e =
              ap (λ s. u32 (fat_start_sector + 0 * sectors_per_fat + s)) same in
            read_fat_entry-ok e (updated c v w) d₁
              (ap (λ s. device.read_sector s d₁) (sym at) ∙ now)
            ∙ (ap ok (entry_of-updated_other c e v w ne same)
                ∙ sym
                    (read_fat_entry-ok e w d (ap (λ s. device.read_sector s d) (sym at) ∙ before)))
        | inr away ↦
            read_fat_entry-cong e d₁ d
              (read_sector-write_copy_other 0 c v (sector_of_copy 0 e) d d₁ first (ground arith))
      ]
