-- ===== src/Kernel/Fat32/RootSpace.antt =====
-- How many entries of the root directory are free, and `add_entry` on a device that never fails.
use arona_os.Prelude.{
  ℕ, zero, suc, ◌+◌, ◌*◌, ◌<◌, ◌≤◌, ◌≡◌, refl, sym, ap, ◌∙◌, inl, inr, Text, none, some, Result, ok,
  err, arith, Bool-cases, Option-cases, Result-cases, if◌then◌else◌,
}
use arona_os.Kernel.Fat32.{Words, Bytes, BlockDevice, IsLawful, words_to_bytes, bytes_to_words}
use arona_os.Kernel.Fat32.Directory.{is_free_entry, write_entry, find_slot, add_entry}
use arona_os.Kernel.Fat32.Slots.{IsUsable}
use arona_os.Kernel.Fat32.Found.{
  some-none, some-injective, find_slot-free, find_slot-taken, find_slot_place,
}
use arona_os.Kernel.Fat32.Added.{add_entry-found, add_entry-next, add_entry-failed}
use arona_os.Kernel.Fat32.Others.{add_entry-kept}
use arona_os.Kernel.Fat32.Names.{Entered}
use arona_os.Kernel.Fat32.EnteredBytes.{entered_bytes, entered_bytes-Entered}
use arona_os.Kernel.Fat32.Space.{IsReliable}

abbrev pub slot_number : ℕ → ℕ
slot_number first_byte = if is_free_entry first_byte then 1 else 0

-- The free ones among `count` entries of a sector.
unfoldable pub count_slots : ℕ → ℕ → Bytes → ℕ
count_slots zero e b = 0
count_slots (suc count) e b = slot_number (b (e * 32)) + count_slots count (e + 1) b

count_slots-none : (n e : ℕ) (b : Bytes) → find_slot n e b ≡ none → count_slots n e b ≡ 0
unfolding count_slots
count_slots-none zero e b h = refl
count_slots-none (suc n) e b h = elim (Bool-cases (is_free_entry (b (e * 32)))) [
  | inl free ↦ absurd (some-none (sym (find_slot-free n e b free) ∙ h))
  | inr taken ↦
      let rest = count_slots-none n (e + 1) b (sym (find_slot-taken n e b taken) ∙ h) in
      rw taken (omega (arith, rest))
]

count_slots-some :
    (n e start : ℕ) (b : Bytes) → find_slot n e b ≡ some start → 0 < count_slots n e b
unfolding count_slots find_slot
count_slots-some zero e start b h = absurd (some-none (sym h))
count_slots-some (suc n) e start b h = elim (Bool-cases (is_free_entry (b (e * 32)))) [
  | inl free ↦ rw free (omega arith)
  | inr taken ↦
      let rest = count_slots-some n (e + 1) start b (sym (find_slot-taken n e b taken) ∙ h) in
      rw taken (omega (arith, rest))
]

count_slots-same :
    (n e : ℕ) (b b' : Bytes)
    → ((f : ℕ) → e ≤ f → b' (f * 32) ≡ b (f * 32))
    → count_slots n e b' ≡ count_slots n e b
unfolding count_slots
count_slots-same zero e b b' same = refl
count_slots-same (suc n) e b b' same =
    let rest = count_slots-same n (e + 1) b b' (λ f h. same f (omega (arith, h))) in
    rw (same e (omega arith), rest) refl

-- The entry is taken.
count_slots-Entered :
    (n e start : ℕ) (short b b' : Bytes)
    → IsUsable short
    → Entered start short b b'
    → find_slot n e b ≡ some start
    → count_slots n e b' + 1 ≡ count_slots n e b
unfolding count_slots find_slot
count_slots-Entered zero e start short b b' usable entered slot = absurd (some-none (sym slot))
count_slots-Entered (suc n) e start short b b' usable entered slot =
    elim (Bool-cases (is_free_entry (b (e * 32)))) [
      | inl free ↦
          let at : e * 32 ≡ start = some-injective (sym (find_slot-free n e b free) ∙ slot) in
          let place : e * 32 ≡ start + 0 = omega (arith, at) in
          let first : b' (e * 32) ≡ short 0 = ap b' place ∙ entered.name 0 (omega arith) in
          let now : slot_number (b' (e * 32)) ≡ 0 = ground (arith, first, usable.0, usable.1) in
          let was : slot_number (b (e * 32)) ≡ 1 = rw free refl in
          let rest =
            count_slots-same n (e + 1) b b'
              (λ f h. entered.behind (f * 32) (omega (arith, h, at))) in
          omega (arith, now, was, rest)
      | inr taken ↦
          let slot' = sym (find_slot-taken n e b taken) ∙ slot in
          let far = find_slot_place n (e + 1) start b slot' in
          let same : slot_number (b' (e * 32)) ≡ slot_number (b (e * 32)) =
            ap slot_number (entered.before (e * 32) (omega (arith, far))) in
          let rest = count_slots-Entered n (e + 1) start short b b' usable entered slot' in
          omega (arith, same, rest)
    ]

abbrev pub slots_of : Result Words Text → ℕ
slots_of (err e) = 0
slots_of (ok words) = count_slots 16 0 (words_to_bytes words)

module _ {D : Type 0} (device : BlockDevice D) where
  -- The free entries of `count` sectors.
  unfoldable pub count_entries : ℕ → ℕ → D → ℕ
  count_entries zero sector d = 0
  count_entries (suc count) sector d =
      slots_of (device.read_sector sector d) + count_entries count (sector + 1) d

  pub count_entries-cong :
      (count sector : ℕ) (d d' : D)
      → ((s : ℕ)
          → sector ≤ s
          → s < sector + count
          → device.read_sector s d' ≡ device.read_sector s d)
      → count_entries count sector d' ≡ count_entries count sector d
  unfolding count_entries
  count_entries-cong zero sector d d' same = refl
  count_entries-cong (suc count) sector d d' same = omega (
    arith,
    ap slots_of (same sector (omega arith) (omega arith)),
    count_entries-cong count (sector + 1) d d'
        (λ s a b. same s (omega (arith, a)) (omega (arith, b))),
  )

  -- A successful `add_entry` had a free entry.
  pub add_entry-room :
      (count sector first size : ℕ) (short : Bytes) (d d' : D)
      → add_entry device count sector short first size d ≡ (d', ok tt)
      → 0 < count_entries count sector d
  unfolding count_entries add_entry
  add_entry-room zero sector first size short d d' h = absurd (cc (ap (λ r. r.1) h))
  add_entry-room (suc count) sector first size short d d' h =
      elim (Result-cases (device.read_sector sector d)) [
        | inr (e, failed) ↦ absurd (
            cc (
              ap (λ r. r.1)
                (sym (add_entry-failed device count sector first size short e d failed) ∙ h)))
        | inl (words, read) ↦ elim (Option-cases (find_slot 16 0 (words_to_bytes words))) [
          | inr (start, slot) ↦
              omega
                (arith, ap slots_of read, count_slots-some 16 0 start (words_to_bytes words) slot)
          | inl full ↦ omega (
            arith,
            add_entry-room count (sector + 1) first size short d d'
                (sym (add_entry-next device count sector first size short words d read full) ∙ h),
          )
        ]
      ]

module _ {D : Type 0} (device : BlockDevice D) (lawful : IsLawful device)
    (reliable : IsReliable device) where
  -- An entry is added where one is free, and it takes one.
  pub add_entry_total :
      (count sector first size : ℕ) (short : Bytes) (d : D)
      → IsUsable short
      → ((i : ℕ) → short i < 256)
      → 0 < count_entries device count sector d
      → (d' : D) × (add_entry device count sector short first size d ≡ (d', ok tt))
        × (count_entries device count sector d' + 1 ≡ count_entries device count sector d)
  unfolding count_entries entered_bytes
  add_entry_total zero sector first size short d usable small room = absurd (omega (arith, room))
  add_entry_total (suc count) sector first size short d usable small room =
      let (words, read) = reliable.reads sector d in
      elim (Option-cases (find_slot 16 0 (words_to_bytes words))) [
        | inr (start, slot) ↦
            let entry =
              bytes_to_words (write_entry short first size start (words_to_bytes words)) in
            let (d', written) = reliable.writes sector entry d in
            let now = lawful.read-write sector entry d d' written in
            let less =
              count_slots-Entered 16 0 start short (words_to_bytes words)
                (entered_bytes short first size start words) usable
                (entered_bytes-Entered short first size start words small) slot in
            let rest = count_entries-cong device count (sector + 1) d d' (λ s a b.
              lawful.read-write_other sector s entry d d' written (λ e. omega (arith, e, a))) in
            (
              d',
              add_entry-found device count sector first size start short words d read slot
                  ∙ written,
              omega (arith, ap slots_of now, ap slots_of read, less, rest),
            )
        | inl full ↦
            let here = ap slots_of read ∙ count_slots-none 16 0 (words_to_bytes words) full in
            let (d', added, less) =
              add_entry_total count (sector + 1) first size short d usable small
                (omega (arith, room, here)) in
            let same =
              add_entry-kept device lawful count (sector + 1) first size sector short d d'
                (inl (omega arith)) added in
            (
              d',
              add_entry-next device count sector first size short words d read full ∙ added,
              omega (arith, ap slots_of same, less),
            )
      ]
