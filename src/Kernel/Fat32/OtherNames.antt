-- ===== src/Kernel/Fat32/OtherNames.antt =====
-- The files of other names in the root directory, after `add_entry`.
use arona_os.Prelude.{
  ℕ, zero, suc, ◌+◌, ◌<◌, ◌≤◌, ◌≡◌, sym, ap, ◌∙◌, subst, inl, inr, Text, some, Result, ok, arith,
  nat_eq, Bool-cases, Result-cases, Option-cases,
}
use arona_os.Kernel.Fat32.{Words, Bytes, BlockDevice, IsLawful, words_to_bytes, bytes_to_words}
use arona_os.Kernel.Fat32.Directory.{write_entry, find_slot, find_name, add_entry}
use arona_os.Kernel.Fat32.Lookup.{look_up}
use arona_os.Kernel.Fat32.Slots.{IsUsable}
use arona_os.Kernel.Fat32.Added.{
  look_up-found, look_up-next, add_entry-found, add_entry-next, add_entry-failed,
}
use arona_os.Kernel.Fat32.Kept.{look_up-cong}
use arona_os.Kernel.Fat32.Others.{add_entry-kept}
use arona_os.Kernel.Fat32.Names.{Differ, IsEnded, find_name-Entered, find_name-find_slot_apart}
use arona_os.Kernel.Fat32.Ended.{IsEnded-Entered}
use arona_os.Kernel.Fat32.EnteredBytes.{entered_bytes, entered_bytes-Entered, entry_kept}

module _ {D : Type 0} (device : BlockDevice D) where
  -- The sectors of a directory that have no entry behind its end.
  abbrev pub AreEnded : ℕ → ℕ → D → Type 0
  AreEnded count sector d =
      (s : ℕ) (words : Words)
      → sector ≤ s
      → s < sector + count
      → device.read_sector s d ≡ ok words
      → IsEnded (words_to_bytes words)

module _ {D : Type 0} (device : BlockDevice D) (lawful : IsLawful device) where
  -- What `add_entry` leaves of the files of another name.
  written-others :
      (count sector first size start : ℕ) (short other : Bytes) (words : Words) (d d' : D)
      → IsUsable short
      → ((i : ℕ) → short i < 256)
      → Differ short other
      → IsEnded (words_to_bytes words)
      → device.read_sector sector d ≡ ok words
      → find_slot 16 0 (words_to_bytes words) ≡ some start
      → device.write_sector sector
          (bytes_to_words (write_entry short first size start (words_to_bytes words)))
          d
        ≡ (d', ok tt)
      → look_up device (suc count) sector other d' ≡ look_up device (suc count) sector other d
  unfolding entered_bytes
  written-others count sector first size start short other words d d' usable small differ ended read
        slot h =
      let old = words_to_bytes words in
      let entry = bytes_to_words (write_entry short first size start old) in
      let entered = entered_bytes-Entered short first size start words small in
      let names =
        find_name-Entered start short other old (words_to_bytes entry) usable differ ended entered
          16 0 (omega arith) slot in
      let read' = lawful.read-write sector entry d d' h in
      elim (Option-cases (find_name 16 0 other old)) [
        | inl absent ↦
            look_up-next device count sector other entry d' read' (names ∙ absent)
            ∙ (look_up-cong device count (sector + 1) other d d' (λ s low high.
                  lawful.read-write_other sector s entry d d' h (λ e. omega (arith, e, low)))
                ∙ sym (look_up-next device count sector other words d read absent))
        | inr (p, found) ↦
            let apart = find_name-find_slot_apart p start other old found slot in
            let (first', size') =
              entry_kept p start short old (words_to_bytes entry) entered apart in
            look_up-found device count sector p other entry d' read' (names ∙ found)
            ∙ (cc (first', size')
                ∙ sym (look_up-found device count sector p other words d read found))
      ]

  written-AreEnded :
      (count sector base first size start : ℕ) (short : Bytes) (words : Words) (d d' : D)
      → IsUsable short
      → ((i : ℕ) → short i < 256)
      → AreEnded device count base d
      → base ≤ sector
      → sector < base + count
      → device.read_sector sector d ≡ ok words
      → find_slot 16 0 (words_to_bytes words) ≡ some start
      → device.write_sector sector
          (bytes_to_words (write_entry short first size start (words_to_bytes words)))
          d
        ≡ (d', ok tt)
      → AreEnded device count base d'
  unfolding entered_bytes
  written-AreEnded count sector base first size start short words d d' usable small ended low high
        read slot h =
      let old = words_to_bytes words in
      let entry = bytes_to_words (write_entry short first size start old) in
      let entered = entered_bytes-Entered short first size start words small in
      let here : IsEnded (words_to_bytes entry) =
        IsEnded-Entered start short old (words_to_bytes entry) usable
          (ended sector words low high read) entered slot in
      λ s w a b reads. elim (Bool-cases (nat_eq s sector)) [
        | inl same ↦
            let e : s ≡ sector = ground (arith, same) in
            let read' = lawful.read-write sector entry d d' h in
            let held : entry ≡ w =
              ok-injective (sym read' ∙ (ap (λ x. device.read_sector x d') (sym e) ∙ reads)) in
            subst (λ x. IsEnded (words_to_bytes x)) held here
        | inr other ↦ ended s w a b (
            sym (lawful.read-write_other sector s entry d d' h (λ e. ground (arith, e, other)))
            ∙ reads)
      ]
    where
      ok-injective : {x y : Words} → ◌≡◌ {A = Result Words Text} (ok x) (ok y) → x ≡ y
      ok-injective e = cc

  pub add_entry-others :
      (count sector first size : ℕ) (short other : Bytes) (d d' : D)
      → IsUsable short
      → ((i : ℕ) → short i < 256)
      → Differ short other
      → AreEnded device count sector d
      → add_entry device count sector short first size d ≡ (d', ok tt)
      → look_up device count sector other d' ≡ look_up device count sector other d
  unfolding add_entry
  add_entry-others zero sector first size short other d d' usable small differ ended h =
      absurd (cc (ap (λ r. r.1) h))
  add_entry-others (suc count) sector first size short other d d' usable small differ ended h =
      elim (Result-cases (device.read_sector sector d)) [
        | inr (e, failed) ↦ absurd (
            cc (
              ap (λ r. r.1)
                (sym (add_entry-failed device count sector first size short e d failed) ∙ h)))
        | inl (words, read) ↦ elim (Option-cases (find_slot 16 0 (words_to_bytes words))) [
          | inr (start, slot) ↦
              written-others count sector first size start short other words d d' usable small
                differ (ended sector words (omega arith) (omega arith) read) read slot
                (sym (add_entry-found device count sector first size start short words d read slot)
                  ∙ h)
          | inl full ↦
              let h' =
                sym (add_entry-next device count sector first size short words d read full) ∙ h in
              let later =
                add_entry-others count (sector + 1) first size short other d d' usable small differ
                  (λ s w a b. ended s w (omega (arith, a)) (omega (arith, b))) h' in
              passed count sector other words d d' read
                (add_entry-kept device lawful count (sector + 1) first size sector short d d'
                  (inl (omega arith)) h')
                later
        ]
      ]
    where
      -- The first sector is as before, and the others answer as before.
      passed :
          (count sector : ℕ) (other : Bytes) (words : Words) (d d' : D)
          → device.read_sector sector d ≡ ok words
          → device.read_sector sector d' ≡ device.read_sector sector d
          → look_up device count (sector + 1) other d' ≡ look_up device count (sector + 1) other d
          → look_up device (suc count) sector other d' ≡ look_up device (suc count) sector other d
      passed count sector other words d d' read same later =
          elim (Option-cases (find_name 16 0 other (words_to_bytes words))) [
            | inl absent ↦
                look_up-next device count sector other words d' (same ∙ read) absent
                ∙ (later ∙ sym (look_up-next device count sector other words d read absent))
            | inr (p, found) ↦
                look_up-found device count sector p other words d' (same ∙ read) found
                ∙ sym (look_up-found device count sector p other words d read found)
          ]

  add_entry-within :
      (n count sector base first size : ℕ) (short : Bytes) (d d' : D)
      → IsUsable short
      → ((i : ℕ) → short i < 256)
      → base ≤ sector
      → sector + n ≤ base + count
      → AreEnded device count base d
      → add_entry device n sector short first size d ≡ (d', ok tt)
      → AreEnded device count base d'
  unfolding add_entry
  add_entry-within zero count sector base first size short d d' usable small low high ended h =
      absurd (cc (ap (λ r. r.1) h))
  add_entry-within (suc n) count sector base first size short d d' usable small low high ended h =
      elim (Result-cases (device.read_sector sector d)) [
        | inr (e, failed) ↦ absurd (
            cc (
              ap (λ r. r.1)
                (sym (add_entry-failed device n sector first size short e d failed) ∙ h)))
        | inl (words, read) ↦ elim (Option-cases (find_slot 16 0 (words_to_bytes words))) [
          | inr (start, slot) ↦
              written-AreEnded count sector base first size start short words d d' usable small
                ended low (omega (arith, high)) read slot
                (sym (add_entry-found device n sector first size start short words d read slot) ∙ h)
          | inl full ↦
              add_entry-within n count (sector + 1) base first size short d d' usable small
                (omega (arith, low)) (omega (arith, high)) ended
                (sym (add_entry-next device n sector first size short words d read full) ∙ h)
        ]
      ]

  pub add_entry-AreEnded :
      (count sector first size : ℕ) (short : Bytes) (d d' : D)
      → IsUsable short
      → ((i : ℕ) → short i < 256)
      → AreEnded device count sector d
      → add_entry device count sector short first size d ≡ (d', ok tt)
      → AreEnded device count sector d'
  add_entry-AreEnded count sector first size short d d' usable small ended h =
      add_entry-within count count sector sector first size short d d' usable small (omega arith)
        (omega arith) ended h
