-- ===== src/Kernel/Fat32/Added.antt =====
-- The root directory after `add_entry`.
use arona_os.Prelude.{
  ℕ, zero, suc, ◌+◌, ◌^◌, ◌<◌, ◌≤◌, ◌≡◌, refl, sym, ap, ◌∙◌, ◌⊎◌, inl, inr, Text, none, some, ok,
  err, arith, Result-cases, Option-cases, ◌>>=◌,
}
use arona_os.Kernel.Fat32.{Words, Bytes, BlockDevice, IsLawful, words_to_bytes, bytes_to_words}
use arona_os.Kernel.Fat32.Entries.{words_to_bytes-bytes_to_words, words_to_bytes_small}
use arona_os.Kernel.Fat32.Directory.{
  write_entry, find_slot, find_name, first_cluster_of, file_size_of, add_entry,
}
use arona_os.Kernel.Fat32.Lookup.{look_up}
use arona_os.Kernel.Fat32.Slots.{
  IsUsable, write_entry_small, write_entry-name, write_entry_before, first_cluster_of-write_entry,
  file_size_of-write_entry,
}
use arona_os.Kernel.Fat32.Found.{find_name-find_slot}

module _ {D : Type 0} (device : BlockDevice D) where
  pub look_up-found :
      (count sector start : ℕ) (short : Bytes) (words : Words) (d : D)
      → device.read_sector sector d ≡ ok words
      → find_name 16 0 short (words_to_bytes words) ≡ some start
      → look_up device (suc count) sector short d
        ≡ ok (
            some (
              first_cluster_of start (words_to_bytes words),
              file_size_of start (words_to_bytes words),
            ))
  unfolding look_up
  look_up-found count sector start short words d read found =
      rw (read, look_up) (rw (found, ◌>>=◌) refl)

  pub look_up-next :
      (count sector : ℕ) (short : Bytes) (words : Words) (d : D)
      → device.read_sector sector d ≡ ok words
      → find_name 16 0 short (words_to_bytes words) ≡ none
      → look_up device (suc count) sector short d ≡ look_up device count (sector + 1) short d
  unfolding look_up
  look_up-next count sector short words d read absent = rw (read, look_up) (rw (absent, ◌>>=◌) refl)

  pub add_entry-found :
      (count sector first size start : ℕ) (short : Bytes) (words : Words) (d : D)
      → device.read_sector sector d ≡ ok words
      → find_slot 16 0 (words_to_bytes words) ≡ some start
      → add_entry device (suc count) sector short first size d
        ≡ device.write_sector sector
            (bytes_to_words (write_entry short first size start (words_to_bytes words)))
            d
  unfolding add_entry
  add_entry-found count sector first size start short words d read slot =
      rw (read, add_entry) (rw slot refl)

  pub add_entry-next :
      (count sector first size : ℕ) (short : Bytes) (words : Words) (d : D)
      → device.read_sector sector d ≡ ok words
      → find_slot 16 0 (words_to_bytes words) ≡ none
      → add_entry device (suc count) sector short first size d
        ≡ add_entry device count (sector + 1) short first size d
  unfolding add_entry
  add_entry-next count sector first size short words d read full =
      rw (read, add_entry) (rw full refl)

  pub add_entry-failed :
      (count sector first size : ℕ) (short : Bytes) (e : Text) (d : D)
      → device.read_sector sector d ≡ err e
      → add_entry device (suc count) sector short first size d ≡ (d, err e)
  unfolding add_entry
  add_entry-failed count sector first size short e d failed = rw (failed, add_entry) refl

module _ {D : Type 0} (device : BlockDevice D) (lawful : IsLawful device) where
  -- What a successful `add_entry` leaves on the disk.
  pub record Added (count sector first size : ℕ) (short : Bytes) (d d' : D) : Type 0 where
    pub found : look_up device count sector short d' ≡ ok (some (first, size))
    pub kept :
        (s : ℕ)
        → (s < sector) ⊎ (sector + count ≤ s)
        → device.read_sector s d' ≡ device.read_sector s d

  -- The entry is written into the sector that was read.
  written-Added :
      (count sector first size start : ℕ) (short : Bytes) (words : Words) (d d' : D)
      → IsUsable short
      → ((i : ℕ) → short i < 256)
      → first < 2 ^ 32
      → size < 2 ^ 32
      → find_name 16 0 short (words_to_bytes words) ≡ none
      → find_slot 16 0 (words_to_bytes words) ≡ some start
      → device.write_sector sector
          (bytes_to_words (write_entry short first size start (words_to_bytes words)))
          d
        ≡ (d', ok tt)
      → Added (suc count) sector first size short d d'
  written-Added count sector first size start short words d d' usable small hf hs absent slot h =
      let old = words_to_bytes words in
      let entry = write_entry short first size start old in
      let now : Bytes = words_to_bytes (bytes_to_words entry) in
      let same : now ≡ entry = λ i j.
        words_to_bytes-bytes_to_words entry j
          (write_entry_small short first size start old small (words_to_bytes_small words)) i in
      let there : find_name 16 0 short entry ≡ some start =
        find_name-find_slot 16 0 start short old entry usable slot absent
          (write_entry_before short first size start old)
          (write_entry-name short first size start old) in
      let at : find_name 16 0 short now ≡ some start = ap (find_name 16 0 short) same ∙ there in
      let first' : first_cluster_of start now ≡ first =
        ap (first_cluster_of start) same
        ∙ first_cluster_of-write_entry short first size start old hf in
      let size' : file_size_of start now ≡ size =
        ap (file_size_of start) same ∙ file_size_of-write_entry short first size start old hs in
      let read = lawful.read-write sector (bytes_to_words entry) d d' h in
      record {
        found =
            look_up-found device count sector start short (bytes_to_words entry) d' read at
            ∙ cc (first', size');
        kept = λ s away.
            lawful.read-write_other sector s (bytes_to_words entry) d d' h
              (λ e. ground (arith, e, away));
      }

  pub add_entry-Added :
      (count sector first size : ℕ) (short : Bytes) (d d' : D)
      → IsUsable short
      → ((i : ℕ) → short i < 256)
      → first < 2 ^ 32
      → size < 2 ^ 32
      → look_up device count sector short d ≡ ok none
      → add_entry device count sector short first size d ≡ (d', ok tt)
      → Added count sector first size short d d'
  unfolding add_entry
  add_entry-Added zero sector first size short d d' usable small hf hs absent h =
      absurd (cc (ap (λ r. r.1) h))
  add_entry-Added (suc count) sector first size short d d' usable small hf hs absent h =
      elim (Result-cases (device.read_sector sector d)) [
        | inr (e, failed) ↦ absurd (
            cc (
              ap (λ r. r.1)
                (sym (add_entry-failed device count sector first size short e d failed) ∙ h)))
        | inl (words, read) ↦
            let b = words_to_bytes words in
            elim (Option-cases (find_name 16 0 short b)) [
              | inr (start, there) ↦ absurd (
                  cc (
                    sym (look_up-found device count sector start short words d read there)
                    ∙ absent))
              | inl nowhere ↦ elim (Option-cases (find_slot 16 0 b)) [
                | inr (start, slot) ↦
                    written-Added count sector first size start short words d d' usable small hf hs
                      nowhere slot
                      (sym (
                          add_entry-found device count sector first size start short words d read
                            slot)
                        ∙ h)
                | inl full ↦
                    let r =
                      add_entry-Added count (sector + 1) first size short d d' usable small hf hs
                        (sym (look_up-next device count sector short words d read nowhere) ∙ absent)
                        (sym (add_entry-next device count sector first size short words d read full)
                          ∙ h) in
                    record {
                      found =
                          look_up-next device count sector short words d'
                            (r.kept sector (inl (omega arith)) ∙ read) nowhere
                          ∙ r.found;
                      kept = λ s away. r.kept s (ground (arith, away));
                    }
              ]
            ]
      ]
