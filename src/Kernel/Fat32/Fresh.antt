-- ===== src/Kernel/Fat32/Fresh.antt =====
-- The disk after `format`.
use native.Mathlib.Nat.{mod-eq_of_lt}
use arona_os.Prelude.{
  ℕ, zero, suc, ◌+◌, ◌*◌, ◌^◌, ◌<◌, ◌≤◌, ◌≡◌, refl, sym, ap, ◌∙◌, subst, ◌⊎◌, inl, inr, Text, u32,
  Result, ok, none, arith, nat_eq, ltb, true, Bool-cases,
}
use arona_os.Prelude.Actions.{Action, bind-eq-ok, ◌>>=◌}
use arona_os.Kernel.Fat32.{
  Words, Bytes, BlockDevice, IsLawful, bytes_to_words, words_to_bytes, cluster_to_sector,
  root_cluster,
}
use arona_os.Kernel.Fat32.Table.{
  put_le_bytes, from_le_bytes, read_fat_entry, sector_of_copy, offset_in_sector,
}
use arona_os.Kernel.Fat32.Entries.{words_to_bytes-bytes_to_words, entry_of, read_fat_entry-ok}
use arona_os.Kernel.Fat32.Free.{fat_free, fat_eoc}
use arona_os.Kernel.Fat32.Stored.{cluster_to_sector-eq}
use arona_os.Kernel.Fat32.Directory.{find_name, to_short_name}
use arona_os.Kernel.Fat32.Lookup.{look_up, find_file}
use arona_os.Kernel.Fat32.Added.{look_up-next}
use arona_os.Kernel.Fat32.OtherNames.{AreEnded}
use arona_os.Kernel.Fat32.Format.{
  zero_sector, first_sector, write_boot_sector, write_fsinfo_sector, clear_sectors, init_fat_tables,
  init_root_directory, format,
}

pub zero_byte : (j : ℕ) → words_to_bytes zero_sector j ≡ 0
unfolding words_to_bytes
zero_byte j = ground arith

first_sector_small : (j : ℕ) → first_sector j < 256
unfolding first_sector put_le_bytes
first_sector_small j = ground arith

first_sector_free : (j : ℕ) → 12 ≤ j → first_sector j ≡ 0
unfolding first_sector put_le_bytes
first_sector_free j h = ground (arith, h)

first_sector_byte : (j : ℕ) → words_to_bytes (bytes_to_words first_sector) j ≡ first_sector j
first_sector_byte j = words_to_bytes-bytes_to_words first_sector j first_sector_small

-- Four bytes that are 0 read as 0.
entry_of_zero :
    (w : Words) (c : ℕ)
    → ((j : ℕ) → offset_in_sector c ≤ j → words_to_bytes w j ≡ 0)
    → entry_of w c ≡ 0
unfolding from_le_bytes
entry_of_zero w c h =
    let o = offset_in_sector c in
    omega (
      arith,
      h o (omega arith),
      h (o + 1) (omega arith),
      h (o + 2) (omega arith),
      h (o + 3) (omega arith),
    )

root_mark : entry_of (bytes_to_words first_sector) 2 ≡ fat_eoc
unfolding from_le_bytes first_sector put_le_bytes
root_mark =
    omega
      (arith, first_sector_byte 8, first_sector_byte 9, first_sector_byte 10, first_sector_byte 11)

find_name-zero_sector :
    (n e : ℕ) (short : Bytes) → find_name n e short (words_to_bytes zero_sector) ≡ none
unfolding find_name
find_name-zero_sector zero e short = refl
find_name-zero_sector (suc n) e short = rw (zero_byte (e * 32), find_name) refl

module _ {D : Type 0} (device : BlockDevice D) (lawful : IsLawful device) where
  record Cleared (count sector : ℕ) (d d' : D) : Type 0 where
    cleared : (s : ℕ) → sector ≤ s → s < sector + count → device.read_sector s d' ≡ ok zero_sector
    kept :
        (s : ℕ)
        → (s < sector) ⊎ (sector + count ≤ s)
        → device.read_sector s d' ≡ device.read_sector s d

  clear_sectors-Cleared :
      (count sector : ℕ) (d d' : D)
      → sector + count < 2 ^ 32
      → clear_sectors device count sector d ≡ (d', ok tt)
      → Cleared count sector d d'
  unfolding clear_sectors ◌>>=◌
  clear_sectors-Cleared zero sector d d' fits h = record {
    cleared = λ s a b. absurd (omega (arith, a, b));
    kept = λ s _. ap (λ x. device.read_sector s x) (sym (ap (λ r. r.0) h));
  }
  clear_sectors-Cleared (suc count) sector d d' fits h =
      let (d₁, u, first, rest) =
        bind-eq-ok (device.write_sector (u32 sector) zero_sector)
          (λ _. clear_sectors device count (sector + 1)) d d' tt h in
      let same : u32 sector ≡ sector = mod-eq_of_lt (omega (arith, fits)) in
      let written : device.write_sector sector zero_sector d ≡ (d₁, ok tt) =
        subst (λ s. device.write_sector s zero_sector d ≡ (d₁, ok tt)) same first in
      let r = clear_sectors-Cleared count (sector + 1) d₁ d' (omega (arith, fits)) rest in
      let here =
        r.kept sector (inl (omega arith)) ∙ lawful.read-write sector zero_sector d d₁ written in
      record {
        cleared = λ s a b. elim (Bool-cases (nat_eq s sector)) [
          | inl now ↦
              let e : sector ≡ s = ground (arith, now) in
              subst (λ s. device.read_sector s d' ≡ ok zero_sector) e here
          | inr later ↦ r.cleared s (ground (arith, later, a)) (omega (arith, b))
        ];
        kept = λ s away.
            r.kept s (ground (arith, away))
            ∙ lawful.read-write_other sector s zero_sector d d₁ written
                (λ e. ground (arith, e, away));
      }

  -- What the sectors of the first copy of the table and of the root directory hold.
  record Fresh (d : D) : Type 0 where
    start : device.read_sector 32 d ≡ ok (bytes_to_words first_sector)
    table : (s : ℕ) → 33 ≤ s → s < 1056 → device.read_sector s d ≡ ok zero_sector
    root : (s : ℕ) → 2080 ≤ s → s < 2088 → device.read_sector s d ≡ ok zero_sector

  init_fat_tables-table :
      (d d' : D)
      → init_fat_tables device d ≡ (d', ok tt)
      → (device.read_sector 32 d' ≡ ok (bytes_to_words first_sector))
        × ((s : ℕ) → 33 ≤ s → s < 1056 → device.read_sector s d' ≡ ok zero_sector)
  unfolding init_fat_tables ◌>>=◌
  init_fat_tables-table d d' h =
      let w = bytes_to_words first_sector in
      let start : ℕ → Action D Text (Unit {0}) = λ s. device.write_sector s w in
      let (d₁, _, first, h₁) =
        bind-eq-ok (clear_sectors device 1024 32)
          (λ _. clear_sectors device 1024 1056 >>= λ _. start 32 >>= λ _. start 1056) d d' tt h in
      let (d₂, _, second, h₂) =
        bind-eq-ok (clear_sectors device 1024 1056) (λ _. start 32 >>= λ _. start 1056) d₁ d' tt
          h₁ in
      let (d₃, _, third, h₃) = bind-eq-ok (start 32) (λ _. start 1056) d₂ d' tt h₂ in
      let a = clear_sectors-Cleared 1024 32 d d₁ (omega arith) first in
      let b = clear_sectors-Cleared 1024 1056 d₁ d₂ (omega arith) second in
      (
        lawful.read-write_other 1056 32 w d₃ d' h₃ (λ e. omega (arith, e))
            ∙ lawful.read-write 32 w d₂ d₃ third,
        λ s low high.
            lawful.read-write_other 1056 s w d₃ d' h₃ (λ e. omega (arith, e, high))
            ∙ (lawful.read-write_other 32 s w d₂ d₃ third (λ e. omega (arith, e, low))
                ∙ (b.kept s (inl high) ∙ a.cleared s (omega (arith, low)) (omega (arith, high)))),
      )

  format-Fresh : (volume_id : ℕ) (d d' : D) → format device volume_id d ≡ (d', ok tt) → Fresh d'
  unfolding format init_root_directory ◌>>=◌
  format-Fresh volume_id d d' h =
      let root = clear_sectors device 8 (cluster_to_sector 2) in
      let (d₁, _, boot, h₁) =
        bind-eq-ok (write_boot_sector device volume_id)
          (λ _. write_fsinfo_sector device >>= λ _. init_fat_tables device >>= λ _. root) d d' tt
          h in
      let (d₂, _, info, h₂) =
        bind-eq-ok (write_fsinfo_sector device) (λ _. init_fat_tables device >>= λ _. root) d₁ d' tt
          h₁ in
      let (d₃, _, tables, h₃) = bind-eq-ok (init_fat_tables device) (λ _. root) d₂ d' tt h₂ in
      let (start, table) = init_fat_tables-table d₂ d₃ tables in
      let at = cluster_to_sector-eq 2 (omega arith) (omega arith) in
      let r =
        clear_sectors-Cleared 8 2080 d₃ d' (omega arith)
          (subst (λ s. clear_sectors device 8 s d₃ ≡ (d', ok tt)) at h₃) in
      record {
        start = r.kept 32 (inl (omega arith)) ∙ start;
        table = λ s low high. r.kept s (inl (omega (arith, high))) ∙ table s low high;
        root = λ s low high. r.cleared s low (omega (arith, high));
      }

  read_fat_entry-Fresh :
      (c : ℕ) (d : D) → 3 ≤ c → c < 131072 → Fresh d → read_fat_entry device c d ≡ ok fat_free
  read_fat_entry-Fresh c d low high f = elim (Bool-cases (ltb c 128)) [
    | inl start ↦
        let at : sector_of_copy 0 c ≡ 32 = ground (arith, start) in
        let zero_ : entry_of (bytes_to_words first_sector) c ≡ 0 =
          entry_of_zero (bytes_to_words first_sector) c
            (λ j h. first_sector_byte j ∙ first_sector_free j (first_entries c j low start h)) in
        read_fat_entry-ok device lawful c (bytes_to_words first_sector) d
          (ap (λ s. device.read_sector s d) at ∙ f.start)
        ∙ ap ok zero_
    | inr later ↦
        read_fat_entry-ok device lawful c zero_sector d
          (f.table (sector_of_copy 0 c) (ground (arith, later, high)) (ground (arith, high)))
        ∙ ap ok (entry_of_zero zero_sector c (λ j h. zero_byte j))
  ]
    where
      first_entries : (c j : ℕ) → 3 ≤ c → ltb c 128 ≡ true → offset_in_sector c ≤ j → 12 ≤ j
      first_entries c j low start h = ground (arith, low, start, h)

  look_up-empty :
      (count sector : ℕ) (short : Bytes) (d : D)
      → ((s : ℕ) → sector ≤ s → s < sector + count → device.read_sector s d ≡ ok zero_sector)
      → look_up device count sector short d ≡ ok none
  unfolding look_up
  look_up-empty zero sector short d h = refl
  look_up-empty (suc count) sector short d h =
      look_up-next device count sector short zero_sector d (h sector (omega arith) (omega arith))
        (find_name-zero_sector 16 0 short)
      ∙ look_up-empty count (sector + 1) short d
          (λ s a b. h s (omega (arith, a)) (omega (arith, b)))

  find_file-Fresh : (name : Text) (d : D) → Fresh d → find_file device name d ≡ ok none
  unfolding find_file
  find_file-Fresh name d f =
      let at = cluster_to_sector-eq 2 (omega arith) (omega arith) in
      ap (λ s. look_up device 8 s (to_short_name name) d) at
      ∙ look_up-empty 8 2080 (to_short_name name) d (λ s a b. f.root s a (omega (arith, b)))

  pub format-AreEnded :
      (volume_id : ℕ) (d d' : D)
      → format device volume_id d ≡ (d', ok tt)
      → AreEnded device 8 2080 d'
  format-AreEnded volume_id d d' h s words low high reads e small zero_ =
      let f = format-Fresh volume_id d d' h in
      let same : ◌≡◌ {A = Result Words Text} (ok zero_sector) (ok words) =
        sym (f.root s low (omega (arith, high))) ∙ reads in
      let held : zero_sector ≡ words = cc same in
      subst (λ w. words_to_bytes w ((e + 1) * 32) ≡ 0) held (zero_byte ((e + 1) * 32))

  -- The sectors of the root directory hold zeros.
  pub format-root :
      (volume_id s : ℕ) (d d' : D)
      → format device volume_id d ≡ (d', ok tt)
      → 2080 ≤ s
      → s < 2088
      → device.read_sector s d' ≡ ok zero_sector
  format-root volume_id s d d' h low high = (format-Fresh volume_id d d' h).root s low high

  root_entry-Fresh : (d : D) → Fresh d → read_fat_entry device 2 d ≡ ok fat_eoc
  root_entry-Fresh d f =
      read_fat_entry-ok device lawful 2 (bytes_to_words first_sector) d f.start ∙ ap ok root_mark

  -- After a formatting that succeeds on a lawful device, whatever the volume number, the entry of the
  -- root directory's cluster is the end mark, every later entry of the table is free, and no name
  -- is found in the directory.
  pub format-fresh :
      (volume_id : ℕ) (d d' : D)
      → format device volume_id d ≡ (d', ok tt)
      → (read_fat_entry device root_cluster d' ≡ ok fat_eoc)
        × ((c : ℕ) → 3 ≤ c → c < 131072 → read_fat_entry device c d' ≡ ok fat_free)
        × ((name : Text) → find_file device name d' ≡ ok none)
  format-fresh volume_id d d' h =
      let f = format-Fresh volume_id d d' h in
      (
        root_entry-Fresh d' f,
        (λ c low high. read_fat_entry-Fresh c d' low high f),
        λ name. find_file-Fresh name d' f,
      )
