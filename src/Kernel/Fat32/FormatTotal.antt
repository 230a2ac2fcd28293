-- ===== src/Kernel/Fat32/FormatTotal.antt =====
-- The formatting on a device that never fails.
use arona_os.Prelude.{ℕ, zero, suc, ◌+◌, ◌≡◌, refl, ◌∙◌, Text, u32, ok}
use arona_os.Prelude.Actions.{Action, ◌>>=◌, bind_ok}
use arona_os.Kernel.Fat32.{Words, BlockDevice}
use arona_os.Kernel.Fat32.Format.{
  zero_sector, write_boot_sector, write_fsinfo_sector, clear_sectors, init_fat_tables,
  init_root_directory, format,
}
use arona_os.Kernel.Fat32.Space.{IsReliable}

module _ {D : Type 0} (device : BlockDevice D) (reliable : IsReliable device) where
  clear_sectors_total :
      (count sector : ℕ) (d : D) → (d' : D) × (clear_sectors device count sector d ≡ (d', ok tt))
  unfolding clear_sectors
  clear_sectors_total zero sector d = (d, refl)
  clear_sectors_total (suc count) sector d =
      let (d₁, first) = reliable.writes (u32 sector) zero_sector d in
      let (d', rest) = clear_sectors_total count (sector + 1) d₁ in
      (
        d',
        bind_ok (device.write_sector (u32 sector) zero_sector)
              (λ _. clear_sectors device count (sector + 1)) d d₁ tt first
            ∙ rest,
      )

  -- Two steps that cannot fail.
  Total : Action D Text (Unit {0}) → Type 0
  Total m = (d : D) → (d' : D) × (m d ≡ (d', ok tt))

  then-Total : (m n : Action D Text (Unit {0})) → Total m → Total n → Total (m >>= λ _. n)
  unfolding Total
  then-Total m n first second d =
      let (d₁, one) = first d in
      let (d', two) = second d₁ in (d', bind_ok m (λ _. n) d d₁ tt one ∙ two)

  write-Total : (s : ℕ) (w : Words) → Total (device.write_sector s w)
  unfolding Total
  write-Total s w d = reliable.writes s w d

  clear-Total : (count sector : ℕ) → Total (clear_sectors device count sector)
  unfolding Total
  clear-Total count sector d = clear_sectors_total count sector d

  init_fat_tables-Total : Total (init_fat_tables device)
  unfolding init_fat_tables
  init_fat_tables-Total =
      then-Total _ _ (clear-Total _ _)
        (then-Total _ _ (clear-Total _ _) (then-Total _ _ (write-Total _ _) (write-Total _ _)))

  -- The formatting succeeds.
  pub format_total : (volume_id : ℕ) (d : D) → (d' : D) × (format device volume_id d ≡ (d', ok tt))
  unfolding format write_boot_sector write_fsinfo_sector init_root_directory Total
  format_total volume_id = then-Total _ _ (then-Total _ _ (write-Total _ _) (write-Total _ _)) (
      then-Total _ _ (then-Total _ _ (write-Total _ _) (write-Total _ _))
        (then-Total _ _ init_fat_tables-Total (clear-Total _ _)))
