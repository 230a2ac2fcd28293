-- ===== src/Kernel/Fat32/Volume.antt =====
-- A file on a disk that has just been formatted.
use arona_os.Prelude.{ℕ, ◌^◌, ◌<◌, ◌≡◌, ◌≢◌, sym, ◌∙◌, Text, List, Result, ok, length, arith, All}
use arona_os.Kernel.Fat32.{BlockDevice, IsLawful}
use arona_os.Kernel.Fat32.Free.{fat_free, fat_eoc}
use arona_os.Kernel.Fat32.Directory.{to_short_name, write_file}
use arona_os.Kernel.Fat32.Lookup.{read_file}
use arona_os.Kernel.Fat32.Slots.{IsUsable}
use arona_os.Kernel.Fat32.Files.{read_file-write_file}
use arona_os.Kernel.Fat32.Format.{format}
use arona_os.Kernel.Fat32.Fresh.{format-fresh}

end_not_free : ◌≢◌ {A = Result ℕ Text} (ok fat_eoc) (ok fat_free)
end_not_free e = let same : fat_eoc ≡ fat_free = cc in omega (arith, same)

module _ {D : Type 0} (device : BlockDevice D) (lawful : IsLawful device) where
  -- On a lawful device, the first file that is written after a successful formatting, whatever the
  -- volume number, is read back: data of fewer than 2 ^ 32 bytes, under a name whose short form
  -- starts with neither 0 nor 0xe5, once `write_file` has succeeded.
  pub read_file-format :
      (volume_id : ℕ) (name : Text) (data_ : List ℕ) (d formatted d' : D)
      → format device volume_id d ≡ (formatted, ok tt)
      → IsUsable (to_short_name name)
      → All (λ b. b < 256) data_
      → length data_ < 2 ^ 32
      → write_file device name data_ formatted ≡ (d', ok tt)
      → read_file device name d' ≡ ok data_
  read_file-format volume_id name data_ d formatted d' formats usable small fits h =
      let (root, _, absent) = format-fresh device lawful volume_id d formatted formats in
      read_file-write_file device lawful name data_ formatted d' (absent name)
        (λ e. end_not_free (sym root ∙ e)) usable small fits h
