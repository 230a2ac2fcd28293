-- ===== src/Kernel/Boot/Lines.antt =====
-- What `kernel_main` prints when the disk works.
use arona_os.Prelude.{
  ℕ, zero, suc, ◌+◌, ◌≡◌, refl, ap, ◌∙◌, Text, F64, codes, decimal, contains_text, text_eq, true,
  List, [], ◌∷◌, ◌++◌, some, ok, err, nat_eq, arith,
}
use arona_os.Kernel.Fat32.{Words, BlockDevice, IsLawful}
use arona_os.Kernel.Fat32.Format.{format}
use arona_os.Kernel.Fat32.FormatTotal.{format_total}
use arona_os.Kernel.Fat32.Directory.{rsplit_once, to_short_name, write_file}
use arona_os.Kernel.Fat32.Lookup.{read_file}
use arona_os.Kernel.Fat32.Space.{IsReliable}
use arona_os.Kernel.Fat32.Contents.{IsGiven}
use arona_os.Kernel.Fat32.History.{History, formatted, written, read_file-History}
use arona_os.Kernel.Fat32.Room.{write_file-History}
use arona_os.Kernel.Clock.{DateTime}
use arona_os.Kernel.Guardian.Engine.{evaluate, match_event, action_for}
use arona_os.Kernel.Permissions.{expand, push_new, touch, check_dormancy}
use arona_os.Kernel.Adaptive.{record_approval, upsert, get, should_skip_confirmation}
use arona_os.Kernel.Boot.{
  words_eq, write_buffer, time_line, random_line, guardian_lines, permission_lines, approvals,
  trust_lines, kernel_lines, test_file_name, test_file_content, ata_check, format_check,
  read_back_line, file_report, file_check, missing_line, disk_lines,
}

words_eq_refl : (n i : ℕ) (w : Words) → words_eq n i w w ≡ true
unfolding words_eq
words_eq_refl zero i w = refl
words_eq_refl (suc n) i w =
    let same : nat_eq (w i) (w i) ≡ true = ground arith in
    rw (same, words_eq) (words_eq_refl n (i + 1) w)

hello_short : to_short_name test_file_name 0 ≡ 72
unfolding to_short_name rsplit_once
hello_short = refl

notfound_short : to_short_name (codes "NOTFOUND.TXT") 0 ≡ 78
unfolding to_short_name rsplit_once
notfound_short = refl

hello-IsGiven : IsGiven test_file_name test_file_content []
hello-IsGiven = record {
  new = tt;
  usable = ((λ e. omega (arith, hello_short, e)), λ e. omega (arith, hello_short, e));
  small = omega arith;
  fits = omega arith;
}

-- The lines of a disk that works.
abbrev pub working_disk : List Text
working_disk =
    codes "ATA: wrote test pattern to sector 0."
    ∷ codes "ATA: read back matches what was written. Disk I/O is working."
    ∷ codes "FAT32: formatting disk (this may take a moment)..."
    ∷ codes "FAT32: format complete."
    ∷ codes "FAT32 filesystem initialized on data disk."
    ∷ codes "FAT32: wrote file 'HELLO.TXT' (41 bytes)."
    ∷ codes "FAT32: read back matches what was written. File I/O is working."
    ∷ codes "FAT32: correctly reported missing file: 指定された名前のファイルが見つかりません"
    ∷ codes "Entering idle loop."
    ∷ []

abbrev pub demo_lines : List Text
demo_lines =
    codes "Guardian initialized with 5 rules."
    ∷ codes "Guardian BLOCKED: 既知のランサムウェアパターン(.locked)に一致するファイル操作"
    ∷ codes "Permission template loaded: Rust開発環境"
    ∷ codes "Permission expanded. Granted capabilities: 1"
    ∷ codes "Dormancy check after simulated elapsed time: became_dormant=true"
    ∷ codes "Trust check before any approvals: skip_confirmation=false"
    ∷ codes "Trust check after 5 immediate approvals: skip_confirmation=true"
    ∷ codes "All kernel-ported subsystems verified."
    ∷ []

guardian_lines_lem :
    (show : F64 → Text) (ids : ℕ → ℕ) (times : ℕ → DateTime)
    → guardian_lines show ids times
      ≡ codes "Guardian initialized with 5 rules."
        ∷ codes "Guardian BLOCKED: 既知のランサムウェアパターン(.locked)に一致するファイル操作"
        ∷ []
unfolding guardian_lines evaluate match_event action_for contains_text decimal
guardian_lines_lem show ids times = refl

permission_lines_lem :
    (template_id grant_id : ℕ)
    → permission_lines template_id grant_id
      ≡ some (
          codes "Permission template loaded: Rust開発環境"
          ∷ codes "Permission expanded. Granted capabilities: 1"
          ∷ codes "Dormancy check after simulated elapsed time: became_dormant=true"
          ∷ [])
unfolding permission_lines expand push_new touch check_dormancy text_eq decimal
permission_lines_lem template_id grant_id = refl

trust_lines_lem :
    trust_lines
    ≡ codes "Trust check before any approvals: skip_confirmation=false"
      ∷ codes "Trust check after 5 immediate approvals: skip_confirmation=true"
      ∷ codes "All kernel-ported subsystems verified."
      ∷ []
unfolding trust_lines approvals record_approval upsert get should_skip_confirmation text_eq
trust_lines_lem = refl

module _ {D : Type 0} (device : BlockDevice D) where
  ata_check_lines :
      (d d' : D)
      → device.write_sector 0 write_buffer d ≡ (d', ok tt)
      → device.read_sector 0 d' ≡ ok write_buffer
      → ata_check device d ≡ (
        d',
        codes "ATA: wrote test pattern to sector 0."
            ∷ codes "ATA: read back matches what was written. Disk I/O is working."
            ∷ [],
      )
  unfolding ata_check
  ata_check_lines d d' wrote read =
      rw (wrote, ata_check) (rw read (rw (words_eq_refl 256 0 write_buffer) refl))

  format_check_lines :
      (volume_id : ℕ) (d d' : D)
      → format device volume_id d ≡ (d', ok tt)
      → format_check device volume_id d ≡ (
        d',
        codes "FAT32: formatting disk (this may take a moment)..."
            ∷ codes "FAT32: format complete."
            ∷ codes "FAT32 filesystem initialized on data disk."
            ∷ [],
      )
  unfolding format_check
  format_check_lines volume_id d d' done = rw (done, format_check) refl

  read_back_line_lem :
      (d : D)
      → read_file device test_file_name d ≡ ok test_file_content
      → read_back_line device d
        ≡ codes "FAT32: read back matches what was written. File I/O is working."
  unfolding read_back_line text_eq
  read_back_line_lem d read = rw (read, read_back_line) refl

  file_check_lines :
      (d d' : D)
      → write_file device test_file_name test_file_content d ≡ (d', ok tt)
      → read_file device test_file_name d' ≡ ok test_file_content
      → file_check device d ≡ (
        d',
        codes "FAT32: wrote file 'HELLO.TXT' (41 bytes)."
            ∷ codes "FAT32: read back matches what was written. File I/O is working."
            ∷ [],
      )
  unfolding file_check decimal
  file_check_lines d d' wrote read =
      ap (file_report device) wrote ∙ rw (read_back_line_lem d' read) refl

  missing_line_lem :
      (d : D)
      → read_file device (codes "NOTFOUND.TXT") d ≡ err (codes "指定された名前のファイルが見つかりません")
      → missing_line device d ≡ codes "FAT32: correctly reported missing file: 指定された名前のファイルが見つかりません"
  unfolding missing_line
  missing_line_lem d absent = rw (absent, missing_line) refl

module _ {D : Type 0} (device : BlockDevice D) (lawful : IsLawful device)
    (reliable : IsReliable device) where
  -- The disk as the kernel leaves it.
  disk_lines-working :
      (volume_id : ℕ) (d : D) → (d' : D) × (disk_lines device volume_id d ≡ (d', working_disk))
  unfolding disk_lines
  disk_lines-working volume_id d =
      let (d₁, wrote) = reliable.writes 0 write_buffer d in
      let ata = ata_check_lines device d d₁ wrote (lawful.read-write 0 write_buffer d d₁ wrote) in
      let (d₂, formats) = format_total device reliable volume_id d₁ in
      let formatting = format_check_lines device volume_id d₁ d₂ formats in
      let fresh : History device d₂ [] = formatted volume_id d₁ d₂ formats in
      let (d₃, writes) =
        write_file-History device lawful reliable test_file_name test_file_content fresh
          hello-IsGiven (omega arith) (omega arith) in
      let (reads, absent) =
        read_file-History device lawful
          (written test_file_name test_file_content [] d₂ d₃ fresh hello-IsGiven writes) in
      let file = file_check_lines device d₂ d₃ writes reads.0 in
      let missing = missing_line_lem device d₃ (
        absent (codes "NOTFOUND.TXT")
          ((0, omega arith, λ e. omega (arith, hello_short, notfound_short, e)), tt)) in
      (d₃, chained d d₁ d₂ d₃ ata formatting file missing)
    where
      chained :
          (d d₁ d₂ d₃ : D) {ata formatting file : List Text} {missing : Text}
          → ata_check device d ≡ (d₁, ata)
          → format_check device volume_id d₁ ≡ (d₂, formatting)
          → file_check device d₂ ≡ (d₃, file)
          → missing_line device d₃ ≡ missing
          → disk_lines device volume_id d
            ≡ (d₃, ata ++ (formatting ++ (file ++ (missing ∷ codes "Entering idle loop." ∷ []))))
      chained d d₁ d₂ d₃ a b c e = rw (a, disk_lines) (rw b (rw c (rw e refl)))

  -- On a lawful disk that never fails, `kernel_main` runs from the clock's line to its idle loop
  -- without a panic, whatever the disk held, the date, the random number and the ids. It prints,
  -- behind the lines of the date and of the random number: that the guardian has five rules and has
  -- blocked the write of the `.locked` file, that the grant was expanded to one capability and
  -- became dormant, that confirmation is skipped after five approvals and not before, that the
  -- disk's sector and file read back what was written, with the two lines of the formatting between
  -- them, and that the missing file is reported. What interrupts print in between is not counted.
  pub kernel_lines-working :
      (show : F64 → Text) (ids : ℕ → ℕ) (times : ℕ → DateTime)
      (template_id grant_id volume_id random_value : ℕ) (now : DateTime) (d : D)
      → (d' : D) × (kernel_lines device show ids times template_id grant_id volume_id now
            random_value d
          ≡ some (d', time_line now ∷ random_line random_value ∷ (demo_lines ++ working_disk)))
  unfolding kernel_lines
  kernel_lines-working show ids times template_id grant_id volume_id random_value now d =
      let (d', disk) = disk_lines-working volume_id d in
      (
        d',
        rw (permission_lines_lem template_id grant_id, kernel_lines)
            (rw (guardian_lines_lem show ids times) (rw trust_lines_lem (rw disk refl))),
      )
