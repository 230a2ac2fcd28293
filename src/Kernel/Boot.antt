-- ===== src/Kernel/Boot.antt =====
-- arona_kernel/src/main.rs: what `kernel_main` prints from the clock's line on, up to the idle loop.
-- What the timer's interrupt and the tasks print in between is left out. The device, the date, the random number and the ids of the rules and grants are arguments.
pub mod Lines
mod Examples
use arona_os.Prelude.{
  ℕ, zero, suc, ◌+◌, ◌-◌, ◌*◌, ◌/◌, ◌%◌, Text, F64, codes, decimal, Bool, true, false, ◌&&◌, List,
  [], ◌∷◌, ◌++◌, length, Option, none, some, Result, ok, err, nat_eq, ltb, text_eq, if◌then◌else◌,
}
use arona_os.Kernel.Fat32.{Words, BlockDevice}
use arona_os.Kernel.Fat32.Format.{format}
use arona_os.Kernel.Fat32.Directory.{write_file}
use arona_os.Kernel.Fat32.Lookup.{read_file}
use arona_os.Kernel.Clock.{DateTime}
use arona_os.Kernel.Guardian
use arona_os.Kernel.Guardian.Engine
use arona_os.Kernel.Permissions
use arona_os.Kernel.Adaptive

abbrev zeros : ℕ → Text
zeros zero = []
zeros (suc n) = b'0' ∷ zeros n

-- `{:02}` and `{:04}`.
unfoldable pub pad : ℕ → ℕ → Text
pad width n = zeros (width - length (decimal n)) ++ decimal n

abbrev pub hex_digit : ℕ → ℕ
hex_digit d = if ltb d 10 then b'0' + d else b'a' + (d - 10)

-- The last `count` digits to the base 16.
unfoldable pub hex : ℕ → ℕ → Text → Text
hex zero n later = later
hex (suc count) n later = hex count (n / 16) (hex_digit (n % 16) ∷ later)

abbrev pub bool_text : Bool → Text
bool_text true = codes "true"
bool_text false = codes "false"

unfoldable pub time_line : DateTime → Text
time_line now =
    codes "RTC time: "
    ++ (pad 4 now.year
        ++ (codes "-"
            ++ (pad 2 now.month
                ++ (codes "-"
                    ++ (pad 2 now.day
                        ++ (codes " "
                            ++ (pad 2 now.hour
                                ++ (codes ":"
                                    ++ (pad 2 now.minute ++ (codes ":" ++ pad 2 now.second))))))))))

-- `{:#018x}` of a `u64`.
unfoldable pub random_line : ℕ → Text
random_line random_value = codes "Random u64: 0x" ++ hex 16 random_value []

abbrev pub suspicious_event : Guardian.SystemEvent
suspicious_event =
    Guardian.SystemEvent.file_operation (codes "C:/dev/suspicious/report.docx.locked")
      (codes "write") 0

abbrev pub blocked_lines : List Guardian.Intervention → List Text
blocked_lines [] = []
blocked_lines (intervention ∷ rest) = elim intervention.action [
  | Guardian.InterventionAction.block reason ↦ (codes "Guardian BLOCKED: " ++ reason) ∷ []
]

unfoldable pub guardian_lines : (F64 → Text) → (ℕ → ℕ) → (ℕ → DateTime) → List Text
guardian_lines show ids times =
    let engine = Engine.with_default_rules ids times in
    (codes "Guardian initialized with " ++ (decimal (length engine.rules) ++ codes " rules."))
    ∷ blocked_lines (Engine.evaluate show suspicious_event engine)

-- `none` is the panic of `expect`.
unfoldable pub permission_lines : ℕ → ℕ → Option (List Text)
permission_lines template_id grant_id =
    let template = Permissions.rust_dev_environment_template template_id in
    let grant = Permissions.new grant_id (codes "Rust開発環境を整えたい") template [] 0 in
    let cargo = Permissions.Capability.process_execution (codes "cargo.exe") in
    let (expanded, answer) = Permissions.expand template cargo 0 grant in
    let (dormant, became_dormant) = Permissions.check_dormancy 1000 expanded in
    elim answer [
      | err e ↦ none
      | ok _ ↦ some (
          (codes "Permission template loaded: " ++ template.name)
          ∷ (codes "Permission expanded. Granted capabilities: "
              ++ decimal (length expanded.granted_capabilities))
          ∷ (codes "Dormancy check after simulated elapsed time: became_dormant="
              ++ bool_text became_dormant)
          ∷ [])
    ]

-- The loop of five approvals.
unfoldable pub approvals : ℕ → Adaptive.TrustModel → Adaptive.TrustModel
approvals zero model = model
approvals (suc count) model =
    approvals count
      (Adaptive.record_approval (codes "dev_tooling") Adaptive.ApprovalManner.immediate model)

abbrev pub skip_text : Adaptive.TrustModel → Text
skip_text model = bool_text (Adaptive.should_skip_confirmation (codes "dev_tooling") model)

unfoldable pub trust_lines : List Text
trust_lines =
    (codes "Trust check before any approvals: skip_confirmation=" ++ skip_text Adaptive.new)
    ∷ (codes "Trust check after 5 immediate approvals: skip_confirmation="
        ++ skip_text (approvals 5 Adaptive.new))
    ∷ codes "All kernel-ported subsystems verified."
    ∷ []

-- `0xA500 | (i as u16 & 0xFF)`, whose two parts share no bit.
abbrev pub write_buffer : Words
write_buffer i = 0xa500 + i % 256

-- `==` of two arrays, for `count` elements from `i` on.
unfoldable pub words_eq : ℕ → ℕ → Words → Words → Bool
words_eq zero i a b = true
words_eq (suc count) i a b = nat_eq (a i) (b i) && words_eq count (i + 1) a b

-- What `format` itself prints, in front of its steps and behind them: the second line only where
-- none of them has failed.
abbrev pub format_output : Result (Unit {0}) Text → List Text
format_output (ok _) =
    codes "FAT32: formatting disk (this may take a moment)..."
    ∷ codes "FAT32: format complete."
    ∷ []
format_output (err e) = codes "FAT32: formatting disk (this may take a moment)..." ∷ []

abbrev pub test_file_name : Text
test_file_name = codes "HELLO.TXT"

abbrev pub test_file_content : List ℕ
test_file_content = codes "AronaOS FAT32 test: r4gi-san, konnichiwa."

module _ {D : Type 0} (device : BlockDevice D) where
  unfoldable pub ata_check : D → D × List Text
  ata_check d =
      let (d', wrote) = device.write_sector 0 write_buffer d in
      (
        d',
        elim wrote [
          | ok _ ↦ codes "ATA: wrote test pattern to sector 0."
          | err e ↦ codes "ATA: write failed: " ++ e
        ]
            ∷ elim (device.read_sector 0 d') [
              | ok read_buffer ↦
                  if words_eq 256 0 read_buffer write_buffer
                  then codes "ATA: read back matches what was written. Disk I/O is working."
                  else codes "ATA: read back MISMATCH. Something is wrong."
              | err e ↦ codes "ATA: read failed: " ++ e
            ]
            ∷ [],
      )

  unfoldable pub format_check : ℕ → D → D × List Text
  format_check volume_id d =
      let (d', result) = format device volume_id d in
      (
        d',
        format_output result
            ++ (elim result [
              | ok _ ↦ codes "FAT32 filesystem initialized on data disk."
              | err e ↦ codes "FAT32 format failed: " ++ e
            ]
                ∷ []),
      )

  unfoldable pub read_back_line : D → Text
  read_back_line d = elim (read_file device test_file_name d) [
    | ok read_back ↦
        if text_eq read_back test_file_content
        then codes "FAT32: read back matches what was written. File I/O is working."
        else codes "FAT32: read back MISMATCH. Something is wrong."
    | err e ↦ codes "FAT32: read_file failed: " ++ e
  ]

  -- The `match` on the result of `write_file`.
  abbrev pub file_report : D × Result (Unit {0}) Text → D × List Text
  file_report (d, ok _) = (
    d,
    (codes "FAT32: wrote file '"
          ++ (test_file_name
              ++ (codes "' (" ++ (decimal (length test_file_content) ++ codes " bytes)."))))
        ∷ read_back_line d
        ∷ [],
  )
  file_report (d, err e) = (d, (codes "FAT32: write_file failed: " ++ e) ∷ [])

  unfoldable pub file_check : D → D × List Text
  file_check d = file_report (write_file device test_file_name test_file_content d)

  unfoldable pub missing_line : D → Text
  missing_line d = elim (read_file device (codes "NOTFOUND.TXT") d) [
    | ok _ ↦ codes "FAT32: unexpectedly found NOTFOUND.TXT (this should not happen)"
    | err e ↦ codes "FAT32: correctly reported missing file: " ++ e
  ]

  -- The part of `kernel_main` that uses the disk.
  unfoldable pub disk_lines : ℕ → D → D × List Text
  disk_lines volume_id d =
      let (d₁, ata) = ata_check d in
      let (d₂, formatting) = format_check volume_id d₁ in
      let (d₃, file) = file_check d₂ in
      (d₃, ata ++ (formatting ++ (file ++ (missing_line d₃ ∷ codes "Entering idle loop." ∷ []))))

  -- The lines from the clock's on, or `none` for a panic.
  unfoldable pub kernel_lines :
      (F64 → Text)
      → (ℕ → ℕ)
      → (ℕ → DateTime)
      → ℕ
      → ℕ
      → ℕ
      → DateTime
      → ℕ
      → D
      → Option (D × List Text)
  kernel_lines show ids times template_id grant_id volume_id now random_value d =
      elim (permission_lines template_id grant_id) [
        | none ↦ none
        | some permissions ↦
            let (d', disk) = disk_lines volume_id d in
            some (
              d',
              time_line now
                  ∷ random_line random_value
                  ∷ (guardian_lines show ids times ++ (permissions ++ (trust_lines ++ disk))),
            )
      ]
