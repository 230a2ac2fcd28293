-- ===== src/Kernel/Fat32/Directory.antt =====
-- The short names and the entries of the root directory in arona_kernel/src/fat32/dir.rs, with
-- `write_file` (its last part here is `add_entry`). A name is the list of its scalar values.
use arona_os.Prelude.{
  ℕ, zero, suc, ◌+◌, ◌-◌, ◌*◌, ◌/◌, ◌%◌, ◌^◌, Text, codes, u32, Bool, true, ◌&&◌, ◌||◌, List, [],
  ◌∷◌, Option, none, some, ok, err, length, get_elem?, ltb, leb, nat_eq, if◌then◌else◌,
}
use arona_os.Prelude.Actions.{Action, ◌>>=◌}
use arona_os.Kernel.Fat32.{
  Bytes, BlockDevice, root_cluster, sectors_per_cluster, cluster_to_sector, bytes_to_words,
  words_to_bytes,
}
use arona_os.Kernel.Fat32.Table.{from_le_bytes, put_le_bytes}
use arona_os.Kernel.Fat32.Free.{allocate_cluster_chain}
use arona_os.Kernel.Fat32.Data.{write_data_to_chain}

-- `rsplit_once`, at the last occurrence of a character.
unfoldable pub rsplit_once : ℕ → Text → Option (Text × Text)
rsplit_once d [] = none
rsplit_once d (c ∷ cs) = elim (rsplit_once d cs) [
  | some (a, b) ↦ some (c ∷ a, b)
  | none ↦ if nat_eq c d then some ([], cs) else none
]

abbrev to_ascii_uppercase : ℕ → ℕ
to_ascii_uppercase c = if leb b'a' c && leb c b'z' then c - 32 else c

-- `to_ascii_uppercase() as u8` of a character, and the space behind the last one.
abbrev pub upper_or_space : Text → ℕ → ℕ
upper_or_space s i = elim (get_elem? s i) [ some c ↦ to_ascii_uppercase c % 256 | none ↦ 32 ]

abbrev base_and_extension : Text → Text × Text
base_and_extension name = elim (rsplit_once b'.' name) [ some (b, e) ↦ (b, e) | none ↦ (name, []) ]

-- Eleven bytes: eight of the base and three of the extension.
unfoldable pub to_short_name : Text → Bytes
unfolding rsplit_once
to_short_name name j =
    let (base, ext) = base_and_extension name in
    if ltb j 8 then upper_or_space base j else upper_or_space ext (j - 8)

-- `bytes[start..start + 11].copy_from_slice(&short_name)`
abbrev copy_name : Bytes → ℕ → Bytes → Bytes
copy_name short start b j = if leb start j && ltb j (start + 11) then short (j - start) else b j

abbrev pub put_byte : ℕ → ℕ → Bytes → Bytes
put_byte v o b j = if nat_eq j o then v else b j

-- `copy_from_slice` of the two bytes of `to_le_bytes` of a `u16`.
abbrev pub put_le_u16 : ℕ → ℕ → Bytes → Bytes
put_le_u16 v o b j = if nat_eq j o then v % 256 else if nat_eq j (o + 1) then v / 256 % 256 else b j

-- The entry at `start`, in the order in which its fields are written.
unfoldable pub write_entry : Bytes → ℕ → ℕ → ℕ → Bytes → Bytes
write_entry short first_cluster size start b0 =
    let b1 : Bytes = copy_name short start b0 in
    let b2 : Bytes = put_byte 0x20 (start + 11) b1 in
    let b3 : Bytes = put_le_u16 (first_cluster / 2 ^ 16 % 2 ^ 16) (start + 20) b2 in
    let b4 : Bytes = put_le_u16 (first_cluster % 2 ^ 16) (start + 26) b3 in
    put_le_bytes (u32 size) (start + 28) b4

abbrev pub is_free_entry : ℕ → Bool
is_free_entry first_byte = nat_eq first_byte 0 || nat_eq first_byte 0xe5

-- The inner `for` loop of `write_file`, over `count` entries: where the first free one starts.
unfoldable pub find_slot : ℕ → ℕ → Bytes → Option ℕ
find_slot zero entry_index b = none
find_slot (suc count) entry_index b =
    let later = find_slot count (entry_index + 1) b in
    if is_free_entry (b (entry_index * 32)) then some (entry_index * 32) else later

-- `bytes[start..start + 11] == short_name`, for the bytes from `i` on.
unfoldable pub name_matches : ℕ → ℕ → ℕ → Bytes → Bytes → Bool
name_matches zero i start short b = true
name_matches (suc n) i start short b =
    nat_eq (b (start + i)) (short i) && name_matches n (i + 1) start short b

-- The inner `for` loop of `read_file`, which breaks at 0 and skips 0xe5.
unfoldable pub find_name : ℕ → ℕ → Bytes → Bytes → Option ℕ
unfolding name_matches
find_name zero entry_index short b = none
find_name (suc count) entry_index short b =
    let later = find_name count (entry_index + 1) short b in
    if nat_eq (b (entry_index * 32)) 0
    then none
    else if nat_eq (b (entry_index * 32)) 0xe5
    then later
    else if name_matches 11 0 (entry_index * 32) short b
    then some (entry_index * 32)
    else later

abbrev pub first_cluster_of : ℕ → Bytes → ℕ
first_cluster_of start b =
    (b (start + 20) + b (start + 21) * 256) * 2 ^ 16 + (b (start + 26) + b (start + 27) * 256)

abbrev pub file_size_of : ℕ → Bytes → ℕ
file_size_of start b = from_le_bytes b (start + 28)

module _ {D : Type 0} (device : BlockDevice D) where
  -- The outer loop of `write_file`, over `count` sectors.
  unfoldable pub add_entry : ℕ → ℕ → Bytes → ℕ → ℕ → Action D Text (Unit {0})
  add_entry zero sector short first_cluster size d = (d, err (codes "ルートディレクトリに空きエントリがありません"))
  add_entry (suc count) sector short first_cluster size d = elim (device.read_sector sector d) [
    | err e ↦ (d, err e)
    | ok words ↦ elim (find_slot 16 0 (words_to_bytes words)) [
      | some start ↦
          device.write_sector sector
            (bytes_to_words (write_entry short first_cluster size start (words_to_bytes words))) d
      | none ↦ add_entry count (sector + 1) short first_cluster size d
    ]
  ]

  unfoldable pub write_file : Text → List ℕ → Action D Text (Unit {0})
  unfolding ◌>>=◌
  write_file name data_ = do
    first_cluster ← allocate_cluster_chain device (length data_)
    _ ← write_data_to_chain device first_cluster data_
    add_entry sectors_per_cluster (cluster_to_sector root_cluster) (to_short_name name)
        first_cluster (length data_)
