-- ===== src/Kernel/Fat32/Lookup.antt =====
-- `read_file` of arona_kernel/src/fat32/dir.rs.
use arona_os.Prelude.{
  ℕ, zero, suc, ◌+◌, Text, codes, List, Option, none, some, Result, ok, err, ◌>>=◌,
}
use arona_os.Kernel.Fat32.{
  Bytes, BlockDevice, root_cluster, sectors_per_cluster, cluster_to_sector, words_to_bytes,
}
use arona_os.Kernel.Fat32.Directory.{to_short_name, find_name, first_cluster_of, file_size_of}
use arona_os.Kernel.Fat32.Read.{read_data_from_chain}

module _ {D : Type 0} (device : BlockDevice D) where
  -- The outer loop, over `count` sectors: the first cluster and the size of the file.
  unfoldable pub look_up : ℕ → ℕ → Bytes → D → Result (Option (ℕ × ℕ)) Text
  look_up zero sector short d = ok none
  look_up (suc count) sector short d = device.read_sector sector d >>= λ words.
      elim (find_name 16 0 short (words_to_bytes words)) [
        | some start ↦ ok (
            some (
              first_cluster_of start (words_to_bytes words),
              file_size_of start (words_to_bytes words),
            ))
        | none ↦ look_up count (sector + 1) short d
      ]

  unfoldable pub find_file : Text → D → Result (Option (ℕ × ℕ)) Text
  find_file name d =
      look_up sectors_per_cluster (cluster_to_sector root_cluster) (to_short_name name) d

  unfoldable pub read_file : Text → D → Result (List ℕ) Text
  read_file name d = find_file name d >>= λ found. elim found [
    | some (first_cluster, file_size) ↦ read_data_from_chain device first_cluster file_size d
    | none ↦ err (codes "指定された名前のファイルが見つかりません")
  ]
