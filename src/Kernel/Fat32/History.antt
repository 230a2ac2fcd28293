-- ===== src/Kernel/Fat32/History.antt =====
-- A disk that was formatted, and the files that `write_file` has written on it since.
use arona_os.Prelude.{
  ℕ, ◌≡◌, ◌≢◌, refl, sym, ◌∙◌, Text, codes, List, [], ◌∷◌, Result, ok, err, none, arith, All,
}
use arona_os.Kernel.Fat32.{BlockDevice, IsLawful}
use arona_os.Kernel.Fat32.Free.{fat_free, fat_eoc}
use arona_os.Kernel.Fat32.Directory.{write_file}
use arona_os.Kernel.Fat32.Lookup.{find_file, read_file}
use arona_os.Kernel.Fat32.Format.{format}
use arona_os.Kernel.Fat32.Fresh.{format-fresh, format-AreEnded}
use arona_os.Kernel.Fat32.Contents.{File, IsNew, IsGiven, IsHeld, Holds, write_file-Holds}

-- The disks that a formatting and calls of `write_file` reach, all of which succeed, with the files
-- written, the last one first.
pub data History {D : Type 0} (device : BlockDevice D) : D → List File → Type 0 where
  formatted :
      (volume_id : ℕ) (d d' : D) → format device volume_id d ≡ (d', ok tt) → History device d' []
  written :
      (name : Text) (data_ : List ℕ) (files : List File) (d d' : D)
      → History device d files
      → IsGiven name data_ files
      → write_file device name data_ d ≡ (d', ok tt)
      → History device d' ((name, data_) ∷ files)

end_not_free : ◌≢◌ {A = Result ℕ Text} (ok fat_eoc) (ok fat_free)
end_not_free e = let same : fat_eoc ≡ fat_free = cc in omega (arith, same)

module _ {D : Type 0} (device : BlockDevice D) where
  read_file-IsHeld : (d : D) (f : File) → IsHeld device d f → read_file device f.0 d ≡ ok f.1
  unfolding read_file
  read_file-IsHeld d f held = (rw (held.found, read_file) refl) ∙ held.reads

  every_file_back :
      (d : D) (files : List File)
      → All (IsHeld device d) files
      → All (λ f. read_file device f.0 d ≡ ok f.1) files
  every_file_back d [] held = tt
  every_file_back d (f ∷ files) held = (read_file-IsHeld d f held.0, every_file_back d files held.1)

  read_file-absent :
      (d : D) (name : Text)
      → find_file device name d ≡ ok none
      → read_file device name d ≡ err (codes "指定された名前のファイルが見つかりません")
  unfolding read_file
  read_file-absent d name absent = rw (absent, read_file) refl

module _ {D : Type 0} (device : BlockDevice D) (lawful : IsLawful device) where
  pub History-Holds : {d : D} {files : List File} → History device d files → Holds device d files
  History-Holds (formatted volume_id d d' h) =
      let (root, _, absent) = format-fresh device lawful volume_id d d' h in
      record {
        root = λ free. end_not_free (sym root ∙ free);
        ended = format-AreEnded device lawful volume_id d d' h;
        held = tt;
        others = λ name _. absent name;
      }
  History-Holds (written name data_ files d d' before given h) =
      write_file-Holds device lawful name data_ files d d' (History-Holds before) given h

  -- On a lawful device that has been formatted, after any number of calls of `write_file`, all of
  -- which succeeded, `read_file` answers for the name of each file the data that was written under
  -- it, and for every name whose short form is none of theirs the error that there is no such file.
  -- Each call was given a name whose short form was that of no earlier file and started with neither
  -- 0 nor 0xe5, and fewer than 2 ^ 32 bytes (each below 256).
  pub read_file-History :
      {d : D} {files : List File}
      → History device d files
      → All (λ f. read_file device f.0 d ≡ ok f.1) files
        × ((name : Text)
            → IsNew name files
            → read_file device name d ≡ err (codes "指定された名前のファイルが見つかりません"))
  read_file-History {d} {files} history =
      let holds = History-Holds history in
      (
        every_file_back device d files holds.held,
        λ name new. read_file-absent device d name (holds.others name new),
      )
