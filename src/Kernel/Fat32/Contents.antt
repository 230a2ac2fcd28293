-- ===== src/Kernel/Fat32/Contents.antt =====
-- The files of a disk after any number of calls of `write_file`.
use arona_os.Prelude.{
  ℕ, ◌+◌, ◌*◌, ◌^◌, ◌<◌, ◌≤◌, ◌≡◌, ◌≢◌, sym, ap, ◌∙◌, inl, Text, List, [], ◌∷◌, ok, none, some,
  length, arith, All,
}
use arona_os.Kernel.Fat32.{BlockDevice, IsLawful, root_cluster}
use arona_os.Kernel.Fat32.Table.{read_fat_entry}
use arona_os.Kernel.Fat32.Free.{fat_free, Links}
use arona_os.Kernel.Fat32.Written.{Links-SameTable, read_fat_entry-SameTable}
use arona_os.Kernel.Fat32.Read.{read_data_from_chain}
use arona_os.Kernel.Fat32.Directory.{to_short_name, write_file}
use arona_os.Kernel.Fat32.Lookup.{look_up, find_file}
use arona_os.Kernel.Fat32.Slots.{IsUsable, to_short_name_small}
use arona_os.Kernel.Fat32.Added.{Added, add_entry-Added}
use arona_os.Kernel.Fat32.Kept.{look_up-cong}
use arona_os.Kernel.Fat32.Filling.{
  BehindRoot, on_disk, root_sector, Steps, write_file-Steps, Filling, write_data_to_chain-Filling,
}
use arona_os.Kernel.Fat32.Files.{read_data_from_chain-Filling}
use arona_os.Kernel.Fat32.Others.{
  SameCluster, in_use, same_clusters, read_data_from_chain-write_file,
}
use arona_os.Kernel.Fat32.Names.{Differ}
use arona_os.Kernel.Fat32.OtherNames.{AreEnded, add_entry-others, add_entry-AreEnded}

-- A name and the bytes of the file.
abbrev pub File : Type 0
File = Text × List ℕ

-- The short form of the name is that of none of the files.
abbrev pub IsNew : Text → List File → Type 0
IsNew name files = All (λ f. Differ (to_short_name f.0) (to_short_name name)) files

-- What `write_file` is given.
pub record IsGiven (name : Text) (data_ : List ℕ) (files : List File) : Type 0 where
  pub new : IsNew name files
  pub usable : IsUsable (to_short_name name)
  pub small : All (λ b. b < 256) data_
  pub fits : length data_ < 2 ^ 32

module _ {D : Type 0} (device : BlockDevice D) where
  -- A file whose entry is found and whose chain is in use.
  pub record IsHeld (d : D) (f : File) : Type 0 where
    pub first : ℕ
    pub tail : List ℕ
    pub found : find_file device f.0 d ≡ ok (some (first, length f.1))
    pub behind : All BehindRoot (first ∷ tail)
    pub links : Links device d first tail
    pub enough : length f.1 ≤ length tail * 4096 + 4096
    pub reads : read_data_from_chain device first (length f.1) d ≡ ok f.1

  pub record Holds (d : D) (files : List File) : Type 0 where
    pub root : read_fat_entry device root_cluster d ≢ ok fat_free
    pub ended : AreEnded device 8 2080 d
    pub held : All (IsHeld d) files
    pub others : (name : Text) → IsNew name files → find_file device name d ≡ ok none

  Links-SameCluster :
      (c : ℕ) (tail : List ℕ) (d d' : D)
      → All (SameCluster device d d') (c ∷ tail)
      → Links device d c tail
      → Links device d' c tail
  Links-SameCluster c [] d d' same links = same.0.1 ∙ links
  Links-SameCluster c (e ∷ es) d d' same links =
      (same.0.1 ∙ links.0, Links-SameCluster e es d d' same.1 links.1)

apart_from_root : (cs : List ℕ) → All BehindRoot cs → All (λ c. c ≢ root_cluster) cs
apart_from_root [] b = tt
apart_from_root (c ∷ cs) b = ((λ e. omega (arith, e, b.0.0)), apart_from_root cs b.1)

module _ {D : Type 0} (device : BlockDevice D) (lawful : IsLawful device) (name : Text)
    (data_ : List ℕ) (files : List File) (d d' : D) (holds : Holds device d files)
    (given : IsGiven name data_ files) (h : write_file device name data_ d ≡ (d', ok tt)) where
  steps : Steps device name data_ d d'
  steps = write_file-Steps device name data_ d d' h

  filling : Filling device lawful steps.first data_ d steps.filled
  filling =
      write_data_to_chain-Filling device lawful steps.first data_ d steps.allocated steps.filled
        holds.root given.small steps.allocates steps.fills

  -- The directory was as before when the entry was added.
  look_up-filled :
      (other : Text)
      → look_up device 8 2080 (to_short_name other) steps.filled ≡ find_file device other d
  unfolding find_file
  look_up-filled other =
      look_up-cong device 8 2080 (to_short_name other) d steps.filled
        (λ s a b. filling.kept s a (omega (arith, b)))
      ∙ ap (λ s. look_up device 8 s (to_short_name other) d) (sym root_sector)

  find_file-look_up :
      (other : Text) → find_file device other d' ≡ look_up device 8 2080 (to_short_name other) d'
  unfolding find_file
  find_file-look_up other = ap (λ s. look_up device 8 s (to_short_name other) d') root_sector

  filled_ended : AreEnded device 8 2080 steps.filled
  filled_ended s words a b reads =
      holds.ended s words a b (sym (filling.kept s a (omega (arith, b))) ∙ reads)

  added : Added device lawful 8 2080 steps.first (length data_) (to_short_name name) steps.filled d'
  added =
      add_entry-Added device lawful 8 2080 steps.first (length data_) (to_short_name name)
        steps.filled d' given.usable (to_short_name_small name) (omega (arith, filling.behind.0))
        given.fits (look_up-filled name ∙ holds.others name given.new) steps.adds

  find_file-other :
      (other : Text)
      → Differ (to_short_name name) (to_short_name other)
      → find_file device other d' ≡ find_file device other d
  find_file-other other differ =
      find_file-look_up other
      ∙ (add_entry-others device lawful 8 2080 steps.first (length data_) (to_short_name name)
            (to_short_name other) steps.filled d' given.usable (to_short_name_small name) differ
            filled_ended steps.adds
          ∙ look_up-filled other)

  new-IsHeld : IsHeld device d' (name, data_)
  new-IsHeld = record {
    first = steps.first;
    tail = filling.tail;
    found = find_file-look_up name ∙ added.found;
    behind = filling.behind;
    links =
        Links-SameTable device lawful steps.first filling.tail steps.filled d'
          (on_disk (steps.first ∷ filling.tail) filling.behind) (λ s h. added.kept s (inl h))
          filling.links;
    enough = omega (arith, filling.long);
    reads =
        read_data_from_chain-Filling device lawful steps.first data_ d steps.filled d' filling
          added.kept;
  }

  still-IsHeld :
      (f : File)
      → Differ (to_short_name name) (to_short_name f.0)
      → IsHeld device d f
      → IsHeld device d' f
  still-IsHeld f differ held =
      let on = on_disk (held.first ∷ held.tail) held.behind in
      let apart = apart_from_root (held.first ∷ held.tail) held.behind in
      record {
        first = held.first;
        tail = held.tail;
        found = find_file-other f.0 differ ∙ held.found;
        behind = held.behind;
        links =
            Links-SameCluster device held.first held.tail d d'
              (same_clusters device lawful (held.first ∷ held.tail) steps.first data_ d steps.filled
                d' filling added.kept on apart (in_use device held.first held.tail d on held.links))
              held.links;
        enough = held.enough;
        reads =
            read_data_from_chain-write_file device lawful name data_ held.first (length f.1)
              held.tail d d' holds.root given.small on apart held.links held.enough h
            ∙ held.reads;
      }

  All-IsHeld :
      (fs : List File)
      → All (λ f. Differ (to_short_name f.0) (to_short_name name)) fs
      → All (IsHeld device d) fs
      → All (IsHeld device d') fs
  All-IsHeld [] new held = tt
  All-IsHeld (f ∷ fs) new held =
      let (k, small, other) = new.0 in
      (still-IsHeld f (k, small, λ e. other (sym e)) held.0, All-IsHeld fs new.1 held.1)

  -- What the disk holds grows by the file.
  pub write_file-Holds : Holds device d' ((name, data_) ∷ files)
  write_file-Holds = record {
    root = λ free. holds.root (
        sym (
          read_fat_entry-SameTable device lawful 2 steps.filled d' (omega arith)
            (λ s h. added.kept s (inl h))
          ∙ filling.table 2 (omega arith) holds.root)
        ∙ free);
    ended =
        add_entry-AreEnded device lawful 8 2080 steps.first (length data_) (to_short_name name)
          steps.filled d' given.usable (to_short_name_small name) filled_ended steps.adds;
    held = (new-IsHeld, All-IsHeld files given.new holds.held);
    others = λ other new. find_file-other other new.0 ∙ holds.others other new.1;
  }
