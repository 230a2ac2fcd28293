-- ===== src/Kernel/Fat32/Filling.antt =====
-- What the first steps of `write_file` leave on the disk.
use arona_os.Prelude.{
  ℕ, ◌+◌, ◌*◌, ◌<◌, ◌≤◌, ◌≡◌, ◌≢◌, sym, ap, ◌∙◌, subst, inl, Text, List, [], ◌∷◌, ok, length, drop,
  arith, All,
}
use arona_os.Prelude.Actions.{Action, bind-eq-ok, ◌>>=◌}
use arona_os.Kernel.Fat32.{BlockDevice, IsLawful, cluster_to_sector, root_cluster}
use arona_os.Kernel.Fat32.Table.{read_fat_entry}
use arona_os.Kernel.Fat32.Free.{fat_free, needed_clusters, allocate_cluster_chain, IsFree, Links}
use arona_os.Kernel.Fat32.Chain.{allocate_cluster_chain-Links, allocate_cluster_chain-used}
use arona_os.Kernel.Fat32.Stored.{cluster_to_sector-eq}
use arona_os.Kernel.Fat32.Written.{
  OnDisk, Outside, Stored, Filled, Links-SameTable, read_fat_entry-SameTable,
  write_data_from-Written,
}
use arona_os.Kernel.Fat32.Data.{write_data_from, write_data_to_chain}
use arona_os.Kernel.Fat32.Directory.{to_short_name, add_entry, write_file}
use arona_os.Kernel.Fat32.Kept.{Links-Distinct, allocate_cluster_chain-behind}

-- A cluster for files: it lies behind that of the root directory.
abbrev pub BehindRoot : ℕ → Type 0
BehindRoot c = (3 ≤ c) × OnDisk c

pub on_disk : (cs : List ℕ) → All BehindRoot cs → All OnDisk cs
on_disk [] h = tt
on_disk (c ∷ cs) h = (h.0.1, on_disk cs h.1)

in_front : (s : ℕ) (cs : List ℕ) → s < 2088 → All BehindRoot cs → All (Outside s) cs
in_front s [] h b = tt
in_front s (c ∷ cs) h b = (inl (omega (arith, h, b.0.0)), in_front s cs h b.1)

pub root_sector : cluster_to_sector 2 ≡ 2080
root_sector = cluster_to_sector-eq 2 (omega arith) (omega arith)

module _ {D : Type 0} (device : BlockDevice D) where
  behind_root :
      (cs : List ℕ) (d : D)
      → read_fat_entry device root_cluster d ≢ ok fat_free
      → All (IsFree device d) cs
      → All BehindRoot cs
  behind_root [] d used h = tt
  behind_root (c ∷ cs) d used h =
      let (low, high, free) = h.0 in
      let ne : c ≢ 2 = λ e. used (ap (λ x. read_fat_entry device x d) (sym e) ∙ free) in
      ((omega (arith, low, ne), (low, high)), behind_root cs d used h.1)

  Filled-kept :
      (c : ℕ) (xs : List ℕ) (d d' : D)
      → BehindRoot c
      → ((s : ℕ) → 2088 ≤ s → device.read_sector s d' ≡ device.read_sector s d)
      → Filled device d c xs
      → Filled device d' c xs
  Filled-kept c xs d d' b kept f i h =
      let held = f i h in
      record {
        words = held.words;
        reads = kept (2064 + c * 8 + i) (omega (arith, b.0)) ∙ held.reads;
        bytes = held.bytes;
      }

  pub Stored-kept :
      (c : ℕ) (tail xs : List ℕ) (d d' : D)
      → All BehindRoot (c ∷ tail)
      → ((s : ℕ) → 2088 ≤ s → device.read_sector s d' ≡ device.read_sector s d)
      → Stored device d c tail xs
      → Stored device d' c tail xs
  Stored-kept c [] xs d d' b kept h = Filled-kept c xs d d' b.0 kept h
  Stored-kept c (e ∷ es) xs d d' b kept h =
      (Filled-kept c xs d d' b.0 kept h.0, Stored-kept e es (drop 4096 xs) d d' b.1 kept h.1)

  -- The steps of a `write_file` that succeeds.
  pub record Steps (name : Text) (data_ : List ℕ) (d d' : D) : Type 0 where
    pub allocated : D
    pub filled : D
    pub first : ℕ
    pub allocates : allocate_cluster_chain device (length data_) d ≡ (allocated, ok first)
    pub fills : write_data_to_chain device first data_ allocated ≡ (filled, ok tt)
    pub adds :
        add_entry device 8 2080 (to_short_name name) first (length data_) filled ≡ (d', ok tt)

  pub write_file-Steps :
      (name : Text) (data_ : List ℕ) (d d' : D)
      → write_file device name data_ d ≡ (d', ok tt)
      → Steps name data_ d d'
  unfolding write_file ◌>>=◌
  write_file-Steps name data_ d d' h =
      let add : ℕ → Action D Text (Unit {0}) =
        λ c. add_entry device 8 (cluster_to_sector 2) (to_short_name name) c (length data_) in
      let (d₁, c, allocated, h₁) =
        bind-eq-ok (allocate_cluster_chain device (length data_))
          (λ c. write_data_to_chain device c data_ >>= λ _. add c) d d' tt h in
      let (d₂, u, filled, h₂) =
        bind-eq-ok (write_data_to_chain device c data_) (λ _. add c) d₁ d' tt h₁ in
      record {
        allocated = d₁;
        filled = d₂;
        first = c;
        allocates = allocated;
        fills = filled;
        adds =
            subst (λ s. add_entry device 8 s (to_short_name name) c (length data_) d₂ ≡ (d', ok tt))
              root_sector h₂;
      }

module _ {D : Type 0} (device : BlockDevice D) (lawful : IsLawful device) where
  -- What the first two steps leave: the chain holds the data, and the root directory is as before.
  pub record Filling (first : ℕ) (data_ : List ℕ) (d d' : D) : Type 0 where
    pub tail : List ℕ
    pub long : 1 + length tail ≡ needed_clusters (length data_)
    pub behind : All BehindRoot (first ∷ tail)
    pub links : Links device d' first tail
    pub stored : 0 < length data_ → Stored device d' first tail data_
    pub kept : (s : ℕ) → 2080 ≤ s → s < 2088 → device.read_sector s d' ≡ device.read_sector s d
    pub free : All (IsFree device d) (first ∷ tail)
    pub untouched :
        (s : ℕ)
        → 2080 ≤ s
        → All (Outside s) (first ∷ tail)
        → device.read_sector s d' ≡ device.read_sector s d
    pub table :
        (e : ℕ)
        → e < 131072
        → read_fat_entry device e d ≢ ok fat_free
        → read_fat_entry device e d' ≡ read_fat_entry device e d

  pub write_data_to_chain-Filling :
      (first : ℕ) (data_ : List ℕ) (d allocated d' : D)
      → read_fat_entry device root_cluster d ≢ ok fat_free
      → All (λ b. b < 256) data_
      → allocate_cluster_chain device (length data_) d ≡ (allocated, ok first)
      → write_data_to_chain device first data_ allocated ≡ (d', ok tt)
      → Filling first data_ d d'
  unfolding write_data_to_chain write_data_from
  write_data_to_chain-Filling first [] d allocated d' used small allocates fills =
      let (tail, long, links, free) =
        allocate_cluster_chain-Links device lawful 0 first d allocated allocates in
      let same : allocated ≡ d' = ap (λ r. r.0) fills in
      record {
        tail = tail;
        long = long;
        behind = behind_root device (first ∷ tail) d used free;
        links = subst (λ x. Links device x first tail) same links;
        untouched = λ s low out.
            ap (λ x. device.read_sector s x) (sym same)
            ∙ allocate_cluster_chain-behind device lawful 0 first s d allocated low allocates;
        table = λ e fits busy.
            ap (λ x. read_fat_entry device e x) (sym same)
            ∙ allocate_cluster_chain-used device lawful 0 first e d allocated allocates fits busy;
        free = free;
        stored = λ h. absurd (omega (arith, h));
        kept = λ s low high.
            ap (λ x. device.read_sector s x) (sym same)
            ∙ allocate_cluster_chain-behind device lawful 0 first s d allocated low allocates;
      }
  write_data_to_chain-Filling first (b ∷ bs) d allocated d' used small allocates fills =
      let xs = b ∷ bs in
      let (tail, long, links, free) =
        allocate_cluster_chain-Links device lawful (length xs) first d allocated allocates in
      let behind = behind_root device (first ∷ tail) d used free in
      let on = on_disk (first ∷ tail) behind in
      let w =
        write_data_from-Written device lawful (length xs) first tail xs allocated d' on
          (Links-Distinct device first tail allocated on links) links small (omega arith)
          (omega (arith, long)) (omega (arith, long)) fills in
      record {
        tail = tail;
        long = long;
        behind = behind;
        links =
            Links-SameTable device lawful first tail allocated d' on
              (λ s h. w.kept s (in_front s (first ∷ tail) (omega (arith, h)) behind)) links;
        untouched = λ s low out.
            w.kept s out
            ∙ allocate_cluster_chain-behind device lawful (length xs) first s d allocated low
                allocates;
        table = λ e fits busy.
            read_fat_entry-SameTable device lawful e allocated d' fits
              (λ s h. w.kept s (in_front s (first ∷ tail) (omega (arith, h)) behind))
            ∙ allocate_cluster_chain-used device lawful (length xs) first e d allocated allocates
                fits busy;
        free = free;
        stored = λ h. w.stored;
        kept = λ s low high.
            w.kept s (in_front s (first ∷ tail) high behind)
            ∙ allocate_cluster_chain-behind device lawful (length xs) first s d allocated low
                allocates;
      }

  -- The writing of the data leaves the table as it was.
  pub write_data_to_chain-table :
      (first : ℕ) (data_ : List ℕ) (d allocated d' : D)
      → read_fat_entry device root_cluster d ≢ ok fat_free
      → All (λ b. b < 256) data_
      → allocate_cluster_chain device (length data_) d ≡ (allocated, ok first)
      → write_data_to_chain device first data_ allocated ≡ (d', ok tt)
      → (s : ℕ) → s < 2080
      → device.read_sector s d' ≡ device.read_sector s allocated
  unfolding write_data_to_chain write_data_from
  write_data_to_chain-table first [] d allocated d' used small allocates fills s low =
      ap (λ x. device.read_sector s x) (sym (ap (λ r. r.0) fills))
  write_data_to_chain-table first (b ∷ bs) d allocated d' used small allocates fills s low =
      let xs = b ∷ bs in
      let (tail, long, links, free) =
        allocate_cluster_chain-Links device lawful (length xs) first d allocated allocates in
      let behind = behind_root device (first ∷ tail) d used free in
      let on = on_disk (first ∷ tail) behind in
      let w =
        write_data_from-Written device lawful (length xs) first tail xs allocated d' on
          (Links-Distinct device first tail allocated on links) links small (omega arith)
          (omega (arith, long)) (omega (arith, long)) fills in
      w.kept s (in_front s (first ∷ tail) (omega (arith, low)) behind)
