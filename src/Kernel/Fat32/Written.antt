-- ===== src/Kernel/Fat32/Written.antt =====
-- The loop of `write_data_to_chain` fills the clusters of the chain and touches nothing else.
use arona_os.Prelude.{
  ℕ, zero, suc, ◌+◌, ◌*◌, ◌<◌, ◌≤◌, ◌≡◌, ◌≢◌, refl, sym, ap, ◌∙◌, subst, ◌⊎◌, inl, Text, List, [],
  ◌∷◌, Result, ok, length, take, drop, length-drop, arith, All,
}
use arona_os.Prelude.Actions.{◌>>=◌, bind-eq-ok}
use arona_os.Kernel.Fat32.{BlockDevice, IsLawful, cluster_to_sector}
use arona_os.Kernel.Fat32.Geometry.{total_clusters}
use arona_os.Kernel.Fat32.Table.{read_fat_entry, sector_of_copy}
use arona_os.Kernel.Fat32.Entries.{read_fat_entry-cong}
use arona_os.Kernel.Fat32.Free.{Links}
use arona_os.Kernel.Fat32.Data.{write_sectors, go_on, write_data_from}
use arona_os.Kernel.Fat32.Stored.{
  Holds, Wrote, write_sectors-Wrote, cluster_to_sector-eq, byte_at-take, take_small, drop_small,
}

-- A cluster of the disk.
abbrev pub OnDisk : ℕ → Type 0
OnDisk c = (2 ≤ c) × (c < 2 + total_clusters)

abbrev pub Distinct : List ℕ → Type 0
Distinct [] = Unit
Distinct (c ∷ cs) = All (λ e. e ≢ c) cs × Distinct cs

-- The sector is none of the cluster's.
abbrev pub Outside : ℕ → ℕ → Type 0
Outside s c = (s < 2064 + c * 8) ⊎ (2072 + c * 8 ≤ s)

pub length_zero : (xs : List ℕ) → length xs ≡ 0 → xs ≡ []
length_zero [] h = refl
length_zero (x ∷ xs) h = absurd (omega (arith, h))

pub length_pos : (xs : List ℕ) → 0 < length xs → (y : ℕ) × (ys : List ℕ) × (xs ≡ y ∷ ys)
length_pos [] h = absurd (omega (arith, h))
length_pos (x ∷ xs) h = (x, xs, refl)

ok-injective : {m n : ℕ} → ◌≡◌ {A = Result ℕ Text} (ok m) (ok n) → m ≡ n
ok-injective e = cc

module _ {D : Type 0} (device : BlockDevice D) where
  -- The eight sectors of the cluster hold the first 4096 bytes of the list.
  abbrev pub Filled : D → ℕ → List ℕ → Type 0
  Filled d c xs = (i : ℕ) → i < 8 → Holds device d (2064 + c * 8 + i) (i * 512) xs

  -- The clusters of the chain hold the list, 4096 bytes each.
  abbrev pub Stored : D → ℕ → List ℕ → List ℕ → Type 0
  Stored d c [] xs = Filled d c xs
  Stored d c (e ∷ es) xs = Filled d c xs × Stored d e es (drop 4096 xs)

  -- The table, which lies in front of the data, reads the same.
  abbrev pub SameTable : D → D → Type 0
  SameTable d d' = (s : ℕ) → s < 2080 → device.read_sector s d' ≡ device.read_sector s d

module _ {D : Type 0} (device : BlockDevice D) (lawful : IsLawful device) where
  pub read_fat_entry-SameTable :
      (c : ℕ) (d d' : D)
      → c < 131072
      → SameTable device d d'
      → read_fat_entry device c d' ≡ read_fat_entry device c d
  read_fat_entry-SameTable c d d' h same =
      read_fat_entry-cong device lawful c d' d (same (sector_of_copy 0 c) (ground arith))

  pub Links-SameTable :
      (c : ℕ) (tail : List ℕ) (d d' : D)
      → All OnDisk (c ∷ tail)
      → SameTable device d d'
      → Links device d c tail
      → Links device d' c tail
  Links-SameTable c [] d d' on same l =
      read_fat_entry-SameTable c d d' (omega (arith, on.0.1)) same ∙ l
  Links-SameTable c (e ∷ es) d d' on same l = (
    read_fat_entry-SameTable c d d' (omega (arith, on.0.1)) same ∙ l.0,
    Links-SameTable e es d d' on.1 same l.1,
  )

  -- What the writing of the list into the chain leaves on the disk.
  pub record Written (c : ℕ) (tail xs : List ℕ) (d d' : D) : Type 0 where
    pub stored : Stored device d' c tail xs
    pub kept :
        (s : ℕ) → All (Outside s) (c ∷ tail) → device.read_sector s d' ≡ device.read_sector s d

  -- One cluster.
  Wrote-Filled :
      (c : ℕ) (xs : List ℕ) (d d' : D)
      → OnDisk c
      → Wrote device lawful 8 (cluster_to_sector c) 0 (take 4096 xs) d d'
      → Filled device d' c xs
  Wrote-Filled c xs d d' on w i h =
      let held = w.held i (omega arith) (omega (arith, h)) in
      let start = cluster_to_sector-eq c on.0 on.1 in
      record {
        words = held.words;
        reads = ap (λ s. device.read_sector (s + i) d') (sym start) ∙ held.reads;
        bytes = λ j k. held.bytes j k ∙ byte_at-take 4096 (i * 512 + j) xs (omega (arith, h, k));
      }

  Wrote-kept :
      (c : ℕ) (xs : List ℕ) (d d' : D) (s : ℕ)
      → OnDisk c
      → Wrote device lawful 8 (cluster_to_sector c) 0 (take 4096 xs) d d'
      → Outside s c
      → device.read_sector s d' ≡ device.read_sector s d
  Wrote-kept c xs d d' s on w out =
      let start = cluster_to_sector-eq c on.0 on.1 in w.kept s (ground (arith, start, out))

  Wrote-SameTable :
      (c : ℕ) (xs : List ℕ) (d d' : D)
      → OnDisk c
      → Wrote device lawful 8 (cluster_to_sector c) 0 (take 4096 xs) d d'
      → SameTable device d d'
  Wrote-SameTable c xs d d' on w s h = Wrote-kept c xs d d' s on w (inl (omega (arith, h, on.0)))

  -- A cluster keeps what it holds while other clusters are written.
  Filled-kept :
      (c : ℕ) (cs xs : List ℕ) (d d' : D)
      → All (λ e. e ≢ c) cs
      → ((s : ℕ) → All (Outside s) cs → device.read_sector s d' ≡ device.read_sector s d)
      → Filled device d c xs
      → Filled device d' c xs
  Filled-kept c cs xs d d' apart kept f i h =
      let held = f i h in
      record {
        words = held.words;
        reads = kept (2064 + c * 8 + i) (outside c cs i h apart) ∙ held.reads;
        bytes = held.bytes;
      }
    where
      outside :
          (c : ℕ) (cs : List ℕ) (i : ℕ)
          → i < 8
          → All (λ e. e ≢ c) cs
          → All (Outside (2064 + c * 8 + i)) cs
      outside c [] i h a = tt
      outside c (e ∷ es) i h a = (ground (arith, a.0), outside c es i h a.1)

  -- One round of the loop, and the call that is left.
  record Round (rounds c : ℕ) (xs : List ℕ) (d d' : D) : Type 0 where
    after : D
    filled : Filled device after c xs
    kept : (s : ℕ) → Outside s c → device.read_sector s after ≡ device.read_sector s d
    rest : go_on device c (write_data_from device rounds) (drop 4096 xs) after ≡ (d', ok tt)

  write_data_from-Round :
      (rounds c b : ℕ) (bs : List ℕ) (d d' : D)
      → OnDisk c
      → All (λ b. b < 256) (b ∷ bs)
      → write_data_from device (suc rounds) c (b ∷ bs) d ≡ (d', ok tt)
      → Round rounds c (b ∷ bs) d d'
  unfolding write_data_from ◌>>=◌
  write_data_from-Round rounds c b bs d d' on small h =
      let xs = b ∷ bs in
      let start = cluster_to_sector-eq c on.0 on.1 in
      let (d₁, u, wrote, rest) =
        bind-eq-ok (write_sectors device 8 (cluster_to_sector c) 0 (take 4096 xs))
          (λ _. go_on device c (write_data_from device rounds) (drop 4096 xs)) d d' tt h in
      let w =
        write_sectors-Wrote device lawful 8 (cluster_to_sector c) 0 (take 4096 xs) d d₁
          (omega (arith, start, on.1)) (take_small 4096 xs small) wrote in
      record {
        after = d₁;
        filled = Wrote-Filled c xs d d₁ on w;
        kept = λ s out. Wrote-kept c xs d d₁ s on w out;
        rest = rest;
      }

  -- The next round, on the cluster that the table names.
  go_on-next :
      (rounds c e : ℕ) (ys : List ℕ) (d d' : D)
      → 0 < length ys
      → read_fat_entry device c d ≡ ok e
      → go_on device c (write_data_from device rounds) ys d ≡ (d', ok tt)
      → write_data_from device rounds e ys d ≡ (d', ok tt)
  unfolding ◌>>=◌
  go_on-next rounds c e [] d d' pos names h = absurd (omega (arith, pos))
  go_on-next rounds c e (y ∷ ys) d d' pos names h = (rw (names, ◌>>=◌) refl) ∙ h

  -- The chain is filled, 4096 bytes in each cluster, and no other sector changes.
  pub write_data_from-Written :
      (rounds c : ℕ) (tail xs : List ℕ) (d d' : D)
      → All OnDisk (c ∷ tail)
      → Distinct (c ∷ tail)
      → Links device d c tail
      → All (λ b. b < 256) xs
      → length xs ≤ rounds
      → length tail * 4096 < length xs
      → length xs ≤ length tail * 4096 + 4096
      → write_data_from device rounds c xs d ≡ (d', ok tt)
      → Written c tail xs d d'
  write_data_from-Written rounds c tail [] d d' on apart links small enough low high h =
      absurd (omega (arith, low))
  write_data_from-Written zero c tail (b ∷ bs) d d' on apart links small enough low high h =
      absurd (omega (arith, enough))
  write_data_from-Written (suc rounds) c [] (b ∷ bs) d d' on apart links small enough low high h =
      let xs = b ∷ bs in
      let r = write_data_from-Round rounds c b bs d d' on.0 small h in
      let left = length-drop 4096 xs in
      let nil = length_zero (drop 4096 xs) (omega (arith, left, high)) in
      let done : r.after ≡ d' =
        ap (λ r. r.0)
          (subst (λ ys. go_on device c (write_data_from device rounds) ys r.after ≡ (d', ok tt)) nil
            r.rest) in
      subst (λ x. Written c [] xs d x) done
        (record { stored = r.filled; kept = λ s out. r.kept s out.0 })
  write_data_from-Written (suc rounds) c (e ∷ es) (b ∷ bs) d d' on apart links small enough low high
        h =
      let xs = b ∷ bs in
      let r = write_data_from-Round rounds c b bs d d' on.0 small h in
      let same : SameTable device d r.after = λ s h. r.kept s (inl (omega (arith, h, on.0.0))) in
      let names = read_fat_entry-SameTable c d r.after (omega (arith, on.0.1)) same ∙ links.0 in
      let left = length-drop 4096 xs in
      let rest =
        go_on-next rounds c e (drop 4096 xs) r.after d' (omega (arith, left, low)) names r.rest in
      let w =
        write_data_from-Written rounds e es (drop 4096 xs) r.after d' on.1 apart.1
          (Links-SameTable e es d r.after on.1 same links.1) (drop_small 4096 xs small)
          (omega (arith, left, enough)) (omega (arith, left, low)) (omega (arith, left, high))
          rest in
      record {
        stored = (Filled-kept c (e ∷ es) xs r.after d' apart.0 w.kept r.filled, w.stored);
        kept = λ s out. w.kept s out.1 ∙ r.kept s out.0;
      }
