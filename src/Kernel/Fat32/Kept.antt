-- ===== src/Kernel/Fat32/Kept.antt =====
-- What an allocation leaves as it was behind the table, and why the clusters of a chain differ.
use arona_os.Prelude.{
  ℕ, zero, suc, ◌+◌, ◌-◌, ◌<◌, ◌≤◌, ◌≡◌, ◌≢◌, refl, sym, ap, ◌∙◌, subst, Text, List, [], ◌∷◌,
  Result, ok, length, arith, All, Option, none, some, ◌>>=◌,
}
use arona_os.Kernel.Fat32.{Words, Bytes, BlockDevice, IsLawful, words_to_bytes}
use arona_os.Kernel.Fat32.Table.{write_fat_entry}
use arona_os.Kernel.Fat32.Entries.{write_fat_entry-eq-ok, read_sector-write_copy_other}
use arona_os.Kernel.Fat32.Free.{
  fat_eoc, needed_clusters, append_clusters, allocate_cluster_chain, Links,
  find_free_cluster-IsFree,
}
use arona_os.Kernel.Fat32.Chain.{append_clusters-Pass, allocate_cluster_chain-Allocation}
use arona_os.Kernel.Fat32.Written.{OnDisk, Distinct}
use arona_os.Kernel.Fat32.Directory.{find_name, first_cluster_of, file_size_of}
use arona_os.Kernel.Fat32.Lookup.{look_up}

end_on_disk : (y : ℕ) → OnDisk y → ◌≢◌ {A = Result ℕ Text} (ok fat_eoc) (ok y)
end_on_disk y on e = let same : fat_eoc ≡ y = cc in omega (arith, same, on.1)

module _ {D : Type 0} (device : BlockDevice D) where
  -- Two chains from one cluster have the same length.
  Links-length :
      (c : ℕ) (xs ys : List ℕ) (d : D)
      → All OnDisk xs
      → All OnDisk ys
      → Links device d c xs
      → Links device d c ys
      → length xs ≡ length ys
  Links-length c [] [] d on on' l l' = refl
  Links-length c [] (y ∷ ys) d on on' l l' = absurd (end_on_disk y on'.0 (sym l ∙ l'.0))
  Links-length c (x ∷ xs) [] d on on' l l' = absurd (end_on_disk x on.0 (sym l' ∙ l.0))
  Links-length c (x ∷ xs) (y ∷ ys) d on on' l l' =
      let same : x ≡ y = cc (l.0, l'.0) in
      ap suc
        (Links-length x xs ys d on.1 on'.1 l.1 (subst (λ z. Links device d z ys) (sym same) l'.1))

  longer :
      (c : ℕ) (cs es : List ℕ) (d : D)
      → All OnDisk cs
      → All OnDisk es
      → length es < length cs
      → Links device d c cs
      → ¬ Links device d c es
  longer c cs es d on on' short l l' = omega (arith, short, Links-length c cs es d on on' l l')

  -- A cluster from which a longer chain starts is not on this one.
  Links-apart :
      (c : ℕ) (cs : List ℕ) (e : ℕ) (es : List ℕ) (d : D)
      → All OnDisk cs
      → All OnDisk (e ∷ es)
      → length es < length cs
      → Links device d c cs
      → Links device d e es
      → All (λ x. x ≢ c) (e ∷ es)
  Links-apart c cs e [] d on on' short l l' =
      (λ q. longer c cs [] d on tt short l (subst (λ x. Links device d x []) q l'), tt)
  Links-apart c cs e (x ∷ xs) d on on' short l l' = (
    λ q. longer c cs (x ∷ xs) d on on'.1 short l (subst (λ x'. Links device d x' (x ∷ xs)) q l'),
    Links-apart c cs x xs d on on'.1 (omega (arith, short)) l l'.1,
  )

  -- The clusters of a chain are different.
  pub Links-Distinct :
      (c : ℕ) (tail : List ℕ) (d : D)
      → All OnDisk (c ∷ tail)
      → Links device d c tail
      → Distinct (c ∷ tail)
  Links-Distinct c [] d on l = (tt, tt)
  Links-Distinct c (e ∷ es) d on l =
      (Links-apart c (e ∷ es) e es d on.1 on.1 (omega arith) l l.1, Links-Distinct e es d on.1 l.1)

  -- A look-up reads the sectors of the directory only.
  pub look_up-cong :
      (count sector : ℕ) (short : Bytes) (d d' : D)
      → ((s : ℕ)
          → sector ≤ s
          → s < sector + count
          → device.read_sector s d' ≡ device.read_sector s d)
      → look_up device count sector short d' ≡ look_up device count sector short d
  unfolding look_up
  look_up-cong zero sector short d d' same = refl
  look_up-cong (suc count) sector short d d' same =
      let here = same sector (omega arith) (omega arith) in
      let rest =
        look_up-cong count (sector + 1) short d d'
          (λ s a b. same s (omega (arith, a)) (omega (arith, b))) in
      let step : Result (Option (ℕ × ℕ)) Text → Words → Result (Option (ℕ × ℕ)) Text =
        λ later words. elim (find_name 16 0 short (words_to_bytes words)) [
          | some start ↦ ok (
              some (
                first_cluster_of start (words_to_bytes words),
                file_size_of start (words_to_bytes words),
              ))
          | none ↦ later
        ] in
      ap (λ r. r >>= step (look_up device count (sector + 1) short d')) here
      ∙ ap (λ later. device.read_sector sector d >>= step later) rest

module _ {D : Type 0} (device : BlockDevice D) (lawful : IsLawful device) where
  write_fat_entry-behind :
      (c v s : ℕ) (d d' : D)
      → c < 131072
      → 2080 ≤ s
      → write_fat_entry device c v d ≡ (d', ok tt)
      → device.read_sector s d' ≡ device.read_sector s d
  write_fat_entry-behind c v s d d' h far e =
      let (d₁, first, second) = write_fat_entry-eq-ok device lawful c v d d' e in
      read_sector-write_copy_other device lawful 1 c v s d₁ d' second (ground (arith, h, far))
      ∙ read_sector-write_copy_other device lawful 0 c v s d d₁ first (ground (arith, h, far))

  append_clusters-behind :
      (count prev s : ℕ) (d d' : D)
      → prev < 131072
      → 2080 ≤ s
      → append_clusters device count prev d ≡ (d', ok tt)
      → device.read_sector s d' ≡ device.read_sector s d
  unfolding append_clusters
  append_clusters-behind zero prev s d d' small far h =
      ap (λ x. device.read_sector s x) (sym (ap (λ r. r.0) h))
  append_clusters-behind (suc count) prev s d d' small far h =
      let p = append_clusters-Pass device lawful count prev d d' h in
      let free = find_free_cluster-IsFree device p.next d p.found in
      let next : p.next < 131072 = omega (arith, free.1) in
      append_clusters-behind count p.next s p.ended d' next far p.rest
      ∙ (write_fat_entry-behind p.next fat_eoc s p.linked p.ended next far p.ends
          ∙ write_fat_entry-behind prev p.next s d p.linked small far p.links)

  pub allocate_cluster_chain-behind :
      (byte_len first s : ℕ) (d d' : D)
      → 2080 ≤ s
      → allocate_cluster_chain device byte_len d ≡ (d', ok first)
      → device.read_sector s d' ≡ device.read_sector s d
  allocate_cluster_chain-behind byte_len first s d d' far h =
      let a = allocate_cluster_chain-Allocation device lawful byte_len first d d' h in
      let free = find_free_cluster-IsFree device first d a.found in
      let small : first < 131072 = omega (arith, free.1) in
      append_clusters-behind (needed_clusters byte_len - 1) first s a.marked d' small far a.rest
      ∙ write_fat_entry-behind first fat_eoc s d a.marked small far a.ends
