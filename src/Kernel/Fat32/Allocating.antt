-- ===== src/Kernel/Fat32/Allocating.antt =====
-- `allocate_cluster_chain` on a device that never fails, with and without enough free clusters.
use arona_os.Prelude.{
  ℕ, zero, suc, ◌+◌, ◌-◌, ◌<◌, ◌≤◌, ◌≡◌, ◌≢◌, refl, sym, ap, ◌∙◌, inl, inr, Text, codes, Result, ok,
  err, arith, nat_eq, Bool-cases,
}
use arona_os.Prelude.Actions.{Action, ◌>>=◌, bind_ok, lift}
use arona_os.Kernel.Fat32.{BlockDevice, IsLawful}
use arona_os.Kernel.Fat32.Geometry.{total_clusters}
use arona_os.Kernel.Fat32.Table.{read_fat_entry, write_fat_entry}
use arona_os.Kernel.Fat32.Entries.{
  read_fat_entry-write_fat_entry, read_fat_entry-write_fat_entry_other,
}
use arona_os.Kernel.Fat32.Free.{
  fat_eoc, needed_clusters, find_free_cluster, append_clusters, allocate_cluster_chain, IsFree,
  find_free_cluster-IsFree,
}
use arona_os.Kernel.Fat32.Space.{
  IsReliable, free_number, free_clusters, write_fat_entry_total, find_free_cluster_total,
  find_free_cluster_none, free_clusters-marked, free_clusters-linked,
}

abbrev pub disk_full : Text
disk_full = codes "空きクラスタが見つかりません(ディスクフル)"

-- A step that fails ends the action.
bind_err :
    {D X A B : Type 0} (m : Action D X A) (f : A → Action D X B) (d d₁ : D) (x : X)
    → m d ≡ (d₁, err x)
    → (m >>= f) d ≡ (d₁, err x)
unfolding ◌>>=◌
bind_err {D = D} {X = X} {B = B} m f d d₁ x h =
    ap (λ r. elim r.1 as (λ _. D × Result B X) [ ok a ↦ f a r.0 | err x ↦ (r.0, err x) ]) h

module _ {D : Type 0} (device : BlockDevice D) (lawful : IsLawful device)
    (reliable : IsReliable device) where
  -- A cluster that was free is the end of a chain now.
  record Ended (c : ℕ) (d d' : D) : Type 0 where
    small : c < 2 + total_clusters
    low : 2 ≤ c
    end : read_fat_entry device c d' ≡ ok fat_eoc
    space : free_clusters device d' + 1 ≡ free_clusters device d

  marked-Ended :
      (c : ℕ) (d linked d' : D)
      → IsFree device d c
      → IsFree device linked c
      → free_clusters device linked ≡ free_clusters device d
      → write_fat_entry device c fat_eoc linked ≡ (d', ok tt)
      → Ended c d d'
  marked-Ended c d linked d' free still same h = record {
    small = free.1;
    low = free.0;
    end =
        read_fat_entry-write_fat_entry device lawful c fat_eoc linked d' (omega (arith, free.1)) h;
    space = free_clusters-marked device lawful c linked d' still h ∙ same;
  }

  -- A pass of the loop that appends.
  append_pass :
      (count prev : ℕ) (d : D)
      → 2 ≤ prev
      → prev < 2 + total_clusters
      → read_fat_entry device prev d ≡ ok fat_eoc
      → 0 < free_clusters device d
      → (next : ℕ) × (ended : D) × Ended next d ended
        × (append_clusters device (suc count) prev d ≡ append_clusters device count next ended)
  unfolding append_clusters
  append_pass count prev d low small end space =
      let (next, found) = find_free_cluster_total device reliable d space in
      let free = find_free_cluster-IsFree device next d found in
      let (linked, links) = write_fat_entry_total device reliable prev next d in
      let (ended, ends) = write_fat_entry_total device reliable next fat_eoc linked in
      let close : ℕ → Action D Text (Unit {0}) =
        λ next. write_fat_entry device next fat_eoc >>= λ _. append_clusters device count next in
      let apart : next ≢ prev =
        λ e. absurd (cc (ap (λ x. read_fat_entry device x d) e, end, free.2)) in
      let still =
        read_fat_entry-write_fat_entry_other device lawful prev next next d linked
          (omega (arith, small)) (omega (arith, free.1)) (λ e. apart (sym e)) links
        ∙ free.2 in
      let same =
        free_clusters-linked device lawful prev next d linked small free.0 free.1
          (ap free_number end) links in
      (
        next,
        ended,
        marked-Ended next d linked ended free (free.0, free.1, still) same ends,
        bind_ok (λ x. (x, find_free_cluster device x))
              (λ next. write_fat_entry device prev next >>= λ _. close next) d d next
              (ap (λ r. (d, r)) found)
            ∙ (bind_ok (write_fat_entry device prev next) (λ _. close next) d linked tt links
                ∙ bind_ok (write_fat_entry device next fat_eoc)
                    (λ _. append_clusters device count next) linked ended tt ends),
      )

  append_clusters_total :
      (count prev : ℕ) (d : D)
      → 2 ≤ prev
      → prev < 2 + total_clusters
      → read_fat_entry device prev d ≡ ok fat_eoc
      → count ≤ free_clusters device d
      → (d' : D) × (append_clusters device count prev d ≡ (d', ok tt))
        × (free_clusters device d' + count ≡ free_clusters device d)
  unfolding append_clusters
  append_clusters_total zero prev d low small end space = (d, refl, omega arith)
  append_clusters_total (suc count) prev d low small end space =
      let (next, ended, now, pass) =
        append_pass count prev d low small end (omega (arith, space)) in
      let (d', rest, left) =
        append_clusters_total count next ended now.low now.small now.end
          (omega (arith, space, now.space)) in
      (d', pass ∙ rest, omega (arith, left, now.space))

  append_clusters_full :
      (count prev : ℕ) (d : D)
      → 2 ≤ prev
      → prev < 2 + total_clusters
      → read_fat_entry device prev d ≡ ok fat_eoc
      → free_clusters device d < count
      → (d' : D) × (append_clusters device count prev d ≡ (d', err disk_full))
        × (free_clusters device d' ≡ 0)
  unfolding append_clusters
  append_clusters_full zero prev d low small end space = absurd (omega (arith, space))
  append_clusters_full (suc count) prev d low small end space =
      elim (Bool-cases (nat_eq (free_clusters device d) 0)) [
        | inl full ↦
            let none_left : free_clusters device d ≡ 0 = ground (arith, full) in
            let append : ℕ → Action D Text (Unit {0}) = λ next.
              write_fat_entry device prev next >>= λ _.
              write_fat_entry device next fat_eoc >>= λ _. append_clusters device count next in
            (
              d,
              bind_err (λ x. (x, find_free_cluster device x)) append d d disk_full
                  (ap (λ r. (d, r)) (find_free_cluster_none device reliable d none_left)),
              none_left,
            )
        | inr more ↦
            let (next, ended, now, pass) =
              append_pass count prev d low small end (ground (arith, more)) in
            let (d', rest, left) =
              append_clusters_full count next ended now.low now.small now.end
                (omega (arith, space, now.space)) in
            (d', pass ∙ rest, left)
      ]

  -- The first cluster of a chain.
  first_pass :
      (byte_len : ℕ) (d : D)
      → 0 < free_clusters device d
      → (first : ℕ) × (marked : D) × Ended first d marked
        × (allocate_cluster_chain device byte_len d
            ≡ (append_clusters device (needed_clusters byte_len - 1) first >>= λ _. lift (ok first))
                marked)
  unfolding allocate_cluster_chain
  first_pass byte_len d space =
      let (first, found) = find_free_cluster_total device reliable d space in
      let free = find_free_cluster-IsFree device first d found in
      let (marked, ends) = write_fat_entry_total device reliable first fat_eoc d in
      let append : ℕ → Action D Text ℕ =
        λ c. append_clusters device (needed_clusters byte_len - 1) c >>= λ _. lift (ok c) in
      (
        first,
        marked,
        marked-Ended first d d marked free free refl ends,
        bind_ok (λ x. (x, find_free_cluster device x))
              (λ c. write_fat_entry device c fat_eoc >>= λ _. append c) d d first
              (ap (λ r. (d, r)) found)
            ∙ bind_ok (write_fat_entry device first fat_eoc) (λ _. append first) d marked tt ends,
      )

  -- On a lawful device that never fails, an allocation succeeds where at least as many clusters are
  -- free as the bytes need, and it takes exactly that many.
  pub allocate_cluster_chain_total :
      (byte_len : ℕ) (d : D)
      → needed_clusters byte_len ≤ free_clusters device d
      → (first : ℕ) × (d' : D) × (allocate_cluster_chain device byte_len d ≡ (d', ok first))
        × (free_clusters device d' + needed_clusters byte_len ≡ free_clusters device d)
  allocate_cluster_chain_total byte_len d space =
      let (first, marked, now, pass) = first_pass byte_len d (omega (arith, space)) in
      let (d', appended, left) =
        append_clusters_total (needed_clusters byte_len - 1) first marked now.low now.small now.end
          (omega (arith, space, now.space)) in
      (
        first,
        d',
        pass
            ∙ bind_ok (append_clusters device (needed_clusters byte_len - 1) first)
                (λ _. lift (ok first)) marked d' tt appended,
        omega (arith, left, now.space),
      )

  -- On a lawful device that never fails, `allocate_cluster_chain` for more bytes than the free
  -- clusters hold answers the error of a full disk, and no cluster of the disk is free afterwards:
  -- those that were have been taken.
  pub allocate_cluster_chain_full :
      (byte_len : ℕ) (d : D)
      → free_clusters device d < needed_clusters byte_len
      → (d' : D) × (allocate_cluster_chain device byte_len d ≡ (d', err disk_full))
        × (free_clusters device d' ≡ 0)
  unfolding allocate_cluster_chain
  allocate_cluster_chain_full byte_len d space =
      elim (Bool-cases (nat_eq (free_clusters device d) 0)) [
        | inl full ↦
            let none_left : free_clusters device d ≡ 0 = ground (arith, full) in
            let append : ℕ → Action D Text ℕ = λ c. write_fat_entry device c fat_eoc >>= λ _.
            append_clusters device (needed_clusters byte_len - 1) c >>= λ _. lift (ok c) in
            (
              d,
              bind_err (λ x. (x, find_free_cluster device x)) append d d disk_full
                  (ap (λ r. (d, r)) (find_free_cluster_none device reliable d none_left)),
              none_left,
            )
        | inr more ↦
            let (first, marked, now, pass) = first_pass byte_len d (ground (arith, more)) in
            let (d', failed, left) =
              append_clusters_full (needed_clusters byte_len - 1) first marked now.low now.small
                now.end (omega (arith, space, now.space)) in
            (
              d',
              pass
                  ∙ bind_err (append_clusters device (needed_clusters byte_len - 1) first)
                      (λ _. lift (ok first)) marked d' disk_full failed,
              left,
            )
      ]
