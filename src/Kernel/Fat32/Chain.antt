-- ===== src/Kernel/Fat32/Chain.antt =====
-- The chain of clusters that `allocate_cluster_chain` makes.
use arona_os.Prelude.{
  ℕ, zero, suc, ◌+◌, ◌-◌, ◌^◌, ◌%◌, ◌<◌, ◌≡◌, ◌≢◌, refl, sym, ap, ◌∙◌, subst, Text, Result, ok,
  List, [], ◌∷◌, length, arith, All,
}
use arona_os.Prelude.Actions.{bind-eq-ok, Action, ◌>>=◌, lift}
use arona_os.Kernel.Fat32.{BlockDevice, IsLawful}
use arona_os.Kernel.Fat32.Geometry.{total_clusters}
use arona_os.Kernel.Fat32.Table.{read_fat_entry, write_fat_entry}
use arona_os.Kernel.Fat32.Entries.{
  read_fat_entry-write_fat_entry, read_fat_entry-write_fat_entry_other,
}
use arona_os.Kernel.Fat32.Free.{
  fat_eoc, fat_free, needed_clusters, find_free_cluster, append_clusters, allocate_cluster_chain,
  IsFree, Links, find_free_cluster-IsFree,
}

differs : (m n : ℕ) → m ≢ n → ◌≢◌ {A = Result ℕ Text} (ok m) (ok n)
differs m n h e = h (cc)

ok-injective : {m n : ℕ} → ◌≡◌ {A = Result ℕ Text} (ok m) (ok n) → m ≡ n
ok-injective e = cc

All-map : {P Q : ℕ → Type 0} → ((e : ℕ) → P e → Q e) → (es : List ℕ) → All P es → All Q es
All-map f [] h = tt
All-map f (e ∷ es) h = (f e h.0, All-map f es h.1)

module _ {D : Type 0} (device : BlockDevice D) (lawful : IsLawful device) where
  -- How the appending of `count` clusters behind `prev` leaves the table.
  record Appended (count prev : ℕ) (d d' : D) : Type 0 where
    tail : List ℕ
    long : length tail ≡ count
    links : Links device d' prev tail
    free : All (IsFree device d) tail
    kept :
        (e : ℕ)
        → e < 131072
        → e ≢ prev
        → read_fat_entry device e d ≢ ok fat_free
        → read_fat_entry device e d' ≡ read_fat_entry device e d

  -- The steps of a pass that succeeds, and what is left to append.
  pub record Pass (count prev : ℕ) (d d' : D) : Type 0 where
    pub next : ℕ
    pub linked : D
    pub ended : D
    pub found : find_free_cluster device d ≡ ok next
    pub links : write_fat_entry device prev next d ≡ (linked, ok tt)
    pub ends : write_fat_entry device next fat_eoc linked ≡ (ended, ok tt)
    pub rest : append_clusters device count next ended ≡ (d', ok tt)

  pub append_clusters-Pass :
      (count prev : ℕ) (d d' : D)
      → append_clusters device (suc count) prev d ≡ (d', ok tt)
      → Pass count prev d d'
  unfolding append_clusters ◌>>=◌
  append_clusters-Pass count prev d d' h =
      let close : ℕ → Action D Text (Unit {0}) =
        λ next. write_fat_entry device next fat_eoc >>= λ _. append_clusters device count next in
      let (d₀, next, found, h₀) =
        bind-eq-ok (λ x. (x, find_free_cluster device x))
          (λ next. write_fat_entry device prev next >>= λ _. close next) d d' tt h in
      let (d₁, u, linked, h₁) =
        bind-eq-ok (write_fat_entry device prev next) (λ _. close next) d₀ d' tt h₀ in
      let (d₂, v, ended, h₂) =
        bind-eq-ok (write_fat_entry device next fat_eoc) (λ _. append_clusters device count next) d₁
          d' tt h₁ in
      let same : d ≡ d₀ = ap (λ r. r.0) found in
      record {
        next = next;
        linked = d₁;
        ended = d₂;
        found = ap (λ r. r.1) found;
        links = subst (λ x. write_fat_entry device prev next x ≡ (d₁, ok tt)) (sym same) linked;
        ends = ended;
        rest = h₂;
      }

  append_clusters-Appended :
      (count prev : ℕ) (d d' : D)
      → prev < 2 + total_clusters
      → read_fat_entry device prev d ≡ ok fat_eoc
      → append_clusters device count prev d ≡ (d', ok tt)
      → Appended count prev d d'
  unfolding append_clusters
  append_clusters-Appended zero prev d d' small end h =
      let same : d ≡ d' = ap (λ r. r.0) h in
      record {
        tail = [];
        long = refl;
        links = subst (λ x. read_fat_entry device prev x ≡ ok fat_eoc) same end;
        free = tt;
        kept = λ e _ _ _. ap (λ x. read_fat_entry device e x) (sym same);
      }
  append_clusters-Appended (suc count) prev d d' small end h =
      let p = append_clusters-Pass count prev d d' h in
      let next_free = find_free_cluster-IsFree device p.next d p.found in
      let fresh : prev ≢ p.next =
        λ e. cc (ap (λ x. read_fat_entry device x d) e, end, next_free.2) in
      let read_prev₁ =
        read_fat_entry-write_fat_entry device lawful prev p.next d p.linked (omega arith) p.links in
      let read_prev₂ =
        read_fat_entry-write_fat_entry_other device lawful p.next prev fat_eoc p.linked p.ended
          (omega arith) (omega arith) (λ e. fresh (sym e)) p.ends in
      let read_next₂ =
        read_fat_entry-write_fat_entry device lawful p.next fat_eoc p.linked p.ended (omega arith)
          p.ends in
      let r = append_clusters-Appended count p.next p.ended d' (omega arith) read_next₂ p.rest in
      let number : p.next % 2 ^ 28 ≡ p.next = omega (arith, next_free.1) in
      let prev_names : read_fat_entry device prev p.ended ≡ ok p.next =
        read_prev₂ ∙ (read_prev₁ ∙ ap ok number) in
      let prev_used : read_fat_entry device prev p.ended ≢ ok fat_free =
        λ e. differs p.next fat_free (omega (arith, next_free.0)) (sym prev_names ∙ e) in
      let unchanged : (e : ℕ)
          → e < 131072
          → e ≢ prev
          → e ≢ p.next
          → read_fat_entry device e p.ended ≡ read_fat_entry device e d =
        λ e fits a b.
          read_fat_entry-write_fat_entry_other device lawful p.next e fat_eoc p.linked p.ended
            (omega (arith, next_free.1)) fits (λ q. b (sym q)) p.ends
          ∙ read_fat_entry-write_fat_entry_other device lawful prev e p.next d p.linked
              (omega (arith, small)) fits (λ q. a (sym q)) p.links in
      record {
        tail = p.next ∷ r.tail;
        long = ap suc r.long;
        links = (r.kept prev (omega (arith, small)) fresh prev_used ∙ prev_names, r.links);
        free = (
          next_free,
          All-map
              (λ e f. (
                f.0,
                f.1,
                sym (
                      unchanged e (omega (arith, f.1))
                        (λ q. prev_used (ap (λ x. read_fat_entry device x p.ended) (sym q) ∙ f.2))
                        (λ q. differs (fat_eoc % 2 ^ 28) fat_free (omega arith) (
                          sym read_next₂
                          ∙ (ap (λ x. read_fat_entry device x p.ended) (sym q) ∙ f.2))))
                    ∙ f.2,
              ))
              r.tail r.free,
        );
        kept = λ e fits other used.
            let not_next : e ≢ p.next =
              λ q. used (ap (λ x. read_fat_entry device x d) q ∙ next_free.2) in
            let still = unchanged e fits other not_next in
            r.kept e fits not_next (λ q. used (sym still ∙ q)) ∙ still;
      }

  -- The steps of an allocation that succeeds.
  pub record Allocation (byte_len first : ℕ) (d d' : D) : Type 0 where
    pub marked : D
    pub found : find_free_cluster device d ≡ ok first
    pub ends : write_fat_entry device first fat_eoc d ≡ (marked, ok tt)
    pub rest : append_clusters device (needed_clusters byte_len - 1) first marked ≡ (d', ok tt)

  pub allocate_cluster_chain-Allocation :
      (byte_len first : ℕ) (d d' : D)
      → allocate_cluster_chain device byte_len d ≡ (d', ok first)
      → Allocation byte_len first d d'
  unfolding allocate_cluster_chain ◌>>=◌
  allocate_cluster_chain-Allocation byte_len first d d' h =
      let append : ℕ → Action D Text ℕ =
        λ c. append_clusters device (needed_clusters byte_len - 1) c >>= λ _. lift (ok c) in
      let (d₀, c, found, h₀) =
        bind-eq-ok (λ x. (x, find_free_cluster device x))
          (λ c. write_fat_entry device c fat_eoc >>= λ _. append c) d d' first h in
      let (d₁, u, ended, h₁) =
        bind-eq-ok (write_fat_entry device c fat_eoc) (λ _. append c) d₀ d' first h₀ in
      let (d₂, v, appended, h₂) =
        bind-eq-ok (append_clusters device (needed_clusters byte_len - 1) c) (λ _. lift (ok c)) d₁
          d' first h₁ in
      let same : d ≡ d₀ = ap (λ r. r.0) found in
      let name : c ≡ first = ok-injective (ap (λ r. r.1) h₂) in
      record {
        marked = d₁;
        found = ap (λ r. r.1) found ∙ ap ok name;
        ends =
            subst (λ x. write_fat_entry device x fat_eoc d ≡ (d₁, ok tt)) name
              (subst (λ x. write_fat_entry device c fat_eoc x ≡ (d₁, ok tt)) (sym same) ended);
        rest =
            subst (λ x. append_clusters device (needed_clusters byte_len - 1) x d₁ ≡ (d', ok tt))
              name (appended ∙ ap (λ x. (x, ok tt)) (ap (λ r. r.0) h₂));
      }

  -- An allocation that succeeds on a lawful device makes a chain of as many clusters as the bytes
  -- need, at least one; all of them lie on the disk and were free; the entry of each names the
  -- next, and that of the last one is the end mark.
  pub allocate_cluster_chain-Links :
      (byte_len first : ℕ) (d d' : D)
      → allocate_cluster_chain device byte_len d ≡ (d', ok first)
      → (tail : List ℕ) × (1 + length tail ≡ needed_clusters byte_len)
        × Links device d' first tail
        × All (IsFree device d) (first ∷ tail)
  allocate_cluster_chain-Links byte_len first d d' h =
      let a = allocate_cluster_chain-Allocation byte_len first d d' h in
      let first_free = find_free_cluster-IsFree device first d a.found in
      let ends =
        read_fat_entry-write_fat_entry device lawful first fat_eoc d a.marked
          (omega (arith, first_free.1)) a.ends in
      let r =
        append_clusters-Appended (needed_clusters byte_len - 1) first a.marked d' first_free.1 ends
          a.rest in
      (
        r.tail,
        omega (arith, r.long),
        r.links,
        (
          first_free,
          All-map
              (λ e f. (
                f.0,
                f.1,
                sym (
                      read_fat_entry-write_fat_entry_other device lawful first e fat_eoc d a.marked
                        (omega (arith, first_free.1)) (omega (arith, f.1))
                        (λ q.
                          differs (fat_eoc % 2 ^ 28) fat_free (omega arith)
                            (sym ends ∙ (ap (λ x. read_fat_entry device x a.marked) q ∙ f.2)))
                        a.ends)
                    ∙ f.2,
              ))
              r.tail r.free,
        ),
      )

  -- An allocation that succeeds on a lawful device leaves every entry of the table (below 131072)
  -- as it was that did not read as free.
  pub allocate_cluster_chain-used :
      (byte_len first e : ℕ) (d d' : D)
      → allocate_cluster_chain device byte_len d ≡ (d', ok first)
      → e < 131072
      → read_fat_entry device e d ≢ ok fat_free
      → read_fat_entry device e d' ≡ read_fat_entry device e d
  allocate_cluster_chain-used byte_len first e d d' h fits used =
      let a = allocate_cluster_chain-Allocation byte_len first d d' h in
      let first_free = find_free_cluster-IsFree device first d a.found in
      let ends =
        read_fat_entry-write_fat_entry device lawful first fat_eoc d a.marked
          (omega (arith, first_free.1)) a.ends in
      let r =
        append_clusters-Appended (needed_clusters byte_len - 1) first a.marked d' first_free.1 ends
          a.rest in
      let other : e ≢ first = λ q. used (ap (λ x. read_fat_entry device x d) q ∙ first_free.2) in
      let still =
        read_fat_entry-write_fat_entry_other device lawful first e fat_eoc d a.marked
          (omega (arith, first_free.1)) fits (λ q. other (sym q)) a.ends in
      r.kept e fits other (λ q. used (sym still ∙ q)) ∙ still
