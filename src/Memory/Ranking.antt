-- ===== src/Memory/Ranking.antt =====
-- The ranking of the hits of a search.
use mathlib.Core.List.{Perm}
use mathlib.Core.List.Perm
use arona_os.Prelude.{
  ℕ, zero, suc, ◌≤◌, ◌≡◌, refl, List, [], ◌∷◌, keep, length, arith, ltb, Bool-cases, inl, inr, All,
}
use arona_os.Memory.Search.{
  SearchHit, total_place, insert_hit, sort_hits, truncate, is_relevant, rank,
}

-- The scores fall, in the order of `f64::total_cmp`.
abbrev AtMost : SearchHit → SearchHit → Type 0
AtMost x h = total_place h.combined_score ≤ total_place x.combined_score

abbrev pub IsFalling : List SearchHit → Type 0
IsFalling [] = Unit
IsFalling (h ∷ hs) = All (AtMost h) hs × IsFalling hs

insert_hit-All :
    (x h : SearchHit) (hs : List SearchHit)
    → AtMost x h
    → All (AtMost x) hs
    → All (AtMost x) (insert_hit h hs)
unfolding insert_hit
insert_hit-All x h [] a b = (a, tt)
insert_hit-All x h (y ∷ ys) a b =
    elim (Bool-cases (ltb (total_place h.combined_score) (total_place y.combined_score))) [
      | inl less ↦ rw less (b.0, insert_hit-All x h ys a b.1)
      | inr not_less ↦ rw not_less (a, b)
    ]

All-AtMost :
    (x h : SearchHit) (hs : List SearchHit) → AtMost x h → All (AtMost h) hs → All (AtMost x) hs
All-AtMost x h [] a b = tt
All-AtMost x h (y ∷ ys) a b = (omega (arith, b.0), All-AtMost x h ys a b.1)

insert_hit-IsFalling :
    (h : SearchHit) (hs : List SearchHit) → IsFalling hs → IsFalling (insert_hit h hs)
unfolding insert_hit
insert_hit-IsFalling h [] f = (tt, tt)
insert_hit-IsFalling h (x ∷ xs) f =
    elim (Bool-cases (ltb (total_place h.combined_score) (total_place x.combined_score))) [
      | inl less ↦ rw less (insert_hit-All x h xs (ground arith) f.0, insert_hit-IsFalling h xs f.1)
      | inr not_less ↦
          let below : AtMost h x = ground arith in
          rw not_less ((below, All-AtMost h x xs below f.0), f)
    ]

insert_hit-perm : (h : SearchHit) (hs : List SearchHit) → Perm (insert_hit h hs) (h ∷ hs)
unfolding insert_hit
insert_hit-perm h [] = Perm.refl (h ∷ [])
insert_hit-perm h (x ∷ xs) =
    elim (Bool-cases (ltb (total_place h.combined_score) (total_place x.combined_score))) [
      | inl less ↦ rw less (Perm.trans (Perm.cons x (insert_hit-perm h xs)) (Perm.swap h x xs))
      | inr not_less ↦ rw not_less (Perm.refl (h ∷ x ∷ xs))
    ]

sort_hits-IsFalling : (hs : List SearchHit) → IsFalling (sort_hits hs)
unfolding sort_hits
sort_hits-IsFalling [] = tt
sort_hits-IsFalling (h ∷ hs) = insert_hit-IsFalling h (sort_hits hs) (sort_hits-IsFalling hs)

sort_hits-perm : (hs : List SearchHit) → Perm (sort_hits hs) hs
unfolding sort_hits
sort_hits-perm [] = Perm.refl []
sort_hits-perm (h ∷ hs) =
    Perm.trans (insert_hit-perm h (sort_hits hs)) (Perm.cons h (sort_hits-perm hs))

length-truncate : (n : ℕ) (hs : List SearchHit) → length (truncate n hs) ≤ n
unfolding truncate
length-truncate zero hs = omega arith
length-truncate (suc n) [] = omega arith
length-truncate (suc n) (h ∷ hs) = omega (arith, length-truncate n hs)

-- The answer of a search is the front, of at most `limit` hits, of a list that holds exactly the
-- hits with a relevance above 0, with the combined scores falling.
pub rank-sorted :
    (limit : ℕ) (hits : List SearchHit)
    → (s : List SearchHit) × (rank limit hits ≡ truncate limit s)
      × Perm s (keep is_relevant hits)
      × IsFalling s
      × (length (rank limit hits) ≤ limit)
unfolding rank
rank-sorted limit hits = (
  sort_hits (keep is_relevant hits),
  refl,
  sort_hits-perm (keep is_relevant hits),
  sort_hits-IsFalling (keep is_relevant hits),
  length-truncate limit (sort_hits (keep is_relevant hits)),
)
