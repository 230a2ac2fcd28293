-- ===== src/Memory/Examples.antt =====
-- Tests of the memory: a database that is a list of entries, and records that stand for their own
-- serialised text.
use arona_os.Prelude.{
  ◌+◌, ◌-◌, ◌^◌, ◌≤◌, ◌≡◌, ◌≢◌, refl, sym, ap, subst, ◌∙◌, ◌⊎◌, Text, text_eq, text_eq_iff, nat_eq,
  nat_eq_iff, codes, f64_gt, Bool, ◌&&◌, List, [], ◌∷◌, ◌++◌, Option, none, some, Result, ok, keep,
  arith, if◌then◌else◌, length,
}
use mathlib.Core.List.{Perm}
use Prim.Native.Nat.{min}
use arona_os.Guardian.{Uuid}
use arona_os.Memory.{user, tree_name, new_recall, MemoryRecord, Arithmetic, touch}
use arona_os.Memory.Store.{Sled, Serde, IsLawful, put, get, recall, ◌>>=◌}
use arona_os.Memory.RoundTrip.{get-put, recall_strengthens}
use arona_os.Memory.Search.{SearchHit, is_relevant, insert_hit, sort_hits, rank, truncate}
use arona_os.Memory.Ranking.{IsFalling, rank-sorted}
use arona_os.Memory.Context.{adopted, rough_token_estimate, cost, NextTooLong, adopted-fits}

abbrev pub Entry : Type 0
Entry = Text × (Uuid × MemoryRecord)

abbrev pub Entries : Type 0
Entries = List Entry

abbrev is_at : Text → Uuid → Entry → Bool
is_at t k e = text_eq e.0 t && nat_eq e.1.0 k

unfoldable pub lookup : Text → Uuid → Entries → Option MemoryRecord
lookup t k [] = none
lookup t k (e ∷ es) = if is_at t k e then some e.1.1 else lookup t k es

unfoldable pub drop_at : Text → Uuid → Entries → Entries
drop_at t k [] = []
drop_at t k (e ∷ es) = if is_at t k e then drop_at t k es else e ∷ drop_at t k es

unfoldable pub in_tree : Text → Entries → List (Result (Uuid × MemoryRecord) (Unit {0}))
in_tree t [] = []
in_tree t (e ∷ es) = if text_eq e.0 t then ok e.1 ∷ in_tree t es else in_tree t es

abbrev pub sled : Sled Entries MemoryRecord (Unit {0})
sled = record {
  insert = λ t k v d. ((t, (k, v)) ∷ drop_at t k d, ok tt);
  get = λ t k d. ok (lookup t k d);
  remove = λ t k d. (drop_at t k d, ok tt);
  iter = in_tree;
  flush = λ d. (d, ok tt);
}

abbrev pub serde : Serde MemoryRecord (Unit {0})
serde = record { to_vec = λ r. ok r; from_slice = λ v. ok v }

lookup-drop_at :
    (t t' : Text) (k k' : Uuid) (d : Entries)
    → (t ≢ t') ⊎ (k ≢ k')
    → lookup t' k' (drop_at t k d) ≡ lookup t' k' d
unfolding lookup drop_at
lookup-drop_at t t' k k' [] h = refl
lookup-drop_at t t' k k' ((u, (j, v)) ∷ es) h = ground (
  arith,
  lookup-drop_at t t' k k' es h,
  text_eq_iff u t,
  text_eq_iff u t',
  nat_eq_iff j k,
  nat_eq_iff j k',
  h,
)

lookup_inserted :
    (t : Text) (k : Uuid) (v : MemoryRecord) (d : Entries) → lookup t k ((t, (k, v)) ∷ d) ≡ some v
unfolding lookup
lookup_inserted t k v d = ground (arith, text_eq_iff t t, nat_eq_iff k k)

lookup_passed :
    (t t' : Text) (k k' : Uuid) (v : MemoryRecord) (d : Entries)
    → (t ≢ t') ⊎ (k ≢ k')
    → lookup t' k' ((t, (k, v)) ∷ d) ≡ lookup t' k' d
unfolding lookup
lookup_passed t t' k k' v d h = ground (arith, text_eq_iff t t', nat_eq_iff k k', h)

pub lawful : IsLawful sled serde
lawful = record {
  get-insert = λ t k v d d' e.
      subst
        (λ x. ◌≡◌ {A = Result (Option MemoryRecord) (Unit {0})} (ok (lookup t k x)) (ok (some v)))
        (ap (λ p. p.0) e) (ap ok (lookup_inserted t k v (drop_at t k d)));
  get-insert_other = λ t k v d d' t' k' e h.
      subst
        (λ x.
          ◌≡◌ {A = Result (Option MemoryRecord) (Unit {0})} (ok (lookup t' k' x))
            (ok (lookup t' k' d)))
        (ap (λ p. p.0) e)
        (ap ok (lookup_passed t t' k k' v (drop_at t k d) h ∙ lookup-drop_at t t' k k' d h));
  from_slice-to_vec = λ r v finite e. sym e;
}

abbrev tea : MemoryRecord
tea = record {
  id = 1;
  category = user;
  content = codes "likes tea";
  recall = new_recall 5;
  memoir_trigger = none;
  tags = [];
}

abbrev recalled_tea : MemoryRecord
recalled_tea = record tea { recall = touch 9 tea.recall }

abbrev pub with_tea : Entries
with_tea = (tree_name user, (1, tea)) ∷ []

put-tea : put sled serde tea [] ≡ (with_tea, ok tt)
unfolding put drop_at ◌>>=◌
put-tea = refl

get-put_example : get sled serde user 1 with_tea ≡ (with_tea, ok tea)
get-put_example = get-put sled serde lawful tea [] with_tea refl put-tea

get_tea : get sled serde user 1 with_tea ≡ (with_tea, ok tea)
get_tea = get-put sled serde lawful tea [] with_tea refl put-tea

abbrev with_recalled_tea : Entries
with_recalled_tea = (tree_name user, (1, recalled_tea)) ∷ []

recall_tea : recall sled serde 9 user 1 with_tea ≡ (with_recalled_tea, ok recalled_tea)
unfolding recall ◌>>=◌ put get lookup drop_at text_eq tree_name touch
recall_tea = refl

recall_strengthens_example :
    (get sled serde user 1 with_recalled_tea ≡ (with_recalled_tea, ok recalled_tea))
    × (recalled_tea ≡ record tea { recall = touch 9 tea.recall })
    × (recalled_tea.recall.recall_count ≡ min (tea.recall.recall_count + 1) (2 ^ 32 - 1))
    × (recalled_tea.recall.last_recalled_at ≡ 9)
recall_strengthens_example =
    recall_strengthens sled serde lawful 9 tea recalled_tea with_tea with_recalled_tea refl get_tea
      recall_tea

-- Scores 0.5 and 1.0 as an `f64`.
abbrev weak_hit : SearchHit
weak_hit = record {
  record_ = tea;
  relevance = 0x3fe0_0000_0000_0000;
  recall_score = 0;
  combined_score = 0x3fe0_0000_0000_0000;
}

abbrev strong_hit : SearchHit
strong_hit = record weak_hit { combined_score = 0x3ff0_0000_0000_0000 }

abbrev no_hit : SearchHit
no_hit = record weak_hit { relevance = 0 }

abbrev hits : List SearchHit
hits = weak_hit ∷ no_hit ∷ strong_hit ∷ []

rank-hits : rank 1 hits ≡ strong_hit ∷ []
unfolding rank sort_hits insert_hit truncate f64_gt
rank-hits = refl

rank-sorted_example :
    (s : List SearchHit) × (rank 1 hits ≡ truncate 1 s)
    × Perm s (keep is_relevant hits)
    × IsFalling s
    × (length (rank 1 hits) ≤ 1)
rank-sorted_example = rank-sorted 1 hits

-- Every line counts as ten tokens.
abbrev pub ar : Arithmetic
ar = record {
  add = λ x y. x;
  mul = λ x y. x;
  div = λ x y. x;
  neg = λ x. x;
  exp = λ x. x;
  of_unsigned = λ n. n;
  of_f32 = λ x. x;
  ceil_to_usize = λ x. 10;
}

adopted-hits : adopted ar 15 0 hits ≡ weak_hit ∷ []
unfolding adopted rough_token_estimate
adopted-hits = refl

adopted-fits_example :
    (rest : List SearchHit) × (hits ≡ adopted ar 15 0 hits ++ rest)
    × (cost ar (adopted ar 15 0 hits) ≤ 15)
    × NextTooLong ar 15 (cost ar (adopted ar 15 0 hits)) rest
adopted-fits_example = adopted-fits ar 15 hits
