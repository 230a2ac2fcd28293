-- ===== src/Memory/Search.antt =====
-- arona_agy/arona_memory/src/search.rs: the search over all categories. The tokenizer (lindera)
-- and lower-casing are parameters. The four threads only read, so they are run in order.
use arona_os.Prelude.{
  ℕ, zero, suc, ◌+◌, ◌-◌, ◌^◌, Text, F64, f64_gt, codes, contains_text, Bool, true, false, not,
  List, [], ◌∷◌, ◌++◌, map, Result, ok, err, ltb, leb, if◌then◌else◌, keep, length,
}
use arona_os.Strings.{trim}
use arona_os.Guardian.{DateTime}
use arona_os.Memory.{MemoryCategory, all, MemoryRecord, Arithmetic, current_score}
use arona_os.Memory.Store.{Sled, Serde, MemoryStoreError, Action, ◌>>=◌, lift, list}

pub record Tokenizer : Type 1 where
  pub Failure : Type 0
  pub surfaces : Text → Result (List Text) Failure
  pub to_lowercase : Text → Text

pub record SearchHit : Type 0 where
  pub record_ : MemoryRecord
  pub relevance : F64
  pub recall_score : F64
  pub combined_score : F64

-- 0.7 and 0.3
abbrev pub relevance_weight : F64
relevance_weight = 0x3fe6_6666_6666_6666

abbrev pub recall_weight : F64
recall_weight = 0x3fd3_3333_3333_3333

abbrev is_empty : Text → Bool
is_empty [] = true
is_empty (_ ∷ _) = false

module _ (tok : Tokenizer) where
  unfoldable pub tokenize : Text → List Text
  unfolding trim
  tokenize text = elim (tok.surfaces text) [
    | ok surfaces ↦ keep (λ s. not (is_empty (trim s))) (map tok.to_lowercase surfaces)
    | err _ ↦ []
  ]

  abbrev join_tags : List Text → Text
  join_tags [] = []
  join_tags (t ∷ []) = t
  join_tags (t ∷ u ∷ rest) = t ++ (codes " " ++ join_tags (u ∷ rest))

  unfoldable pub haystack : MemoryRecord → Text
  haystack r = tok.to_lowercase (r.content ++ (codes " " ++ join_tags r.tags))

  -- 0.0 for an empty query, else the share of the tokens that the record holds.
  unfoldable pub relevance : Arithmetic → List Text → MemoryRecord → F64
  unfolding haystack
  relevance ar [] r = 0
  relevance ar (t ∷ ts) r =
      let hits = length (keep (contains_text (haystack r)) (t ∷ ts)) in
      ar.div (ar.of_unsigned hits) (ar.of_unsigned (length (t ∷ ts)))

-- The place of a number in the order of `f64::total_cmp`.
abbrev pub total_place : F64 → ℕ
total_place x = if leb (2 ^ 63) x then 2 ^ 64 - 1 - x else x + 2 ^ 63

-- A stable sort by falling score: a hit goes in front of the first one whose score is not
-- larger.
unfoldable pub insert_hit : SearchHit → List SearchHit → List SearchHit
insert_hit h [] = h ∷ []
insert_hit h (x ∷ xs) =
    if ltb (total_place h.combined_score) (total_place x.combined_score)
    then x ∷ insert_hit h xs
    else h ∷ x ∷ xs

unfoldable pub sort_hits : List SearchHit → List SearchHit
unfolding insert_hit
sort_hits [] = []
sort_hits (h ∷ hs) = insert_hit h (sort_hits hs)

-- `truncate`
unfoldable pub truncate : ℕ → List SearchHit → List SearchHit
truncate zero hs = []
truncate (suc n) [] = []
truncate (suc n) (h ∷ hs) = h ∷ truncate n hs

abbrev pub is_relevant : SearchHit → Bool
is_relevant h = f64_gt h.relevance 0

unfoldable pub rank : ℕ → List SearchHit → List SearchHit
rank limit hits = truncate limit (sort_hits (keep is_relevant hits))

module _ {D V E F : Type 0} (sled : Sled D V E) (serde : Serde V F) (tok : Tokenizer)
    (ar : Arithmetic) where
  -- `now r` is the reading of the clock when the record is scored.
  unfoldable pub hit_of : (MemoryRecord → DateTime) → List Text → MemoryRecord → SearchHit
  hit_of now tokens r =
      let rel = relevance tok ar tokens r in
      let rec_ = current_score ar (now r) r.recall in
      record {
        record_ = r;
        relevance = rel;
        recall_score = rec_;
        combined_score = ar.add (ar.mul rel relevance_weight) (ar.mul rec_ recall_weight);
      }

  unfoldable pub search_category :
      (MemoryRecord → DateTime)
      → MemoryCategory
      → List Text
      → Action D (MemoryStoreError E F) (List SearchHit)
  unfolding ◌>>=◌
  search_category now category tokens = do
    records ← list sled serde category
    lift (ok (map (hit_of now tokens) records))

  unfoldable pub search_categories :
      (MemoryRecord → DateTime)
      → List MemoryCategory
      → List Text
      → Action D (MemoryStoreError E F) (List SearchHit)
  unfolding ◌>>=◌
  search_categories now [] tokens = lift (ok [])
  search_categories now (c ∷ cs) tokens = do
    hits ← search_category now c tokens
    rest ← search_categories now cs tokens
    lift (ok (hits ++ rest))

  unfoldable pub search_all :
      (MemoryRecord → DateTime) → Text → ℕ → Action D (MemoryStoreError E F) (List SearchHit)
  unfolding ◌>>=◌
  search_all now query limit = do
    hits ← search_categories now all (tokenize tok query)
    lift (ok (rank limit hits))
