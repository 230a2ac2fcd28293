-- ===== src/Memory/Context.antt =====
-- arona_agy/arona_cognition/src/context.rs: the memories that go into a prompt.
use arona_os.Prelude.{
  ℕ, ◌+◌, ◌≤◌, ◌<◌, ◌≡◌, refl, Text, codes, List, [], ◌∷◌, ◌++◌, ok, ltb, if◌then◌else◌, length,
  arith, ap, Bool-cases, inl, inr,
}
use arona_os.Guardian.{DateTime}
use arona_os.Memory.{MemoryCategory, user, system, arona, memoir, MemoryRecord, Arithmetic}
use arona_os.Memory.Store.{Sled, Serde, MemoryStoreError, Action, ◌>>=◌, recall}
use arona_os.Memory.Search.{Tokenizer, SearchHit, relevance_weight, search_all}

abbrev pub category_label : MemoryCategory → Text
category_label user = codes "ユーザー記憶"
category_label system = codes "システム記憶"
category_label arona = codes "アロナ記憶"
category_label memoir = codes "思い出"

-- The factor 0.7 has the bits of `relevance_weight`.
unfoldable pub rough_token_estimate : Arithmetic → Text → ℕ
rough_token_estimate ar text =
    ar.ceil_to_usize (ar.mul (ar.of_unsigned (length text)) relevance_weight)

unfoldable pub line_of : SearchHit → Text
line_of hit =
    codes "- ["
    ++ (category_label hit.record_.category ++ (codes "] " ++ (hit.record_.content ++ codes "\n")))

-- The hits that the loop adopts before it breaks.
unfoldable pub adopted : Arithmetic → ℕ → ℕ → List SearchHit → List SearchHit
adopted ar budget used [] = []
adopted ar budget used (hit ∷ hits) =
    let line_tokens = rough_token_estimate ar (line_of hit) in
    let more = adopted ar budget (used + line_tokens) hits in
    if ltb budget (used + line_tokens) then [] else hit ∷ more

abbrev pub block_of : List SearchHit → Text
block_of [] = []
block_of (hit ∷ hits) = line_of hit ++ block_of hits

module _ {D V E F : Type 0} (sled : Sled D V E) (serde : Serde V F) (tok : Tokenizer)
    (ar : Arithmetic) where
  -- `let _ = store.recall(…)`: the database changes and a failure is dropped.
  abbrev pub recall_each : DateTime → List SearchHit → D → D
  recall_each now [] d = d
  recall_each now (hit ∷ hits) d =
      recall_each now hits (recall sled serde now hit.record_.category hit.record_.id d).0

  -- The loop recalls each hit as it adopts it; nothing that it reads in between depends on that.
  unfoldable pub build_context_block :
      DateTime → (MemoryRecord → DateTime) → Text → ℕ → Action D (MemoryStoreError E F) Text
  unfolding ◌>>=◌
  build_context_block now scored_at query budget_tokens = do
    hits ← search_all sled serde tok ar scored_at query 20
    let chosen = adopted ar budget_tokens 0 hits
    λ d. (recall_each now chosen d, ok (block_of chosen))

-- What the lines of the hits cost together.
abbrev pub cost : Arithmetic → List SearchHit → ℕ
cost ar [] = 0
cost ar (hit ∷ hits) = rough_token_estimate ar (line_of hit) + cost ar hits

adopted-cost :
    (ar : Arithmetic) (budget used : ℕ) (hits : List SearchHit)
    → used ≤ budget
    → used + cost ar (adopted ar budget used hits) ≤ budget
unfolding adopted
adopted-cost ar budget used [] h = omega arith
adopted-cost ar budget used (hit ∷ hits) h =
    elim (Bool-cases (ltb budget (used + rough_token_estimate ar (line_of hit)))) [
      | inl over ↦ rw over (omega arith)
      | inr fits ↦ rw fits (
          omega (
            arith,
            adopted-cost ar budget (used + rough_token_estimate ar (line_of hit)) hits
                (ground arith),
          ))
    ]

-- Nothing is left, or the next line goes over the budget.
abbrev pub NextTooLong : Arithmetic → ℕ → ℕ → List SearchHit → Type 0
NextTooLong ar budget used [] = Unit
NextTooLong ar budget used (hit ∷ hits) = budget < used + rough_token_estimate ar (line_of hit)

abbrev Rest : Arithmetic → ℕ → ℕ → List SearchHit → List SearchHit → Type 0
Rest ar budget used hits chosen =
    (rest : List SearchHit) × (hits ≡ chosen ++ rest)
    × NextTooLong ar budget (used + cost ar chosen) rest

NextTooLong-cong :
    (ar : Arithmetic) (budget m n : ℕ) (rest : List SearchHit)
    → m ≡ n
    → NextTooLong ar budget m rest
    → NextTooLong ar budget n rest
NextTooLong-cong ar budget m n [] e h = tt
NextTooLong-cong ar budget m n (hit ∷ hits) e h = omega (arith, h, e)

adopted-Rest :
    (ar : Arithmetic) (budget used : ℕ) (hits : List SearchHit)
    → Rest ar budget used hits (adopted ar budget used hits)
unfolding adopted
adopted-Rest ar budget used [] = ([], refl, tt)
adopted-Rest ar budget used (hit ∷ hits) =
    let tokens = rough_token_estimate ar (line_of hit) in
    elim (Bool-cases (ltb budget (used + tokens))) [
      | inl over ↦ rw over (hit ∷ hits, refl, ground arith)
      | inr fits ↦
          let (rest, same, next) = adopted-Rest ar budget (used + tokens) hits in
          rw fits (
            rest,
            ap (λ xs. hit ∷ xs) same,
            NextTooLong-cong ar budget
                (used + tokens + cost ar (adopted ar budget (used + tokens) hits))
                (used + (tokens + cost ar (adopted ar budget (used + tokens) hits))) rest
                (omega arith) next,
          )
    ]

-- The adopted hits are a front of the ranked ones, their lines cost no more than the budget
-- together, and either all are adopted or the next line would not have fitted.
pub adopted-fits :
    (ar : Arithmetic) (budget : ℕ) (hits : List SearchHit)
    → (rest : List SearchHit) × (hits ≡ adopted ar budget 0 hits ++ rest)
      × (cost ar (adopted ar budget 0 hits) ≤ budget)
      × NextTooLong ar budget (cost ar (adopted ar budget 0 hits)) rest
adopted-fits ar budget hits =
    let (rest, same, next) = adopted-Rest ar budget 0 hits in
    (
      rest,
      same,
      omega (arith, adopted-cost ar budget 0 hits (omega arith)),
      NextTooLong-cong ar budget (0 + cost ar (adopted ar budget 0 hits))
          (cost ar (adopted ar budget 0 hits)) rest (omega arith) next,
    )
