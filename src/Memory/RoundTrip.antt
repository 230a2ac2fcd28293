-- ===== src/Memory/RoundTrip.antt =====
-- What is put is found again, in its own category and in no other, and recalling strengthens it.
use arona_os.Prelude.{
  ℕ, zero, suc, ◌+◌, ◌-◌, ◌^◌, ◌≡◌, ◌≢◌, refl, sym, ap, subst, true, Text, [], ◌∷◌, ok, arith, inl,
  inr, ◌⊎◌, Result-cases,
}
use Prim.Native.Nat.{min}
use arona_os.Guardian.{Uuid, DateTime}
use arona_os.Memory.{
  MemoryCategory, user, system, arona, memoir, tree_name, MemoryRecord, touch, is_finite,
}
use arona_os.Memory.Store.{Sled, Serde, IsLawful, put, get, recall}

-- The length of a tree's name, and its eighth letter, tell the categories apart.
abbrev tag : ℕ → Text → ℕ
tag i [] = 0
tag zero (c ∷ cs) = c
tag (suc i) (c ∷ cs) = tag i cs

tree_name-injective : (c c' : MemoryCategory) → c ≢ c' → tree_name c ≢ tree_name c'
unfolding tree_name
tree_name-injective user user h e = absurd (h refl)
tree_name-injective system system h e = absurd (h refl)
tree_name-injective arona arona h e = absurd (h refl)
tree_name-injective memoir memoir h e = absurd (h refl)
tree_name-injective _ _ h e = omega (arith, ap (tag 7) e)

module _ {D V E F : Type 0} (sled : Sled D V E) (serde : Serde V F)
    (lawful : IsLawful sled serde) where
  -- A put that succeeds has serialised the record and inserted the bytes.
  put-eq-ok :
      (r : MemoryRecord) (d d' : D)
      → put sled serde r d ≡ (d', ok tt)
      → (v : V) × (serde.to_vec r ≡ ok v)
        × (sled.insert (tree_name r.category) r.id v d ≡ (d', ok tt))
  unfolding put
  put-eq-ok r d d' e = elim (Result-cases (serde.to_vec r)) [
    | inl (v, encoded) ↦ (v, encoded, ground (arith, encoded, e))
    | inr (x, failed) ↦ absurd (ground (arith, failed, e))
  ]

  -- Over a lawful database and serialiser, a record with a finite importance, neither a NaN nor an
  -- infinity, that was put is what `get` finds under its category and id, whatever stood there.
  pub get-put :
      (r : MemoryRecord) (d d' : D)
      → is_finite r.recall.importance ≡ true
      → put sled serde r d ≡ (d', ok tt)
      → get sled serde r.category r.id d' ≡ (d', ok r)
  unfolding get
  get-put r d d' finite e =
      let (v, encoded, inserted) = put-eq-ok r d d' e in
      ground (
        arith,
        lawful.get-insert (tree_name r.category) r.id v d d' inserted,
        lawful.from_slice-to_vec r v finite encoded,
      )

  -- A put changes what `get` finds under no other id and in no other category.
  pub get-put_other :
      (r : MemoryRecord) (d d' : D) (c : MemoryCategory) (id : Uuid)
      → put sled serde r d ≡ (d', ok tt)
      → (r.category ≢ c) ⊎ (r.id ≢ id)
      → (get sled serde c id d').1 ≡ (get sled serde c id d).1
  unfolding get
  get-put_other r d d' c id e differ =
      let (v, encoded, inserted) = put-eq-ok r d d' e in
      ground (
        arith,
        lawful.get-insert_other (tree_name r.category) r.id v d d' (tree_name c) id inserted
            (apart differ),
      )
    where
      apart : (r.category ≢ c) ⊎ (r.id ≢ id) → (tree_name r.category ≢ tree_name c) ⊎ (r.id ≢ id)
      apart (inl h) = inl (tree_name-injective r.category c h)
      apart (inr h) = inr h

  abbrev recalled : DateTime → MemoryRecord → MemoryRecord
  recalled now old = record old { recall = touch now old.recall }

  recall-eq-ok :
      (now : DateTime) (old new : MemoryRecord) (d d' : D)
      → get sled serde old.category old.id d ≡ (d, ok old)
      → recall sled serde now old.category old.id d ≡ (d', ok new)
      → (put sled serde (recalled now old) d ≡ (d', ok tt)) × (new ≡ recalled now old)
  unfolding recall
  recall-eq-ok now old new d d' stored e =
      elim (Result-cases (put sled serde (recalled now old) d).1) [
        | inl (u, good) ↦ (ground (arith, stored, good, e), ground (arith, stored, good, e))
        | inr (x, bad) ↦ absurd (ground (arith, stored, bad, e))
      ]

  -- Over a lawful database and serialiser, recalling a record with a finite importance that is
  -- stored under its own category and id answers it with the count one higher (a `u32` that stops
  -- at its maximum) and the time of the recall; what is found there afterwards is the answer.
  pub recall_strengthens :
      (now : DateTime) (old new : MemoryRecord) (d d' : D)
      → is_finite old.recall.importance ≡ true
      → get sled serde old.category old.id d ≡ (d, ok old)
      → recall sled serde now old.category old.id d ≡ (d', ok new)
      → (get sled serde old.category old.id d' ≡ (d', ok new))
        × (new ≡ record old { recall = touch now old.recall })
        × (new.recall.recall_count ≡ min (old.recall.recall_count + 1) (2 ^ 32 - 1))
        × (new.recall.last_recalled_at ≡ now)
  unfolding touch
  recall_strengthens now old new d d' finite stored e =
      let (written, is) = recall-eq-ok now old new d d' stored e in
      (
        subst (λ r. get sled serde old.category old.id d' ≡ (d', ok r)) (sym is)
            (get-put (recalled now old) d d' finite written),
        is,
        ap (λ (r : MemoryRecord). r.recall.recall_count) is,
        ap (λ (r : MemoryRecord). r.recall.last_recalled_at) is,
      )
