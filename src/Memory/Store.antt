-- ===== src/Memory/Store.antt =====
-- arona_agy/arona_memory/src/store.rs: the store over the trees of a sled database. sled and
-- serde_json are parameters.
use arona_os.Prelude.{
  ◌≡◌, ◌≢◌, true, Text, List, [], ◌∷◌, Option, none, some, Result, ok, err, map_err, ◌⊎◌,
}
unfoldable pub use arona_os.Prelude.Actions.{Action, ◌>>=◌, lift}
use arona_os.Guardian.{Uuid, DateTime}
use arona_os.Memory.{MemoryCategory, tree_name, MemoryRecord, touch, is_finite}

-- Key and value bytes of a tree are `Uuid` bytes, here the id, and the serialised text `V`.
pub record Sled (D V E : Type 0) : Type 0 where
  pub insert : Text → Uuid → V → D → D × Result (Unit {0}) E
  pub get : Text → Uuid → D → Result (Option V) E
  pub remove : Text → Uuid → D → D × Result (Unit {0}) E
  pub iter : Text → D → List (Result (Uuid × V) E)
  pub flush : D → D × Result (Unit {0}) E

pub record Serde (V F : Type 0) : Type 0 where
  pub to_vec : MemoryRecord → Result V F
  pub from_slice : V → Result MemoryRecord F

pub data MemoryStoreError (E F : Type 0) : Type 0 where
  sled_error : E → MemoryStoreError E F
  serde_error : F → MemoryStoreError E F
  not_found : Uuid → MemoryStoreError E F

module _ {D V E F : Type 0} (sled : Sled D V E) (serde : Serde V F) where
  -- The trees are opened under the names of the categories, and indexed by category.
  unfoldable pub put : MemoryRecord → Action D (MemoryStoreError E F) (Unit {0})
  unfolding ◌>>=◌
  put record_ = do
    bytes ← lift (map_err serde_error (serde.to_vec record_))
    λ d.
        let (d', r) = sled.insert (tree_name record_.category) record_.id bytes d in
        (d', map_err sled_error r)

  abbrev found : Uuid → Option V → Result MemoryRecord (MemoryStoreError E F)
  found id none = err (not_found id)
  found id (some bytes) = map_err serde_error (serde.from_slice bytes)

  unfoldable pub get : MemoryCategory → Uuid → Action D (MemoryStoreError E F) MemoryRecord
  unfolding ◌>>=◌
  get category id = do
    value ← λ d. (d, map_err sled_error (sled.get (tree_name category) id d))
    lift (found id value)

  unfoldable pub recall :
      DateTime → MemoryCategory → Uuid → Action D (MemoryStoreError E F) MemoryRecord
  unfolding ◌>>=◌
  recall now category id = do
    old ← get category id
    let new = record old { recall = touch now old.recall }
    _ ← put new
    lift (ok new)

  abbrev decode_all : List (Result (Uuid × V) E) → Result (List MemoryRecord) (MemoryStoreError E F)
  decode_all [] = ok []
  decode_all (err e ∷ entries) = err (sled_error e)
  decode_all (ok (_, bytes) ∷ entries) =
      let rest = decode_all entries in
      elim (serde.from_slice bytes) [
        | err e ↦ err (serde_error e)
        | ok r ↦ elim rest [ ok rs ↦ ok (r ∷ rs) | err e ↦ err e ]
      ]

  unfoldable pub list : MemoryCategory → Action D (MemoryStoreError E F) (List MemoryRecord)
  list category d = (d, decode_all (sled.iter (tree_name category) d))

  -- The `debug_assert!` against memoirs is absent from a release build.
  unfoldable pub delete : MemoryCategory → Uuid → Action D (MemoryStoreError E F) (Unit {0})
  delete category id d =
      let (d', r) = sled.remove (tree_name category) id d in (d', map_err sled_error r)

  unfoldable pub flush : Action D (MemoryStoreError E F) (Unit {0})
  flush d = let (d', r) = sled.flush d in (d', map_err sled_error r)

  -- What a lookup says after a successful insertion, and that a record with a finite importance
  -- survives serialisation. serde_json writes a NaN or an infinity as `null`, which it does not read
  -- as an `f32`.
  pub record IsLawful : Type 0 where
    pub get-insert :
        (t : Text) (k : Uuid) (v : V) (d d' : D)
        → sled.insert t k v d ≡ (d', ok tt)
        → sled.get t k d' ≡ ok (some v)
    pub get-insert_other :
        (t : Text) (k : Uuid) (v : V) (d d' : D) (t' : Text) (k' : Uuid)
        → sled.insert t k v d ≡ (d', ok tt)
        → (t ≢ t') ⊎ (k ≢ k')
        → sled.get t' k' d' ≡ sled.get t' k' d
    pub from_slice-to_vec :
        (r : MemoryRecord) (v : V)
        → is_finite r.recall.importance ≡ true
        → serde.to_vec r ≡ ok v
        → serde.from_slice v ≡ ok r
