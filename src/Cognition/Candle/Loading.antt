-- ===== src/Cognition/Candle/Loading.antt =====
-- What `load` of arona_agy/arona_cognition/src/candle_backend.rs takes from the files.
use mathlib.Core.List.{Memᴰ}
use arona_os.Prelude.{
  ℕ, ◌≡◌, ◌≢◌, refl, sym, ap, ◌∙◌, subst, Text, codes, List, [], ◌∷◌, ◌++◌, Option, none, some,
  Result, ok, err, map_err, ◌>>=◌, bind-eq-ok, All,
}
use arona_os.Cognition.{CognitionError, model_load, tokenizer}
use arona_os.Cognition.Candle.{
  Tokenizer, CandleGgufBackend, Loader, stop_token_candidates, candidate_keys, first_u32,
  no_context_length, read_context_length_metadata, known_ids, loaded_backend, not_opened, load,
}
use arona_os.Cognition.Candle.Vocabulary.{
  Named, first_u32-Named, IsIdOf, known_ids-IsIdOf, known_ids-complete,
}

-- What a loaded backend has from its files.
pub record Loaded {M F C V : Type 0} (loader : Loader M F C V) (gguf_path tokenizer_path : Text)
    (b : CandleGgufBackend M) : Type 0 where
  pub file : F
  pub content : C
  pub opened : loader.open_file gguf_path ≡ ok file
  pub read : (loader.read_content file).1 ≡ ok content
  pub limit : Named (loader.metadata content) loader.to_u32 b.max_context candidate_keys
  pub model : loader.from_gguf content (loader.read_content file).0 ≡ ok b.model
  pub words : loader.tokenizer_from_file tokenizer_path ≡ ok b.tokenizer
  pub start : b.position ≡ 0
  pub some_stop : b.stop_token_ids ≢ []
  pub stops : All (IsIdOf b.tokenizer.token_to_id stop_token_candidates) b.stop_token_ids
  pub all_stops :
      (name : Text) (id : ℕ)
      → Memᴰ name stop_token_candidates
      → b.tokenizer.token_to_id name ≡ some id
      → Memᴰ id b.stop_token_ids

map_err-eq-ok :
    {A E F : Type 0} (f : E → F) (r : Result A E) (a : A) → map_err f r ≡ ok a → r ≡ ok a
map_err-eq-ok f (ok x) a h = cc
map_err-eq-ok f (err e) a h = absurd (cc h)

read_context_length_metadata-eq-ok :
    {V : Type 0} (metadata : Text → Option V) (to_u32 : V → Option ℕ) (n : ℕ)
    → read_context_length_metadata metadata to_u32 ≡ ok n
    → Named metadata to_u32 n candidate_keys
unfolding read_context_length_metadata
read_context_length_metadata-eq-ok metadata to_u32 n h =
    found (first_u32 metadata to_u32 candidate_keys) refl h
  where
    found :
        (r : Option ℕ)
        → first_u32 metadata to_u32 candidate_keys ≡ r
        → (elim r as (λ _. Result ℕ CognitionError) [
          | some n ↦ ok n
          | none ↦ err no_context_length
        ])
          ≡ ok n
        → Named metadata to_u32 n candidate_keys
    found none e h = absurd (cc h)
    found (some m) e h =
        let same : m ≡ n = cc h in
        first_u32-Named metadata to_u32 n candidate_keys (e ∙ ap some same)

-- What the last step of `load` gives.
record Last {M : Type 0} (model : M) (limit : ℕ) (tok : Tokenizer) (ids : List ℕ)
    (b : CandleGgufBackend M) : Type 0 where
  model_same : b.model ≡ model
  limit_same : b.max_context ≡ limit
  words_same : b.tokenizer ≡ tok
  ids_same : b.stop_token_ids ≡ ids
  some_id : b.stop_token_ids ≢ []
  at_start : b.position ≡ 0

loaded_backend-Last :
    {M : Type 0} (model : M) (limit : ℕ) (tok : Tokenizer) (ids : List ℕ) (b : CandleGgufBackend M)
    → loaded_backend model limit tok ids ≡ ok b
    → Last model limit tok ids b
loaded_backend-Last model limit tok [] b h = absurd (cc h)
loaded_backend-Last {M} model limit tok (id ∷ ids) b h =
    let backend : CandleGgufBackend M = record {
      model = model;
      tokenizer = tok;
      max_context = limit;
      position = 0;
      stop_token_ids = id ∷ ids;
    } in
    let same : backend ≡ b = cc h in
    record {
      model_same = sym (ap (λ c. c.model) same);
      limit_same = sym (ap (λ c. c.max_context) same);
      words_same = sym (ap (λ c. c.tokenizer) same);
      ids_same = sym (ap (λ c. c.stop_token_ids) same);
      some_id = λ e. cc (ap (λ c. c.stop_token_ids) same ∙ e);
      at_start = sym (ap (λ c. c.position) same);
    }

assembled :
    {M F C V : Type 0} (loader : Loader M F C V) (gguf_path tokenizer_path : Text) (file : F)
    (content : C) (limit : ℕ) (model : M) (tok : Tokenizer) (b : CandleGgufBackend M)
    → loader.open_file gguf_path ≡ ok file
    → (loader.read_content file).1 ≡ ok content
    → read_context_length_metadata (loader.metadata content) loader.to_u32 ≡ ok limit
    → loader.from_gguf content (loader.read_content file).0 ≡ ok model
    → loader.tokenizer_from_file tokenizer_path ≡ ok tok
    → Last model limit tok (known_ids tok.token_to_id stop_token_candidates) b
    → Loaded loader gguf_path tokenizer_path b
assembled loader gguf_path tokenizer_path file content limit model tok b opened read number built
      words last =
    let tok_same = sym last.words_same in
    record {
      file = file;
      content = content;
      opened = opened;
      read = read;
      limit =
          subst (λ n. Named (loader.metadata content) loader.to_u32 n candidate_keys)
            (sym last.limit_same)
            (read_context_length_metadata-eq-ok (loader.metadata content) loader.to_u32 limit
              number);
      model = built ∙ ap ok (sym last.model_same);
      words = words ∙ ap ok tok_same;
      start = last.at_start;
      some_stop = last.some_id;
      stops =
          subst (λ t. All (IsIdOf t.token_to_id stop_token_candidates) b.stop_token_ids) tok_same
            (subst (λ l. All (IsIdOf tok.token_to_id stop_token_candidates) l) (sym last.ids_same)
              (known_ids-IsIdOf tok.token_to_id stop_token_candidates));
      all_stops = λ name id m known.
          subst (λ l. Memᴰ id l) (sym last.ids_same)
            (known_ids-complete tok.token_to_id stop_token_candidates name id m
              (ap (λ t. t.token_to_id name) tok_same ∙ known));
    }

-- A load that succeeds has opened and read the model's file; its context length is the `u32` that one
-- of the known keys has in the metadata; the model and the tokenizer come from the files; it starts
-- at position 0; and its stop tokens, of which there is at least one, are exactly the ids that the
-- tokenizer knows of the candidates.
pub load-Loaded :
    {M F C V : Type 0} (loader : Loader M F C V) (gguf_path tokenizer_path : Text)
    (b : CandleGgufBackend M)
    → load loader gguf_path tokenizer_path ≡ ok b
    → Loaded loader gguf_path tokenizer_path b
unfolding load
load-Loaded {M} {F} {C} {V} loader gguf_path tokenizer_path b h =
    let (file, opened, h₁) =
      bind-eq-ok (map_err (not_opened gguf_path) (loader.open_file gguf_path)) with_file h in
    let (content, read, h₂) =
      bind-eq-ok
        (map_err (λ e. model_load (codes "GGUFの読み込みに失敗: " ++ e)) (loader.read_content file).1)
        (with_content file) h₁ in
    let (limit, number, h₃) =
      bind-eq-ok (read_context_length_metadata (loader.metadata content) loader.to_u32)
        (with_limit file content) h₂ in
    let (model, built, h₄) =
      bind-eq-ok
        (map_err (λ e. model_load (codes "モデル重みの構築に失敗: " ++ e))
          (loader.from_gguf content (loader.read_content file).0))
        (with_model limit) h₃ in
    let (tok, words, h₅) =
      bind-eq-ok (map_err tokenizer (loader.tokenizer_from_file tokenizer_path))
        (with_tokenizer limit model) h₄ in
    assembled loader gguf_path tokenizer_path file content limit model tok b
      (map_err-eq-ok (not_opened gguf_path) (loader.open_file gguf_path) file opened)
      (map_err-eq-ok (λ e. model_load (codes "GGUFの読み込みに失敗: " ++ e)) (loader.read_content file).1
        content read)
      number
      (map_err-eq-ok (λ e. model_load (codes "モデル重みの構築に失敗: " ++ e))
        (loader.from_gguf content (loader.read_content file).0) model built)
      (map_err-eq-ok tokenizer (loader.tokenizer_from_file tokenizer_path) tok words)
      (loaded_backend-Last model limit tok (known_ids tok.token_to_id stop_token_candidates) b h₅)
  where
    with_tokenizer : ℕ → M → Tokenizer → Result (CandleGgufBackend M) CognitionError
    with_tokenizer limit model tok =
        loaded_backend model limit tok (known_ids tok.token_to_id stop_token_candidates)

    with_model : ℕ → M → Result (CandleGgufBackend M) CognitionError
    with_model limit model =
        map_err tokenizer (loader.tokenizer_from_file tokenizer_path) >>= with_tokenizer limit model

    with_limit : F → C → ℕ → Result (CandleGgufBackend M) CognitionError
    with_limit file content limit =
        map_err (λ e. model_load (codes "モデル重みの構築に失敗: " ++ e))
          (loader.from_gguf content (loader.read_content file).0)
        >>= with_model limit

    with_content : F → C → Result (CandleGgufBackend M) CognitionError
    with_content file content =
        read_context_length_metadata (loader.metadata content) loader.to_u32
        >>= with_limit file content

    with_file : F → Result (CandleGgufBackend M) CognitionError
    with_file file =
        map_err (λ e. model_load (codes "GGUFの読み込みに失敗: " ++ e)) (loader.read_content file).1
        >>= with_content file
