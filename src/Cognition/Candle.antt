-- ===== src/Cognition/Candle.antt =====
-- arona_agy/arona_cognition/src/candle_backend.rs: the language model behind the system. The model,
-- the tokenizer and the sampler belong to other crates and are parameters. The progress messages and
-- the choice of the device are left out.
pub mod Generate
pub mod Tokens
pub mod Vocabulary
pub mod Loading
mod Examples
use arona_os.Prelude.{
  ℕ, Text, codes, List, [], ◌∷◌, ◌++◌, Option, none, some, Result, ok, err, map_err, ◌>>=◌,
}
use arona_os.Cognition.{CognitionError, model_load, tokenizer}

-- `Tokenizer`: a text and the ids of its tokens.
pub record Tokenizer : Type 0 where
  pub token_to_id : Text → Option ℕ
  pub encode : Text → Result (List ℕ) Text
  pub decode : List ℕ → Result Text Text

-- The calls of candle. `M` is the model with its cache, `X` a tensor and `P` a sampler.
pub record Candle (M X P : Type 0) : Type 0 where
  pub tensor : List ℕ → Result X Text
  pub forward : X → ℕ → M → M × Result X Text
  pub squeeze : X → Result X Text
  pub sampler : ℕ → ℕ → P
  pub sample : X → P → P × Result ℕ Text

pub record CandleGgufBackend (M : Type 0) : Type 0 where
  pub model : M
  pub tokenizer : Tokenizer
  pub max_context : ℕ
  pub position : ℕ
  pub stop_token_ids : List ℕ

abbrev pub stop_token_candidates : List Text
stop_token_candidates =
    codes "<|eot_id|>" ∷ codes "<|end_of_text|>" ∷ codes "</s>" ∷ codes "<|im_end|>" ∷ []

abbrev pub candidate_keys : List Text
candidate_keys =
    codes "llama.context_length"
    ∷ codes "qwen2.context_length"
    ∷ codes "mistral.context_length"
    ∷ codes "general.context_length"
    ∷ []

-- The loop over the keys. A value that is not a `u32` is passed over.
unfoldable pub first_u32 : {V : Type 0} → (Text → Option V) → (V → Option ℕ) → List Text → Option ℕ
first_u32 metadata to_u32 [] = none
first_u32 metadata to_u32 (key ∷ keys) = elim (metadata key) [
  | none ↦ first_u32 metadata to_u32 keys
  | some value ↦ elim (to_u32 value) [ some n ↦ some n | none ↦ first_u32 metadata to_u32 keys ]
]

abbrev pub no_context_length : CognitionError
no_context_length = model_load (
    codes
      "GGUFメタデータからcontext_lengthを取得できませんでした。モデルファイルが破損しているか、未対応のアーキテクチャです。暗黙のデフォルト値にフォールバックすることは設計方針上避けています。")

unfoldable pub read_context_length_metadata :
    {V : Type 0} → (Text → Option V) → (V → Option ℕ) → Result ℕ CognitionError
read_context_length_metadata metadata to_u32 = elim (first_u32 metadata to_u32 candidate_keys) [
  | some n ↦ ok n
  | none ↦ err no_context_length
]

-- `filter_map` over the candidates.
unfoldable pub known_ids : (Text → Option ℕ) → List Text → List ℕ
known_ids token_to_id [] = []
known_ids token_to_id (name ∷ names) =
    let rest = known_ids token_to_id names in
    elim (token_to_id name) [ some id ↦ id ∷ rest | none ↦ rest ]

-- The files and the crates that `load` reads: `F` is an open file, `C` the content of a GGUF file
-- and `V` a value of its metadata.
pub record Loader (M F C V : Type 0) : Type 0 where
  pub open_file : Text → Result F Text
  pub read_content : F → F × Result C Text
  pub metadata : C → Text → Option V
  pub to_u32 : V → Option ℕ
  pub from_gguf : C → F → Result M Text
  pub tokenizer_from_file : Text → Result Tokenizer Text

-- The last step of `load`.
abbrev pub loaded_backend :
    {M : Type 0} → M → ℕ → Tokenizer → List ℕ → Result (CandleGgufBackend M) CognitionError
loaded_backend model max_context tok [] =
    err (model_load (codes "トークナイザから終了トークン(<|eot_id|>等)を1つも検出できませんでした。未対応のモデル・トークナイザ形式の可能性があります。"))
loaded_backend model max_context tok (id ∷ ids) = ok (record {
  model = model;
  tokenizer = tok;
  max_context = max_context;
  position = 0;
  stop_token_ids = id ∷ ids;
})

abbrev pub not_opened : Text → Text → CognitionError
not_opened gguf_path e = model_load (codes "モデルファイルを開けませんでした(" ++ (gguf_path ++ (codes "): " ++ e)))

unfoldable pub load :
    {M F C V : Type 0} → Loader M F C V → Text → Text → Result (CandleGgufBackend M) CognitionError
load loader gguf_path tokenizer_path = do
  file ← map_err (not_opened gguf_path) (loader.open_file gguf_path)
  content ← map_err (λ e. model_load (codes "GGUFの読み込みに失敗: " ++ e)) (loader.read_content file).1
  max_context ← read_context_length_metadata (loader.metadata content) loader.to_u32
  model ←
      map_err (λ e. model_load (codes "モデル重みの構築に失敗: " ++ e))
        (loader.from_gguf content (loader.read_content file).0)
  tok ← map_err tokenizer (loader.tokenizer_from_file tokenizer_path)
  loaded_backend model max_context tok (known_ids tok.token_to_id stop_token_candidates)
