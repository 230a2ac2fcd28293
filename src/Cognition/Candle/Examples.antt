-- ===== src/Cognition/Candle/Examples.antt =====
-- Tests with a model that counts: the token behind `n` is `n + 1`, and 5 ends the answer.
use arona_os.Prelude.{
  ℕ, ◌+◌, ◌≤◌, ◌≡◌, refl, codes, List, [], ◌∷◌, none, some, ok, text_eq, if◌then◌else◌,
}
use arona_os.Prelude.Actions.{◌>>=◌}
use arona_os.Cognition.{new_config}
use arona_os.Cognition.Candle.{
  Tokenizer, Candle, CandleGgufBackend, Loader, first_u32, read_context_length_metadata, known_ids,
  load,
}
use arona_os.Cognition.Candle.Generate.{feed, sample_tokens, answer_prompt, generate}
use arona_os.Cognition.Candle.Tokens.{Answer, generate-Answer}
use arona_os.Cognition.Candle.Loading.{Loaded, load-Loaded}

abbrev last_of : List ℕ → ℕ
last_of [] = 0
last_of (x ∷ []) = x
last_of (x ∷ y ∷ ys) = last_of (y ∷ ys)

abbrev counting : Candle ℕ ℕ ℕ
counting = record {
  tensor = λ tokens. ok (last_of tokens);
  forward = λ x position m. (position, ok x);
  squeeze = λ x. ok x;
  sampler = λ seed temperature. seed;
  sample = λ x p. (p, ok (x + 1));
}

abbrev numbers : Tokenizer
numbers = record {
  token_to_id = λ name. if text_eq name (codes "</s>") then some 5 else none;
  encode = λ text. ok text;
  decode = λ ids. ok ids;
}

abbrev loader : Loader ℕ ℕ ℕ ℕ
loader = record {
  open_file = λ path. ok 0;
  read_content = λ f. (f, ok 0);
  metadata = λ c key. if text_eq key (codes "qwen2.context_length") then some 8 else none;
  to_u32 = λ v. some v;
  from_gguf = λ c f. ok 0;
  tokenizer_from_file = λ path. ok numbers;
}

abbrev fresh : CandleGgufBackend ℕ
fresh = record {
  model = 0;
  tokenizer = numbers;
  max_context = 8;
  position = 0;
  stop_token_ids = 5 ∷ [];
}

load-fresh : load loader (codes "model.gguf") (codes "tokenizer.json") ≡ ok fresh
unfolding load read_context_length_metadata first_u32 known_ids text_eq
load-fresh = refl

load-Loaded_example : Loaded loader (codes "model.gguf") (codes "tokenizer.json") fresh
load-Loaded_example =
    load-Loaded loader (codes "model.gguf") (codes "tokenizer.json") fresh load-fresh

abbrev answered : CandleGgufBackend ℕ
answered = record {
  model = 2;
  tokenizer = numbers;
  max_context = 8;
  position = 3;
  stop_token_ids = 5 ∷ [];
}

generate_answered :
    generate counting (2 ∷ []) (new_config 8 10) 1 fresh ≡ (answered, ok (3 ∷ 4 ∷ []))
unfolding generate answer_prompt feed sample_tokens ◌>>=◌
generate_answered = refl

generate-Answer_example :
    (8 ≤ fresh.max_context) × Answer counting (2 ∷ []) (3 ∷ 4 ∷ []) 10 fresh answered
generate-Answer_example =
    generate-Answer counting (2 ∷ []) (3 ∷ 4 ∷ []) (new_config 8 10) 1 fresh answered
      generate_answered
