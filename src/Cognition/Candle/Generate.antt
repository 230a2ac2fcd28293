-- ===== src/Cognition/Candle/Generate.antt =====
-- `generate` of arona_agy/arona_cognition/src/candle_backend.rs, a function on the backend that may
-- fail. What `rand::random` answers is an argument.
use arona_os.Prelude.{
  ℕ, zero, suc, ◌+◌, Text, codes, decimal, List, [], ◌∷◌, ◌++◌, length, Result, ok, err, map_err,
  ltb, contains, nat_partial_eq, if◌then◌else◌,
}
use arona_os.Prelude.Actions.{Action, ◌>>=◌, lift}
use arona_os.Cognition.{CognitionError, inference, tokenizer, GenerationConfig, CognitionBackend}
use arona_os.Cognition.Candle.{Candle, CandleGgufBackend}

abbrev pub context_too_long : ℕ → ℕ → CognitionError
context_too_long asked limit = inference (
    codes "要求されたコンテキスト長("
    ++ (decimal asked
        ++ (codes ")がモデルの上限("
            ++ (decimal limit ++ codes ")を超えています。黙って切り詰めることはせず、呼び出し側で調整してください。"))))

module _ {M X P : Type 0} (candle : Candle M X P) where
  abbrev pub Generation : Type 0 → Type 0
  Generation A = Action (CandleGgufBackend M) CognitionError A

  -- `self.model.forward`, at the position.
  abbrev pub forward : X → Generation X
  forward input b =
      let (model, answer) = candle.forward input b.position b.model in
      (record b { model = model }, map_err (λ e. inference (codes "フォワードパスに失敗: " ++ e)) answer)

  -- `self.position +=`
  abbrev pub advance : ℕ → X → Generation X
  advance n logits b = (record b { position = b.position + n }, ok logits)

  abbrev pub input_of : Text → List ℕ → Result X CognitionError
  input_of failure tokens = map_err (λ e. inference (failure ++ e)) (candle.tensor tokens)

  -- The model reads tokens at the position, which moves behind them.
  unfoldable pub feed : Text → List ℕ → Generation X
  unfolding ◌>>=◌
  feed failure tokens = do
    input ← lift (input_of failure tokens)
    logits ← forward input
    advance (length tokens) logits

  abbrev pub row_of : X → Result X CognitionError
  row_of next_logits =
      map_err (λ e. inference (codes "logitsの整形に失敗: " ++ e)) (candle.squeeze next_logits)

  abbrev pub token_of : X → P → Result ℕ CognitionError
  token_of row logits_processor =
      map_err (λ e. inference (codes "サンプリングに失敗: " ++ e)) (candle.sample row logits_processor).1

  -- The rest of a pass: a stop token ends the loop, and any other is kept and read by the model.
  abbrev pub take_token : (X → List ℕ → Generation (List ℕ)) → List ℕ → ℕ → Generation (List ℕ)
  take_token later generated_tokens next_token b =
      if contains b.stop_token_ids next_token
      then (b, ok generated_tokens)
      else (feed (codes "次入力の構築に失敗: ") (next_token ∷ []) >>= λ logits.
            later logits (generated_tokens ++ (next_token ∷ [])))
          b

  -- The loop over the new tokens, for the `count` passes that are left.
  unfoldable pub sample_tokens : ℕ → P → X → List ℕ → Generation (List ℕ)
  unfolding ◌>>=◌ feed
  sample_tokens zero logits_processor next_logits generated_tokens = lift (ok generated_tokens)
  sample_tokens (suc count) logits_processor next_logits generated_tokens = do
    row ← lift (row_of next_logits)
    next_token ← lift (token_of row logits_processor)
    take_token (sample_tokens count (candle.sample row logits_processor).0) generated_tokens
        next_token

  -- The part of `generate` behind the check of the context length.
  unfoldable pub answer_prompt : Text → GenerationConfig → ℕ → Generation Text
  unfolding ◌>>=◌
  answer_prompt prompt config seed = do
    tokens ← λ b. (b, map_err tokenizer (b.tokenizer.encode prompt))
    logits ← feed (codes "入力テンソルの構築に失敗: ") tokens
    generated_tokens ←
        sample_tokens config.max_new_tokens (candle.sampler seed config.temperature) logits []
    λ b. (b, map_err tokenizer (b.tokenizer.decode generated_tokens))

  unfoldable pub generate : Text → GenerationConfig → ℕ → Generation Text
  generate prompt config seed b =
      if ltb b.max_context config.context_length
      then (b, err (context_too_long config.context_length b.max_context))
      else answer_prompt prompt config seed b

  -- The implementation of the trait.
  unfoldable pub candle_backend : ℕ → CognitionBackend (CandleGgufBackend M)
  candle_backend seed = record {
    generate = λ prompt config b. generate prompt config seed b;
    max_supported_context = λ b. b.max_context;
  }
