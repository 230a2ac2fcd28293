-- ===== src/Cognition/Candle/Tokens.antt =====
-- The tokens that `generate` produces, and where it leaves the position.
use mathlib.Core.List.{append_assoc, append-nil}
use arona_os.Prelude.{
  ℕ, zero, suc, ◌+◌, ◌≤◌, ◌≡◌, ◌≢◌, refl, sym, ap, ◌∙◌, subst, inl, inr, Text, codes, true, false,
  List, [], ◌∷◌, ◌++◌, length, Result, ok, err, map_err, ltb, contains, nat_partial_eq, arith, All,
  Bool-cases,
}
use arona_os.Prelude.Actions.{◌>>=◌, lift, bind-eq-ok}
use arona_os.Cognition.{CognitionError, tokenizer, GenerationConfig}
use arona_os.Cognition.Candle.{Candle, CandleGgufBackend}
use arona_os.Cognition.Candle.Generate.{
  Generation, forward, advance, input_of, feed, row_of, token_of, take_token, sample_tokens,
  answer_prompt, context_too_long, generate,
}

-- The backend after `n` more tokens: the model has changed, and the position.
pub record Advanced {M : Type 0} (n : ℕ) (b b' : CandleGgufBackend M) : Type 0 where
  pub position : b'.position ≡ b.position + n
  pub stops : b'.stop_token_ids ≡ b.stop_token_ids
  pub limit : b'.max_context ≡ b.max_context
  pub words : b'.tokenizer ≡ b.tokenizer

Advanced-trans :
    {M : Type 0} (m n : ℕ) (a b c : CandleGgufBackend M)
    → Advanced m a b
    → Advanced n b c
    → Advanced (m + n) a c
Advanced-trans m n a b c p q = record {
  position = omega (arith, p.position, q.position);
  stops = q.stops ∙ p.stops;
  limit = q.limit ∙ p.limit;
  words = q.words ∙ p.words;
}

map_err-eq-ok :
    {A E F : Type 0} (f : E → F) (r : Result A E) (a : A) → map_err f r ≡ ok a → r ≡ ok a
map_err-eq-ok f (ok x) a h = cc
map_err-eq-ok f (err e) a h = absurd (cc h)

module _ {M X P : Type 0} (candle : Candle M X P) where
  feed-Advanced :
      (failure : Text) (tokens : List ℕ) (b b' : CandleGgufBackend M) (x : X)
      → feed candle failure tokens b ≡ (b', ok x)
      → Advanced (length tokens) b b'
  unfolding feed ◌>>=◌
  feed-Advanced failure tokens b b' x h =
      let (b₀, input, built, h₀) =
        bind-eq-ok (lift (input_of candle failure tokens))
          (λ input. forward candle input >>= λ logits. advance candle (length tokens) logits) b b' x
          h in
      let (b₁, logits, read, h₁) =
        bind-eq-ok (forward candle input) (λ logits. advance candle (length tokens) logits) b₀ b' x
          h₀ in
      let first : b ≡ b₀ = ap (λ r. r.0) built in
      let second = ap (λ r. r.0) read in
      let third = ap (λ r. r.0) h₁ in
      record {
        position = omega (
          arith,
          ap (λ c. c.position) first,
          ap (λ c. c.position) second,
          ap (λ c. c.position) third,
        );
        stops = sym (
            ap (λ c. c.stop_token_ids) first
            ∙ (ap (λ c. c.stop_token_ids) second ∙ ap (λ c. c.stop_token_ids) third));
        limit = sym (
            ap (λ c. c.max_context) first
            ∙ (ap (λ c. c.max_context) second ∙ ap (λ c. c.max_context) third));
        words = sym (
            ap (λ c. c.tokenizer) first
            ∙ (ap (λ c. c.tokenizer) second ∙ ap (λ c. c.tokenizer) third));
      }

  -- The tokens that a run of the loop adds.
  record Sampled (count : ℕ) (out result : List ℕ) (b b' : CandleGgufBackend M) : Type 0 where
    added : List ℕ
    joined : result ≡ out ++ added
    few : length added ≤ count
    kept : All (λ t. contains b.stop_token_ids t ≡ false) added
    advanced : Advanced (length added) b b'

  stopped :
      (count : ℕ) (out result : List ℕ) (b b' : CandleGgufBackend M)
      → ◌≡◌ {A = CandleGgufBackend M × Result (List ℕ) CognitionError} (b, ok out) (b', ok result)
      → Sampled count out result b b'
  stopped count out result b b' h =
      let same : b ≡ b' = ap (λ r. r.0) h in
      let whole : out ≡ result = cc (ap (λ r. r.1) h) in
      record {
        added = [];
        joined = sym whole ∙ sym (append-nil out);
        few = omega arith;
        kept = tt;
        advanced = subst (λ c. Advanced 0 b c) same (at_once b);
      }
    where
      at_once : (b : CandleGgufBackend M) → Advanced 0 b b
      at_once b = record { position = omega arith; stops = refl; limit = refl; words = refl }

  sample_tokens-Sampled :
      (count : ℕ) (p : P) (logits : X) (out result : List ℕ) (b b' : CandleGgufBackend M)
      → sample_tokens candle count p logits out b ≡ (b', ok result)
      → Sampled count out result b b'
  unfolding sample_tokens ◌>>=◌
  sample_tokens-Sampled zero p logits out result b b' h = stopped 0 out result b b' h
  sample_tokens-Sampled (suc count) p logits out result b b' h =
      let (b₀, row, shaped, h₀) =
        bind-eq-ok (lift (row_of candle logits))
          (λ row. lift (token_of candle row p) >>= λ t.
            take_token candle (sample_tokens candle count (candle.sample row p).0) out t)
          b b' result h in
      let later = sample_tokens candle count (candle.sample row p).0 in
      let (b₁, t, drawn, h₁) =
        bind-eq-ok (lift (token_of candle row p)) (λ t. take_token candle later out t) b₀ b' result
          h₀ in
      let same : b₁ ≡ b = sym (ap (λ r. r.0) shaped ∙ ap (λ r. r.0) drawn) in
      let taken : take_token candle later out t b ≡ (b', ok result) =
        subst (λ c. take_token candle later out t c ≡ (b', ok result)) same h₁ in
      elim (Bool-cases (contains b.stop_token_ids t)) [
        | inl stop ↦ stopped (suc count) out result b b' (sym (rw stop refl) ∙ taken)
        | inr new ↦
            let (c, logits', fed, rest) =
              bind-eq-ok (feed candle (codes "次入力の構築に失敗: ") (t ∷ []))
                (λ logits. later logits (out ++ (t ∷ []))) b b' result
                (sym (rw new refl) ∙ taken) in
            let one = feed-Advanced (codes "次入力の構築に失敗: ") (t ∷ []) b c logits' fed in
            let r =
              sample_tokens-Sampled count (candle.sample row p).0 logits' (out ++ (t ∷ [])) result c
                b' rest in
            record {
              added = t ∷ r.added;
              joined = r.joined ∙ append_assoc out (t ∷ []) r.added;
              few = omega (arith, r.few);
              kept = (new, subst (λ s. All (λ t. contains s t ≡ false) r.added) one.stops r.kept);
              advanced =
                  subst (λ n. Advanced n b b') (omega arith)
                    (Advanced-trans 1 (length r.added) b c b' one r.advanced);
            }
      ]

  -- What a successful answer consists of.
  pub record Answer (prompt text : Text) (limit : ℕ) (b b' : CandleGgufBackend M) : Type 0 where
    pub tokens : List ℕ
    pub generated : List ℕ
    pub encoded : b.tokenizer.encode prompt ≡ ok tokens
    pub decoded : b.tokenizer.decode generated ≡ ok text
    pub few : length generated ≤ limit
    pub kept : All (λ t. contains b.stop_token_ids t ≡ false) generated
    pub advanced : Advanced (length tokens + length generated) b b'

  answer_prompt-Answer :
      (prompt text : Text) (config : GenerationConfig) (seed : ℕ) (b b' : CandleGgufBackend M)
      → answer_prompt candle prompt config seed b ≡ (b', ok text)
      → Answer prompt text config.max_new_tokens b b'
  unfolding answer_prompt ◌>>=◌
  answer_prompt-Answer prompt text config seed b b' h =
      let encode : Generation candle (List ℕ) =
        λ b. (b, map_err tokenizer (b.tokenizer.encode prompt)) in
      let decode : List ℕ → Generation candle Text =
        λ ids b. (b, map_err tokenizer (b.tokenizer.decode ids)) in
      let p = candle.sampler seed config.temperature in
      let draw : X → Generation candle (List ℕ) =
        λ logits. sample_tokens candle config.max_new_tokens p logits [] in
      let first : List ℕ → Generation candle X = feed candle (codes "入力テンソルの構築に失敗: ") in
      let (b₀, tokens, encoded, h₀) =
        bind-eq-ok encode (λ tokens. first tokens >>= λ logits. draw logits >>= decode) b b' text
          h in
      let (b₁, logits, fed, h₁) =
        bind-eq-ok (first tokens) (λ logits. draw logits >>= decode) b₀ b' text h₀ in
      let (b₂, generated, drawn, h₂) = bind-eq-ok (draw logits) decode b₁ b' text h₁ in
      let begun : b₀ ≡ b = sym (ap (λ r. r.0) encoded) in
      let done : b₂ ≡ b' = ap (λ r. r.0) h₂ in
      let one : Advanced (length tokens) b b₁ =
        feed-Advanced (codes "入力テンソルの構築に失敗: ") tokens b b₁ logits
          (subst (λ c. first tokens c ≡ (b₁, ok logits)) begun fed) in
      let r = sample_tokens-Sampled config.max_new_tokens p logits [] generated b₁ b₂ drawn in
      let all : generated ≡ r.added = r.joined in
      let advanced = Advanced-trans (length tokens) (length r.added) b b₁ b₂ one r.advanced in
      let text_of : b₂.tokenizer.decode generated ≡ ok text =
        map_err-eq-ok tokenizer (b₂.tokenizer.decode generated) text (ap (λ r. r.1) h₂) in
      record {
        tokens = tokens;
        generated = r.added;
        encoded =
            map_err-eq-ok tokenizer (b.tokenizer.encode prompt) tokens (ap (λ r. r.1) encoded);
        decoded =
            sym (ap (λ w. w.decode r.added) advanced.words)
            ∙ (ap (λ ids. b₂.tokenizer.decode ids) (sym all) ∙ text_of);
        few = r.few;
        kept = subst (λ s. All (λ t. contains s t ≡ false) r.added) one.stops r.kept;
        advanced = subst (λ c. Advanced (length tokens + length r.added) b c) done advanced;
      }

  -- A backend that is asked for a longer context than the model has answers an error that names both
  -- lengths, and nothing of it changes.
  pub generate-too_long :
      (prompt : Text) (config : GenerationConfig) (seed : ℕ) (b : CandleGgufBackend M)
      → ltb b.max_context config.context_length ≡ true
      → generate candle prompt config seed b
        ≡ (b, err (context_too_long config.context_length b.max_context))
  unfolding generate
  generate-too_long prompt config seed b long = rw (long, generate) refl

  generate-answer_prompt :
      (prompt : Text) (config : GenerationConfig) (seed : ℕ) (b : CandleGgufBackend M)
      → ltb b.max_context config.context_length ≡ false
      → generate candle prompt config seed b ≡ answer_prompt candle prompt config seed b
  unfolding generate
  generate-answer_prompt prompt config seed b fits = rw (fits, generate) refl

  -- A generation that succeeds was asked for no longer context than the model has, and answers what
  -- the tokenizer decodes of the tokens generated, at most `max_new_tokens` and none of them a stop
  -- token. The position has moved by the tokens of the prompt and those generated; the limit, the
  -- stop tokens and the tokenizer are as before.
  pub generate-Answer :
      (prompt text : Text) (config : GenerationConfig) (seed : ℕ) (b b' : CandleGgufBackend M)
      → generate candle prompt config seed b ≡ (b', ok text)
      → (config.context_length ≤ b.max_context) × Answer prompt text config.max_new_tokens b b'
  generate-Answer prompt text config seed b b' h =
      elim (Bool-cases (ltb b.max_context config.context_length)) [
        | inl long ↦ absurd (refusal (sym (generate-too_long prompt config seed b long) ∙ h))
        | inr fits ↦ (
          ltb-false b.max_context config.context_length fits,
          answer_prompt-Answer prompt text config seed b b'
              (sym (generate-answer_prompt prompt config seed b fits) ∙ h),
        )
      ]
    where
      refusal :
          {b b' : CandleGgufBackend M} {e : CognitionError} {text : Text}
          → ◌≢◌ {A = CandleGgufBackend M × Result Text CognitionError} (b, err e) (b', ok text)
      refusal h = absurd (cc (ap (λ r. r.1) h))

      ltb-false : (m n : ℕ) → ltb m n ≡ false → n ≤ m
      ltb-false m n h = ground arith
