-- ===== src/Cognition.antt =====
-- arona_agy/arona_cognition/src/backend.rs: the interface of the language model behind the system.
pub mod Candle
use arona_os.Prelude.{ℕ, Text, Result}

pub data CognitionError : Type 0 where
  model_load : Text → CognitionError
  inference : Text → CognitionError
  tokenizer : Text → CognitionError

-- The temperature is an `f32`, by its bit pattern.
pub record GenerationConfig : Type 0 where
  pub context_length : ℕ
  pub max_new_tokens : ℕ
  pub temperature : ℕ

-- 0.7 as an `f32`.
abbrev pub default_temperature : ℕ
default_temperature = 0x3f33_3333

abbrev pub new_config : ℕ → ℕ → GenerationConfig
new_config context_length max_new_tokens = record {
  context_length = context_length;
  max_new_tokens = max_new_tokens;
  temperature = default_temperature;
}

-- The trait, over the implementation's state `S`, which a call may change.
pub record CognitionBackend (S : Type 0) : Type 0 where
  pub generate : Text → GenerationConfig → S → S × Result Text CognitionError
  pub max_supported_context : S → ℕ
