-- ===== src/Policy/Cost.antt =====
-- cost.py: prices of calls. A price is in millionths of a dollar for a million tokens.
use claude_swarm.Prelude.{
  ℕ, ◌+◌, ◌*◌, String, List, [], ◌∷◌, Option, none, some, ◌==◌, string_eq, if◌then◌else◌,
}

pub record ModelPrice : Type 0 where
  pub input : ℕ
  pub cache_write_5m : ℕ
  pub cache_write_1h : ℕ
  pub cache_read : ℕ
  pub output : ℕ

abbrev pub opus_price : ModelPrice
opus_price = record {
  input = 5000000;
  cache_write_5m = 6250000;
  cache_write_1h = 10000000;
  cache_read = 500000;
  output = 15000000;
}

abbrev pub sonnet_price : ModelPrice
sonnet_price = record {
  input = 3000000;
  cache_write_5m = 3750000;
  cache_write_1h = 6000000;
  cache_read = 300000;
  output = 15000000;
}

abbrev pub haiku_price : ModelPrice
haiku_price = record {
  input = 800000;
  cache_write_5m = 1000000;
  cache_write_1h = 1600000;
  cache_read = 80000;
  output = 4000000;
}

abbrev pub model_pricing : List (String × ModelPrice)
model_pricing =
    ("claude-opus-4-8", opus_price)
    ∷ ("claude-opus-4-7", opus_price)
    ∷ ("claude-sonnet-4-6", sonnet_price)
    ∷ ("claude-haiku-4-5-20251001", haiku_price)
    ∷ ("claude-haiku-4-5", haiku_price)
    ∷ []

abbrev pub model_aliases : List (String × String)
model_aliases =
    ("opus", "claude-opus-4-7")
    ∷ ("sonnet", "claude-sonnet-4-6")
    ∷ ("haiku", "claude-haiku-4-5")
    ∷ ("haiku-20251001", "claude-haiku-4-5-20251001")
    ∷ []

abbrev pub dict_get : {A : Type 0} → String → List (String × A) → Option A
dict_get k [] = none
dict_get k ((j, a) ∷ d) = if j == k then some a else dict_get k d

unfoldable pub resolve_model : String → String
resolve_model name = elim (dict_get name model_aliases) [ none ↦ name | some model ↦ model ]

pub record CallTokens : Type 0 where
  pub input_tokens : ℕ
  pub cache_read_tokens : ℕ
  pub cache_write_5m_tokens : ℕ
  pub cache_write_1h_tokens : ℕ
  pub output_tokens : ℕ

-- The cost times a million.
abbrev pub priced : ModelPrice → CallTokens → ℕ
priced p t =
    t.input_tokens * p.input
    + t.cache_read_tokens * p.cache_read
    + t.cache_write_5m_tokens * p.cache_write_5m
    + t.cache_write_1h_tokens * p.cache_write_1h
    + t.output_tokens * p.output

-- In millionths of a millionth of a dollar, so that the division by a million is exact.
unfoldable pub price_call : String → CallTokens → ℕ
unfolding resolve_model
price_call model t = elim (dict_get (resolve_model model) model_pricing) [
  | none ↦ 0
  | some p ↦ priced p t
]
