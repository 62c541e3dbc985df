-- ===== src/Policy/Prices.antt =====
-- cost.py: prices add up, and every name that is known has a price.
use claude_swarm.Prelude.{
  ◌+◌, String, some, ◌≡◌, refl, arith, Option-cases, inl, inr, All, string_eq,
}
use claude_swarm.Policy.Cost.{
  ModelPrice, CallTokens, dict_get, model_pricing, model_aliases, resolve_model, priced, price_call,
}

abbrev pub both : CallTokens → CallTokens → CallTokens
both s t = record {
  input_tokens = s.input_tokens + t.input_tokens;
  cache_read_tokens = s.cache_read_tokens + t.cache_read_tokens;
  cache_write_5m_tokens = s.cache_write_5m_tokens + t.cache_write_5m_tokens;
  cache_write_1h_tokens = s.cache_write_1h_tokens + t.cache_write_1h_tokens;
  output_tokens = s.output_tokens + t.output_tokens;
}

priced-both : (p : ModelPrice) (s t : CallTokens) → priced p (both s t) ≡ priced p s + priced p t
priced-both p s t = ground arith

-- The alias leads to a model that has a price.
abbrev pub IsPriced : String × String → Type 0
IsPriced (alias, model) =
    (resolve_model alias ≡ model) × ((p : ModelPrice) × (dict_get model model_pricing ≡ some p))

aliases-IsPriced : All IsPriced model_aliases
unfolding resolve_model
aliases-IsPriced =
    ((refl, (_, refl)), ((refl, (_, refl)), ((refl, (_, refl)), ((refl, (_, refl)), tt))))

-- The price of a model is additive in the tokens, so calls can be priced one by one or together, and each
-- alias stands for a model of the table.
pub price_call-both :
    (model : String) (s t : CallTokens)
    → (price_call model (both s t) ≡ price_call model s + price_call model t)
      × All IsPriced model_aliases
unfolding price_call
price_call-both model s t = elim (Option-cases (dict_get (resolve_model model) model_pricing)) [
  | inl e ↦ rw (price_call, e) (refl, aliases-IsPriced)
  | inr (p, e) ↦ rw (price_call, e) (priced-both p s t, aliases-IsPriced)
]
