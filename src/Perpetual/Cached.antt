-- ===== src/Perpetual/Cached.antt =====
-- perpetual.py: `build_cached_blocks`.
use claude_swarm.Prelude.{
  String, Bool, not, List, [], ◌∷◌, ◌∙◌, map, Option, none, some, ◌≡◌, refl, ap, ◌==◌, string_eq,
  if◌then◌else◌, keep, arith, Bool-cases, inl, inr,
}

-- A text block of the wire payload; `cache_control` is the `ttl` of an ephemeral cache entry.
pub record Block : Type 0 where
  pub text : String
  pub cache_control : Option String

abbrev pub plain : String → Block
plain text = record { text = text; cache_control = none }

abbrev pub is_text : String × String → Bool
is_text (label, text) = not (text == "")

-- `out` after the loop.
unfoldable pub plain_blocks : List (String × String) → List Block
plain_blocks [] = []
plain_blocks ((label, text) ∷ blocks) =
    let rest = plain_blocks blocks in if text == "" then rest else plain text ∷ rest

-- `out[-1]["cache_control"] = ...`
unfoldable pub mark_last : String → List Block → List Block
mark_last ttl [] = []
mark_last ttl (b ∷ []) = record b { cache_control = some ttl } ∷ []
mark_last ttl (b ∷ c ∷ bs) = b ∷ mark_last ttl (c ∷ bs)

unfoldable pub build_cached_blocks : List (String × String) → String → List Block
unfolding plain_blocks mark_last
build_cached_blocks blocks ttl = mark_last ttl (plain_blocks blocks)

-- The last block, and no other, ends the prefix that is cached.
abbrev pub IsPrefixCached : String → List Block → Type 0
IsPrefixCached ttl [] = Unit {0}
IsPrefixCached ttl (b ∷ []) = b.cache_control ≡ some ttl
IsPrefixCached ttl (b ∷ c ∷ bs) = (b.cache_control ≡ none) × IsPrefixCached ttl (c ∷ bs)

abbrev pub block_text : Block → String
block_text b = b.text

abbrev pub label_text : String × String → String
label_text p = p.1

mark_last-text :
    (ttl : String) (bs : List Block) → map block_text (mark_last ttl bs) ≡ map block_text bs
unfolding mark_last
mark_last-text ttl [] = refl
mark_last-text ttl (b ∷ []) = refl
mark_last-text ttl (b ∷ c ∷ bs) = ap (λ ts. b.text ∷ ts) (mark_last-text ttl (c ∷ bs))

plain_blocks-text :
    (blocks : List (String × String))
    → map block_text (plain_blocks blocks) ≡ map label_text (keep is_text blocks)
unfolding plain_blocks
plain_blocks-text [] = refl
plain_blocks-text ((label, text) ∷ blocks) = ground (arith, plain_blocks-text blocks)

abbrev pub IsPlain : List Block → Type 0
IsPlain [] = Unit {0}
IsPlain (b ∷ bs) = (b.cache_control ≡ none) × IsPlain bs

plain_blocks-IsPlain : (blocks : List (String × String)) → IsPlain (plain_blocks blocks)
unfolding plain_blocks
plain_blocks-IsPlain [] = tt
plain_blocks-IsPlain ((label, text) ∷ blocks) = elim (Bool-cases (text == "")) [
  | inl e ↦ rw e (plain_blocks-IsPlain blocks)
  | inr e ↦ rw e (refl, plain_blocks-IsPlain blocks)
]

mark_last-IsPrefixCached :
    (ttl : String) (bs : List Block) → IsPlain bs → IsPrefixCached ttl (mark_last ttl bs)
unfolding mark_last
mark_last-IsPrefixCached ttl [] h = tt
mark_last-IsPrefixCached ttl (b ∷ []) h = refl
mark_last-IsPrefixCached ttl (b ∷ c ∷ []) h = (h.0, refl)
mark_last-IsPrefixCached ttl (b ∷ c ∷ d ∷ bs) h =
    (h.0, mark_last-IsPrefixCached ttl (c ∷ d ∷ bs) h.1)

-- The payload has the texts that are not empty, in their order, and the cache mark stands on the last of
-- them alone.
pub build_cached_blocks-IsPrefixCached :
    (blocks : List (String × String)) (ttl : String)
    → (map block_text (build_cached_blocks blocks ttl) ≡ map label_text (keep is_text blocks))
      × IsPrefixCached ttl (build_cached_blocks blocks ttl)
unfolding build_cached_blocks
build_cached_blocks-IsPrefixCached blocks ttl = (
  mark_last-text ttl (plain_blocks blocks) ∙ plain_blocks-text blocks,
  mark_last-IsPrefixCached ttl (plain_blocks blocks) (plain_blocks-IsPlain blocks),
)
