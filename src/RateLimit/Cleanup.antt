-- ===== src/RateLimit/Cleanup.antt =====
-- The cleanup and the answers after it.
use df_code_audit.Prelude.{
  ℕ, ◌-◌, ◌<◌, String, true, false, ◌≡◌, Option, none, some, [], ◌∷◌, ◌⊎◌, ltb,
}
use df_code_audit.Prelude.Eq.{String_eq}
use df_code_audit.Prelude.Dict.{Dict, lookup}
use df_code_audit.RateLimit.{stale_after, Float64, TokenBucket}

-- What the buckets rely on of the finite float64 numbers, whose rounding keeps order: ten minutes at a
-- sixtieth per second are no less than the whole, adding something to what is not negative takes
-- nothing away, and no time adds nothing.
pub record FloatLaws {F : Type 0} (fl : Float64 F) : Type 1 where
  pub Le : F → F → Type 0
  pub NonNegative : F → Type 0
  pub long_refill :
      (max : F) (ns : ℕ)
      → NonNegative max
      → stale_after < ns
      → Le max (fl.mul (fl.seconds ns) (fl.div max fl.sixty))
  pub add_more : (t x y : F) → NonNegative t → Le x y → Le x (fl.add t y)
  pub no_time : (t r : F) → fl.add t (fl.mul (fl.seconds 0) r) ≡ t
  pub Le-gt : (x y : F) → Le x y → fl.gt y x ≡ false → y ≡ x

module _ {F : Type 0} (fl : Float64 F) (laws : FloatLaws fl) where
  -- A bucket of the limiter's rate, with no debt.
  abbrev pub HasRate : F → TokenBucket F → Type 0
  HasRate max b =
      (b.max_tokens ≡ max) × (b.refill_rate ≡ fl.div max fl.sixty) × laws.NonNegative b.tokens

  -- Each key has one bucket, all of the limiter's rate.
  abbrev pub Rated : F → Dict String (TokenBucket F) → Type 0
  Rated max [] = Unit
  Rated max ((k, b) ∷ m) = HasRate max b × (lookup k m ≡ none) × Rated max m

  -- A key keeps its bucket, or the bucket is stale and it has none.
  abbrev Fate : ℕ → Option (TokenBucket F) → Option (TokenBucket F) → Type 0
  Fate at before after =
      (after ≡ before)
      ⊎ ((b : TokenBucket F) × (before ≡ some b)
          × (after ≡ none)
          × (ltb stale_after (at - b.last_refill) ≡ true))
