-- ===== src/RateLimit.antt =====
-- engine/services/gateway-service/internal/middleware/ratelimit.go: the token buckets. Times are in
-- nanoseconds of one clock. float64 is the interface `Float64`, whose rounding is left open. A request
-- is one step: what runs between its `getBucket` and its `allow` is left out, and so is `getClientIP`,
-- whose answer is given.
pub mod Cleanup
use df_code_audit.Prelude.{
  ℕ, suc, ◌+◌, ◌-◌, ◌*◌, String, Bool, true, false, Option, none, some, List, [], ◌∷◌, leb, ltb,
  if◌then◌else◌, ◌==◌,
}
use df_code_audit.Prelude.Eq.{beq, String_eq}
use df_code_audit.Prelude.Text.{concat}
use df_code_audit.Prelude.Dict.{Dict, lookup, insert}

-- Ten minutes
abbrev pub stale_after : ℕ
stale_after = 600000000000

-- The arithmetic of `float64` that the buckets use; `seconds` is `Duration.Seconds`.
pub record Float64 (F : Type 0) : Type 0 where
  pub one : F
  pub sixty : F
  pub of_int : ℕ → F
  pub seconds : ℕ → F
  pub add : F → F → F
  pub sub : F → F → F
  pub mul : F → F → F
  pub div : F → F → F
  pub gt : F → F → Bool
  pub ge : F → F → Bool

pub record TokenBucket (F : Type 0) : Type 0 where
  pub tokens : F
  pub max_tokens : F
  pub refill_rate : F
  pub last_refill : ℕ

pub record RateLimiter (F : Type 0) : Type 0 where
  pub buckets : Dict String (TokenBucket F)
  pub max_rate : F

-- A signed-in user has a bucket of his own; other requests share that of their address.
unfoldable pub limit_key : String → String → String
limit_key sub ip = if beq sub "" then ip else concat "user:" sub

module _ {F : Type 0} (fl : Float64 F) where
  unfoldable pub new_token_bucket : ℕ → F → F → TokenBucket F
  new_token_bucket now max_tokens refill_rate = record {
    tokens = max_tokens;
    max_tokens = max_tokens;
    refill_rate = refill_rate;
    last_refill = now;
  }

  abbrev pub at_most : F → F → F
  at_most max n = if fl.gt n max then max else n

  unfoldable pub refilled : ℕ → TokenBucket F → F
  refilled now b =
      at_most b.max_tokens
        (fl.add b.tokens (fl.mul (fl.seconds (now - b.last_refill)) b.refill_rate))

  -- `tokens` is what the bucket holds after the refill.
  unfoldable pub take_token : ℕ → TokenBucket F → F → Bool × TokenBucket F
  take_token now b tokens =
      if fl.ge tokens fl.one
      then (true, record b { tokens = fl.sub tokens fl.one; last_refill = now })
      else (false, record b { tokens = tokens; last_refill = now })

  unfoldable pub allow : ℕ → TokenBucket F → Bool × TokenBucket F
  unfolding refilled take_token
  allow now b = take_token now b (refilled now b)

  unfoldable pub new_rate_limiter : ℕ → RateLimiter F
  new_rate_limiter per_minute = record { buckets = []; max_rate = fl.of_int per_minute }

  unfoldable pub bucket_or_new : ℕ → F → Option (TokenBucket F) → TokenBucket F
  unfolding new_token_bucket
  bucket_or_new now max_rate (some b) = b
  bucket_or_new now max_rate none = new_token_bucket now max_rate (fl.div max_rate fl.sixty)

  -- A request: whether it passes, and the limiter after it.
  unfoldable pub serve : ℕ → String → RateLimiter F → Bool × RateLimiter F
  unfolding bucket_or_new allow
  serve now key l =
      let (passes, b) = allow now (bucket_or_new now l.max_rate (lookup key l.buckets)) in
      (passes, record l { buckets = insert key b l.buckets })

module _ {F : Type 0} where
  unfoldable pub drop_stale : ℕ → Dict String (TokenBucket F) → Dict String (TokenBucket F)
  drop_stale now [] = []
  drop_stale now ((k, b) ∷ m) =
      if ltb stale_after (now - b.last_refill) then drop_stale now m else (k, b) ∷ drop_stale now m

  -- A tick of the cleanup.
  unfoldable pub cleanup : ℕ → RateLimiter F → RateLimiter F
  unfolding drop_stale
  cleanup now l = record l { buckets = drop_stale now l.buckets }
