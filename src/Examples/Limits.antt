-- ===== src/Examples/Limits.antt =====
-- Tests and examples: token buckets, the comparison of findings and their cache.
use df_code_audit.Prelude.{
  leb, ltb, ◌+◌, ◌*◌, ◌-◌, ◌≤◌, ◌<◌, false, arith, ℕ, not, String, ◌≡◌, refl, Option, none, some,
  List, [], ◌∷◌, length, if◌then◌else◌,
}
use df_code_audit.Prelude.Eq.{beq, String_eq}
use df_code_audit.Prelude.Dict.{lookup, insert}
use df_code_audit.RateLimit.{stale_after, Float64, RateLimiter, new_rate_limiter, serve, limit_key}
use df_code_audit.RateLimit.Cleanup.{FloatLaws}
use df_code_audit.Comparison.{
  Finding, LocationKey_eq, key_of, index_from, count_location, count_sast, count_ai,
  quadrant_counts, calculate_quadrants, split_by_source,
}
use df_code_audit.Comparison.Cache.{
  FindingCache, finding_cache_cap, new_cache, evicted, put_over, finding_cache_put, and_id,
  put_fetched, resolve_over, resolve_from, resolve_findings,
}
use df_code_audit.Comparison.Resolve.{after_calls, Gave, Told, resolve_findings-Told}
use df_code_audit.Comparison.Counting.{
  locations, last_at, is_at, differ, how_many, quadrant_counts_lem,
}

user_key : limit_key "ann" "10.0.0.1" ≡ "user:ann"
unfolding limit_key
user_key = refl

-- Whole numbers in place of float64, where ten minutes fill any bucket and less adds nothing.
abbrev coarse : Float64 ℕ
coarse = record {
  one = 1;
  sixty = 60;
  of_int = λ n. n;
  seconds = λ ns. if ltb stale_after ns then 1 else 0;
  add = λ a b. a + b;
  sub = λ a b. a - b;
  mul = λ a b. a * b;
  div = λ a b. a;
  gt = λ a b. ltb b a;
  ge = λ a b. leb b a;
}

refills : (max ns : ℕ) → stale_after < ns → max ≤ (if ltb stale_after ns then 1 else 0) * max
refills max ns l = ground (arith, l)

not_above : (x y : ℕ) → x ≤ y → ltb x y ≡ false → y ≡ x
not_above x y l f = ground (arith, l, f)

unfoldable coarse_laws : FloatLaws coarse
coarse_laws = record {
  Le = λ a b. a ≤ b;
  NonNegative = λ a. Unit;
  long_refill = λ max ns pos l. refills max ns l;
  add_more = λ t x y pos l. omega (arith, l);
  no_time = λ t r. omega arith;
  Le-gt = λ x y l f. not_above x y l f;
}

abbrev at_start : RateLimiter ℕ
at_start = (serve coarse 5 "10.0.0.1" (new_rate_limiter coarse 2)).1

abbrev finding : String → ℕ → ℕ → String → Finding
finding path start_line severity tool = record {
  id = path;
  file_path = path;
  start_line = start_line;
  severity = severity;
  source_tool = tool;
}

abbrev compared : List Finding
compared =
    finding "a.go" 3 4 "semgrep"
    ∷ finding "a.go" 3 2 "ai_agent"
    ∷ finding "a.go" 3 4 "codeql"
    ∷ finding "b.go" 7 4 "ai_agent"
    ∷ []

-- Two scanners at one location are one location.
compared_counts :
    calculate_quadrants compared ≡ record { both = 1; sast_only = 0; ai_only = 1; disagreement = 1 }
unfolding calculate_quadrants split_by_source quadrant_counts index_from count_sast count_ai
    count_location key_of lookup insert
compared_counts = refl

quadrant_counts_lem_example :
    quadrant_counts (finding "a.go" 3 4 "semgrep" ∷ []) compared ≡ record {
      both = how_many (is_at compared) (locations [] (finding "a.go" 3 4 "semgrep" ∷ []));
      sast_only =
          how_many (λ l. not (is_at compared l)) (locations [] (finding "a.go" 3 4 "semgrep" ∷ []));
      ai_only =
          how_many (λ l. not (is_at (finding "a.go" 3 4 "semgrep" ∷ []) l)) (locations [] compared);
      disagreement =
          how_many
            (λ l.
              differ (last_at l (finding "a.go" 3 4 "semgrep" ∷ []) none) (last_at l compared none))
            (locations [] (finding "a.go" 3 4 "semgrep" ∷ []));
    }
quadrant_counts_lem_example = quadrant_counts_lem (finding "a.go" 3 4 "semgrep" ∷ []) compared

abbrev service_answer : String → Option Finding
service_answer id = if beq id "f1" then some (finding "a.go" 3 4 "semgrep") else none

abbrev warm : FindingCache
warm = (resolve_findings service_answer ("f1" ∷ []) new_cache).1

-- The second resolution takes f1 from the cache, once, and misses f2.
warm_missing :
    (resolve_findings service_answer ("f1" ∷ "f2" ∷ "f1" ∷ []) warm).0.missing ≡ "f2" ∷ []
unfolding resolve_findings resolve_from resolve_over put_fetched finding_cache_put put_over evicted
    and_id lookup insert
warm_missing = refl

resolve_findings-Told_example :
    Told
      (Gave ((service_answer, "f1" ∷ "f2" ∷ []) ∷ (service_answer, "f1" ∷ []) ∷ []))
      service_answer
      []
      ("f1" ∷ "f2" ∷ [])
      (resolve_findings service_answer
        ("f1" ∷ "f2" ∷ [])
        (after_calls ((service_answer, "f1" ∷ []) ∷ []) new_cache)).0
    × (length
          (resolve_findings service_answer
            ("f1" ∷ "f2" ∷ [])
            (after_calls ((service_answer, "f1" ∷ []) ∷ []) new_cache)).1.finding_order
        ≤ finding_cache_cap)
resolve_findings-Told_example =
    resolve_findings-Told ((service_answer, "f1" ∷ []) ∷ []) service_answer ("f1" ∷ "f2" ∷ [])
