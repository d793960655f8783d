-- ===== src/Comparison/Cache.antt =====
-- engine/services/sast-adapter-service/internal/handler/fusion_handler.go: the cache of findings before the
-- result service (resolveFindings, findingCachePut). The answers of the result service are a
-- parameter. A finding that is handed out is a clone, so findings are values here.
use df_code_audit.Prelude.{
  ℕ, String, true, false, Option, none, some, List, [], ◌∷◌, ◌++◌, length, ltb, if◌then◌else◌,
}
use df_code_audit.Prelude.Eq.{String_eq, contains}
use df_code_audit.Prelude.Dict.{Dict, lookup, insert, delete}
use df_code_audit.Comparison.{Finding}

abbrev pub finding_cache_cap : ℕ
finding_cache_cap = 2000

pub record FindingCache : Type 0 where
  pub finding_store : Dict String Finding
  pub finding_order : List String

abbrev pub new_cache : FindingCache
new_cache = record { finding_store = []; finding_order = [] }

-- The order of entry and the store, the oldest entry dropped where there are more than `cap`.
unfoldable pub evicted : ℕ → List String → Dict String Finding → FindingCache
evicted cap [] m = record { finding_store = m; finding_order = [] }
evicted cap (evict ∷ order) m =
    if ltb cap (length (evict ∷ order))
    then record { finding_store = delete evict m; finding_order = order }
    else record { finding_store = m; finding_order = evict ∷ order }

-- What the store has under the id decides.
unfoldable pub put_over : ℕ → String → Finding → FindingCache → Option Finding → FindingCache
unfolding evicted
put_over cap id f c (some g) = c
put_over cap id f c none = evicted cap (c.finding_order ++ id ∷ []) (insert id f c.finding_store)

unfoldable pub finding_cache_put : ℕ → String → Finding → FindingCache → FindingCache
unfolding put_over
finding_cache_put cap id f c = put_over cap id f c (lookup id c.finding_store)

pub record Resolved : Type 0 where
  pub out : List Finding
  pub missing : List String

-- One id, with its finding or without.
unfoldable pub and_id : String → Option Finding → Resolved → Resolved
and_id id (some f) r = record r { out = f ∷ r.out }
and_id id none r = record r { missing = id ∷ r.missing }

module _ (fetch_from_result : String → Option Finding) where
  unfoldable pub put_fetched : ℕ → String → Option Finding → FindingCache → FindingCache
  unfolding finding_cache_put
  put_fetched cap id none c = c
  put_fetched cap id (some f) c = finding_cache_put cap id f c

  -- The finding of an id, from the cache or the result service, and the cache after it.
  unfoldable pub resolve_over :
      ℕ → String → FindingCache → Option Finding → Option Finding × FindingCache
  unfolding put_fetched
  resolve_over cap id c (some f) = (some f, c)
  resolve_over cap id c none = (fetch_from_result id, put_fetched cap id (fetch_from_result id) c)

  unfoldable pub resolve_from :
      ℕ → List String → List String → FindingCache → Resolved × FindingCache
  unfolding resolve_over and_id
  resolve_from cap seen [] c = (record { out = []; missing = [] }, c)
  resolve_from cap seen (id ∷ ids) c = elim (contains id seen) [
    | true ↦ resolve_from cap seen ids c
    | false ↦
        let (found, c1) = resolve_over cap id c (lookup id c.finding_store) in
        let (rest, c2) = resolve_from cap (id ∷ seen) ids c1 in (and_id id found rest, c2)
  ]

  unfoldable pub resolve_findings : List String → FindingCache → Resolved × FindingCache
  unfolding resolve_from
  resolve_findings ids c = resolve_from finding_cache_cap [] ids c
