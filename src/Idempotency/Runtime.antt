-- ===== src/Idempotency/Runtime.antt =====
-- engine/services/runtime-service/internal/service/idem_store.go: the runtime's store. The Redis
-- client is a parameter; its payload is kept decoded, and a payload that does not decode is an error.
use df_code_audit.Prelude.{
  ℕ, ◌-◌, String, Bool, not, Option, none, some, List, [], ◌∷◌, ◌++◌, length, if◌then◌else◌, ltb,
}
use df_code_audit.Prelude.Eq.{beq, String_eq}
use df_code_audit.Prelude.Dict.{Dict, lookup, insert, delete}
use df_code_audit.Prelude.Text.{concat}
use df_code_audit.Idempotency.{Entry, Store, dedup_window, max_entries}

pub data IdemState : Type 0 where
  idem_new : IdemState
  idem_replay : ℕ → IdemState
  idem_conflict : IdemState

unfoldable pub judge : ℕ → String → Option Entry → IdemState
judge now fingerprint none = idem_new
judge now fingerprint (some e) =
    if ltb dedup_window (now - e.saved_at)
    then idem_new
    else if not (beq e.body_hash fingerprint)
    then idem_conflict
    else idem_replay e.result

unfoldable pub check_memory : ℕ → String → String → Store → IdemState
unfolding judge
check_memory now id fingerprint s = judge now fingerprint (lookup id s.entries)

-- `if len(s.order) > max { delete(s.m, s.order[0]); s.order = s.order[1:] }`
unfoldable pub evict : ℕ → List String → Dict String Entry → Store
evict max [] entries = record { entries = entries; order = [] }
evict max (oldest ∷ order) entries =
    if ltb max (length (oldest ∷ order))
    then record { entries = delete oldest entries; order = order }
    else record { entries = entries; order = oldest ∷ order }

unfoldable pub make_room : ℕ → String → Option Entry → Store → Store
unfolding evict
make_room max id none s = evict max (s.order ++ id ∷ []) s.entries
make_room max id (some e) s = s

unfoldable pub save_memory_within : ℕ → ℕ → String → String → ℕ → Store → Store
unfolding make_room
save_memory_within max now id fingerprint resp s =
    let t = make_room max id (lookup id s.entries) s in
    record t {
      entries =
          insert id (record { body_hash = fingerprint; result = resp; saved_at = now }) t.entries;
    }

unfoldable pub save_memory : ℕ → String → String → ℕ → Store → Store
unfolding save_memory_within
save_memory = save_memory_within max_entries

-- What `Get` gives: an error, `redis.Nil`, or the payload, decoded or not.
pub data Fetched : Type 0 where
  fetch_error : String → Fetched
  nothing : Fetched
  payload : Option Entry → Fetched

unfoldable pub redis_key : String → String
redis_key id = concat "ca:idem:dsh:" id

-- `check` of the Redis store: a state and perhaps an error.
unfoldable pub check_fetched : String → Fetched → IdemState × Option String
check_fetched fingerprint (fetch_error e) = (idem_new, some e)
check_fetched fingerprint nothing = (idem_new, none)
check_fetched fingerprint (payload none) = (idem_new, some "idem payload")
check_fetched fingerprint (payload (some e)) =
    if not (beq e.body_hash fingerprint)
    then (idem_conflict, none)
    else (idem_replay e.result, none)

module _ (get : String → Fetched) where
  unfoldable pub check_redis : String → String → IdemState × Option String
  unfolding check_fetched redis_key
  check_redis id fingerprint = check_fetched fingerprint (get (redis_key id))

pub data Backend : Type 0 where
  memory redis : Backend

-- `dial` says whether `newRedisIdemStore` succeeds for an address.
module _ (dial : String → Bool) where
  unfoldable pub new_idem_store : String → Backend
  new_idem_store addr = if beq addr "" then memory else if dial addr then redis else memory
