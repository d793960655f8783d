-- ===== src/Idempotency.antt =====
-- engine/services/project-service/internal/idempotency/store.go: the answers kept for repeated
-- requests. The runtime's store is the child `Runtime`.
-- Times and durations are numbers of nanoseconds; a response is the reference of the kept object.
-- `Check` is two critical sections, between which other requests may change the store.
pub mod Runtime
pub mod Order
pub mod InStep
pub mod Contract
pub mod Eviction
pub mod Survival
use df_code_audit.Prelude.{
  ℕ, ◌-◌, String, Bool, true, false, ◌&&◌, Option, none, some, List, [], ◌∷◌, ◌++◌, length,
  if◌then◌else◌, ◌==◌, ltb,
}
use df_code_audit.Prelude.Eq.{beq, String_eq}
use df_code_audit.Prelude.Dict.{Dict, lookup, insert, delete}

-- 24 hours
abbrev pub dedup_window : ℕ
dedup_window = 86400000000000

abbrev pub max_entries : ℕ
max_entries = 10000

pub record Entry : Type 0 where
  pub body_hash : String
  pub result : ℕ
  pub saved_at : ℕ

-- The entries by request id, and the ids in the order of their first insertion.
pub record Store : Type 0 where
  pub entries : Dict String Entry
  pub order : List String

unfoldable pub new_store : Store
new_store = record { entries = []; order = [] }

pub data Answer : Type 0 where
  proceed : Answer
  replay : ℕ → Answer
  already_exists : String → Answer

unfoldable pub entry_beq : Entry → Entry → Bool
entry_beq a b = beq a.body_hash b.body_hash && (a.result == b.result && a.saved_at == b.saved_at)

-- The order without the first place of an id.
unfoldable pub remove_first : String → List String → List String
remove_first id [] = []
remove_first id (x ∷ xs) = if beq x id then xs else x ∷ remove_first id xs

unfoldable pub delete_locked : String → Store → Store
delete_locked id s = record { entries = delete id s.entries; order = remove_first id s.order }

-- The second section of `Check`: the entry goes if it is still the one that was read.
unfoldable pub clear_found : Option Entry → Entry → String → Store → Store
clear_found none existing id s = s
clear_found (some cur) existing id s = if entry_beq cur existing then delete_locked id s else s

unfoldable pub clear_expired : Entry → String → Store → Store
unfolding clear_found
clear_expired existing id s = clear_found (lookup id s.entries) existing id s

unfoldable pub is_past : ℕ → Entry → Bool
is_past now existing = ltb dedup_window (now - existing.saved_at)

-- What the first section finds decides the answer.
unfoldable pub answer : ℕ → String → String → Option Entry → Answer
answer now id hash none = proceed
answer now id hash (some existing) =
    if is_past now existing
    then proceed
    else if beq existing.body_hash hash
    then replay existing.result
    else already_exists id

-- What the second section leaves of the store, which others may have changed in between.
unfoldable pub settle : ℕ → String → Option Entry → Store → Store
settle now id none s = s
settle now id (some existing) s = if is_past now existing then clear_expired existing id s else s

unfoldable pub check : ℕ → String → String → Store → Answer × Store
unfolding answer settle
check now id hash s =
    (answer now id hash (lookup id s.entries), settle now id (lookup id s.entries) s)

-- `if _, exists := …; !exists { order = append(order, id) }`
unfoldable pub appended : {V : Type 0} → Option V → String → List String → List String
appended none id order = order ++ id ∷ []
appended (some e) id order = order

-- `for len(s.order) > max`
unfoldable pub trim : ℕ → List String → Dict String Entry → Store
trim max [] entries = record { entries = entries; order = [] }
trim max (oldest ∷ order) entries =
    let rest = trim max order (delete oldest entries) in
    if ltb max (length (oldest ∷ order))
    then rest
    else record { entries = entries; order = oldest ∷ order }

unfoldable pub save_within : ℕ → ℕ → String → String → ℕ → Store → Store
unfolding appended trim
save_within max now id hash result s =
    trim max (appended (lookup id s.entries) id s.order)
      (insert id (record { body_hash = hash; result = result; saved_at = now }) s.entries)

unfoldable pub save : ℕ → String → String → ℕ → Store → Store
unfolding save_within
save = save_within max_entries
