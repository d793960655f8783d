-- ===== src/Session.antt =====
-- engine/services/runtime-service/internal/session/session.go: the sessions of the analysis runtime.
-- The table holds pointers; callers keep the pointer that they got, so the sessions stand on a heap.
-- Times are natural numbers. A session's count of sandboxes is an int64 that no run fills.
pub mod Table
pub mod Expiry
pub mod Access
use df_code_audit.Prelude.{
  ℕ, suc, ◌+◌, ◌-◌, String, Bool, true, false, not, Option, none, some, List, [], ◌∷◌, any,
  if◌then◌else◌, ◌==◌, ltb,
}
use df_code_audit.Prelude.Eq.{beq, String_eq}
use df_code_audit.Prelude.Dict.{Dict, lookup, insert, delete}
use df_code_audit.Prelude.Text.{Bytes, codes, has_prefix, has_part}

pub data SessionState : Type 0 where
  active cancelled expired : SessionState

pub record SandboxConfig : Type 0 where
  pub max_memory_mb : ℕ
  pub max_cpu_cores : ℕ
  pub timeout : String
  pub read_only_root : Bool

unfoldable pub default_sandbox_config : SandboxConfig
default_sandbox_config = record {
  max_memory_mb = 4096;
  max_cpu_cores = 2;
  timeout = "30m";
  read_only_root = true;
}

pub record Session : Type 0 where
  pub id : String
  pub task_id : String
  pub state : SessionState
  pub active_sandboxes : ℕ
  pub created_at : ℕ
  pub expires_at : ℕ
  pub sandbox_config : SandboxConfig

-- `next` is the first reference that has not been given out.
pub record Manager : Type 0 where
  pub sessions : Dict String ℕ
  pub heap : ℕ → Session
  pub next : ℕ

abbrev pub write : (ℕ → Session) → ℕ → Session → ℕ → Session
write heap r s q = if r == q then s else heap q

unfoldable pub new_session : ℕ → ℕ → String → String → Session
new_session ttl now session_id task_id = record {
  id = session_id;
  task_id = task_id;
  state = active;
  active_sandboxes = 0;
  created_at = now;
  expires_at = now + ttl;
  sandbox_config = default_sandbox_config;
}

-- No reference of the empty table's heap has been given out.
unfoldable pub new_manager : Manager
new_manager = record { sessions = []; heap = λ r. new_session 0 0 "" ""; next = 0 }

unfoldable pub create_session : ℕ → ℕ → String → String → Manager → Manager × ℕ
create_session ttl now session_id task_id m = (
  record {
    sessions = insert session_id m.next m.sessions;
    heap = write m.heap m.next (new_session ttl now session_id task_id);
    next = suc m.next;
  },
  m.next,
)

pub data GetResult : Type 0 where
  found : ℕ → GetResult
  session_not_found session_expired : GetResult

abbrev pub is_expired : ℕ → Session → Bool
is_expired now s = ltb s.expires_at now

-- A session that is found past its time is marked as expired.
unfoldable pub get_found : ℕ → Option ℕ → Manager → Manager × GetResult
get_found now none m = (m, session_not_found)
get_found now (some r) m =
    if is_expired now (m.heap r)
    then (
      record m { heap = write m.heap r (record (m.heap r) { state = expired }) },
      session_expired,
    )
    else (m, found r)

unfoldable pub get_session : ℕ → String → Manager → Manager × GetResult
get_session now session_id m = get_found now (lookup session_id m.sessions) m

-- The flag tells whether the session was found.
unfoldable pub cancel_found : Option ℕ → Manager → Manager × Bool
cancel_found none m = (m, false)
cancel_found (some r) m =
    (record m { heap = write m.heap r (record (m.heap r) { state = cancelled }) }, true)

unfoldable pub cancel_session : String → Manager → Manager × Bool
cancel_session session_id m = cancel_found (lookup session_id m.sessions) m

unfoldable pub get_status : Session → SessionState × ℕ
get_status s = (s.state, s.active_sandboxes)

unfoldable pub increment_sandbox : Session → Session
increment_sandbox s = record s { active_sandboxes = suc s.active_sandboxes }

unfoldable pub decrement_sandbox : Session → Session
decrement_sandbox s =
    if ltb 0 s.active_sandboxes then record s { active_sandboxes = s.active_sandboxes - 1 } else s

-- One tick of the janitor: the loop over the table deletes the sessions past their time.
unfoldable pub purge_entries : ℕ → (ℕ → Session) → Dict String ℕ → Dict String ℕ → Dict String ℕ
purge_entries now heap [] kept = kept
purge_entries now heap ((id, r) ∷ entries) kept =
    purge_entries now heap entries (if is_expired now (heap r) then delete id kept else kept)

unfoldable pub purge : ℕ → Manager → Manager
purge now m = record m { sessions = purge_entries now m.heap m.sessions m.sessions }

abbrev pub dangerous_commands : List String
dangerous_commands =
    "rm -rf /" ∷ "mkfs" ∷ "dd if=" ∷ "> /dev/" ∷ "chmod 777" ∷ "chown root" ∷ "sudo " ∷ "curl | sh"
    ∷ "wget | sh" ∷ "curl|sh" ∷ "wget|sh" ∷ "eval(" ∷ []

abbrev pub allowed_prefixes : List String
allowed_prefixes = "/tmp/" ∷ "/output/" ∷ "/workspace/" ∷ []

unfoldable pub is_out_of_bounds : Bytes → Bool
is_out_of_bounds path = not (any (λ a. has_prefix path (codes a)) allowed_prefixes)

-- Texts are the lists of their characters; `true` stands for no error.
unfoldable pub validate_sandbox_access : Bytes → List Bytes → Bool
validate_sandbox_access command paths =
    if any (λ dc. has_part command (codes dc)) dangerous_commands
    then false
    else not (any is_out_of_bounds paths)
