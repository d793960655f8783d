-- ===== src/Watch.antt =====
-- engine/services/task-service/internal/service/task_stream.go: the hub that wakes the streams of a
-- task, and the stream's loop as steps. A channel is a number; its buffer of one holds a signal or not.
-- A task's state is a number that each write counts up. A write and its notification are two steps, and a
-- write may have none: task_service.go's taskByIDRW replaces a task without one. The end of the
-- caller's context and a failed send only end the loop.
pub mod Awake
use df_code_audit.Prelude.{
  ℕ, suc, String, Bool, true, false, ◌||◌, not, ◌≡◌, Option, none, some, List, [], ◌∷◌, ◌++◌,
  filter, if◌then◌else◌, ◌==◌,
}
use df_code_audit.Prelude.Eq.{beq, String_eq}
use df_code_audit.Prelude.Dict.{Dict, lookup, insert}

-- The channels of each task, the signals in their buffers, and the first channel not yet made.
pub record Hub : Type 0 where
  pub subs : Dict String (List ℕ)
  pub signal : ℕ → Bool
  pub next : ℕ

unfoldable pub new_hub : Hub
new_hub = record { subs = []; signal = λ ch. false; next = 0 }

abbrev pub channels : Option (List ℕ) → List ℕ
channels none = []
channels (some chs) = chs

unfoldable pub subscribe : String → Hub → Hub × ℕ
subscribe task_id h = (
  record {
    subs = insert task_id (channels (lookup task_id h.subs) ++ h.next ∷ []) h.subs;
    signal = h.signal;
    next = suc h.next;
  },
  h.next,
)

unfoldable pub unsubscribe : String → ℕ → Hub → Hub
unsubscribe task_id ch h = record h {
  subs = insert task_id (filter (λ c. not (c == ch)) (channels (lookup task_id h.subs))) h.subs;
}

abbrev pub listed : ℕ → List ℕ → Bool
listed ch [] = false
listed ch (c ∷ cs) = c == ch || listed ch cs

-- A signal that is there stays; the others are set.
unfoldable pub notify : String → Hub → Hub
notify task_id h = record h {
  signal = λ ch. h.signal ch || listed ch (channels (lookup task_id h.subs));
}

unfoldable pub receive : ℕ → Hub → Hub
receive ch h = record h { signal = λ c. if c == ch then false else h.signal c }

pub data Phase : Type 0 where
  reading waiting ended : Phase

-- A stream of one task: its channel, the state that it sent last, and where its loop is.
pub record Stream : Type 0 where
  pub channel : ℕ
  pub last : Option ℕ
  pub phase : Phase

-- `announced` is the version at the last notification of the task, or at the opening of the stream.
pub record World : Type 0 where
  pub hub : Hub
  pub version : ℕ
  pub announced : ℕ
  pub settled : Bool
  pub stream : Stream

-- A stream is made: it subscribes before it reads for the first time.
unfoldable pub open_stream : String → Hub → ℕ → Bool → World
unfolding subscribe
open_stream task_id h version settled = record {
  hub = (subscribe task_id h).0;
  version = version;
  announced = version;
  settled = settled;
  stream = record { channel = (subscribe task_id h).1; last = none; phase = reading };
}

unfoldable pub written : Bool → World → World
written settled w = record w { version = suc w.version; settled = settled }

unfoldable pub announce : String → World → World
unfolding notify
announce task_id w = record w { hub = notify task_id w.hub; announced = w.version }

-- `trySend`: the state is sent if it is not the one sent last; a settled task ends the stream.
unfoldable pub try_send : World → World
try_send w = record w {
  stream = record w.stream { last = some w.version; phase = if w.settled then ended else waiting };
}

unfoldable pub woken : World → World
unfolding receive
woken w = record w {
  hub = receive w.stream.channel w.hub;
  stream = record w.stream { phase = reading };
}

unfoldable pub ticked : World → World
ticked w = record w { stream = record w.stream { phase = reading } }

-- What can happen next: a write, a notification of the task, the signal at a waiting stream, its safety
-- tick, its reading, or another stream of any task coming, going or waking, or another task's
-- notification.
pub data Step (task_id : String) : World → World → Type 0 where
  write : (settled : Bool) (w : World) → Step task_id w (written settled w)
  announces : (w : World) → Step task_id w (announce task_id w)
  wake :
      (w : World)
      → w.stream.phase ≡ waiting
      → w.hub.signal w.stream.channel ≡ true
      → Step task_id w (woken w)
  tick : (w : World) → w.stream.phase ≡ waiting → Step task_id w (ticked w)
  read : (w : World) → w.stream.phase ≡ reading → Step task_id w (try_send w)
  comes :
      (other : String) (w : World) → Step task_id w (record w { hub = (subscribe other w.hub).0 })
  leaves :
      (other : String) (ch : ℕ) (w : World)
      → (ch == w.stream.channel) ≡ false
      → Step task_id w (record w { hub = unsubscribe other ch w.hub })
  other_wakes :
      (ch : ℕ) (w : World)
      → (ch == w.stream.channel) ≡ false
      → Step task_id w (record w { hub = receive ch w.hub })
  notified : (other : String) (w : World) → Step task_id w (record w { hub = notify other w.hub })

pub data Steps (task_id : String) (start : World) : World → Type 0 where
  at_start : Steps task_id start start
  after : (w v : World) → Steps task_id start w → Step task_id w v → Steps task_id start v
