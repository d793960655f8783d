-- ===== src/Task/Status.antt =====
-- `TaskStatus` as statemachine.go names it: the values of the protocol's enumeration.
use df_code_audit.Prelude.{ℕ, Bool, true, ◌≡◌, ◌↔◌, arith, ◌==◌}
use df_code_audit.Prelude.Eq.{Eq}

pub data TaskStatus : Type 0 where
  unspecified created pending queued running completed failed cancelled timeout dead paused :
      TaskStatus

-- The numbers by which Go compares two statuses.
abbrev pub number : TaskStatus → ℕ
number unspecified = 0
number created = 1
number pending = 2
number queued = 3
number running = 4
number completed = 5
number failed = 6
number cancelled = 7
number timeout = 8
number dead = 9
number paused = 10

abbrev pub status_beq : TaskStatus → TaskStatus → Bool
status_beq a b = number a == number b

pub status_beq_iff : (a b : TaskStatus) → (status_beq a b ≡ true) ↔ (a ≡ b)
status_beq_iff a b = ground arith

instance abbrev pub TaskStatus_eq : Eq TaskStatus
TaskStatus_eq = record { beq = status_beq; beq_iff = status_beq_iff }
