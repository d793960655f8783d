-- ===== src/Watch/Awake.antt =====
-- A waiting stream and the notifications of its task.
use df_code_audit.Prelude.{
  ℕ, ◌≤◌, String, Bool, true, false, ◌||◌, not, ◌≡◌, ◌⊎◌, refl, sym, ap, subst, ◌∙◌, some, List, [],
  ◌∷◌, ◌++◌, filter, if◌then◌else◌, arith, inl, inr, Bool-cases, ◌==◌,
}
use df_code_audit.Prelude.Eq.{beq, String_eq}
use df_code_audit.Prelude.Dict.{Dict, lookup, insert, lookup-insert}
use text.Mathlib.TextEquality.{eq_iff}
use df_code_audit.Watch.{
  Hub, channels, subscribe, unsubscribe, listed, notify, receive, reading, waiting, ended, World,
  open_stream, written, announce, try_send, woken, ticked, Step, Steps, write, announces, wake,
  tick, read, comes, leaves, other_wakes, notified, at_start, after,
}

-- The stream's channel is subscribed, and where the stream waits it has sent the task's state of the last
-- notification, or a later one, or a signal stands in its channel.
pub record Awake (task_id : String) (w : World) : Type 0 where
  pub subscribed : listed w.stream.channel (channels (lookup task_id w.hub.subs)) ≡ true
  pub awake :
      w.stream.phase ≡ waiting
      → ((sent : ℕ) × (w.stream.last ≡ some sent) × (w.announced ≤ sent))
        ⊎ (w.hub.signal w.stream.channel ≡ true)
  pub in_order : w.announced ≤ w.version

listed-append :
    (ch new : ℕ) (cs : List ℕ) → listed ch (cs ++ new ∷ []) ≡ (listed ch cs || new == ch)
listed-append ch new [] = ground arith
listed-append ch new (c ∷ cs) = ground (arith, listed-append ch new cs)

others :
    (ch c gone : ℕ) (cs : List ℕ)
    → (c == gone) ≡ true
    → (gone == ch) ≡ false
    → listed ch (c ∷ cs) ≡ true
    → listed ch cs ≡ true
others ch c gone cs t f h = ground (arith, t, f, h)

kept :
    (ch c gone : ℕ) (cs : List ℕ)
    → (listed ch cs ≡ true → listed ch (filter (λ d. not (d == gone)) cs) ≡ true)
    → listed ch (c ∷ cs) ≡ true
    → (c == ch || listed ch (filter (λ d. not (d == gone)) cs)) ≡ true
kept ch c gone cs k h = elim (Bool-cases (c == ch)) [
  | inl t ↦ rw t refl
  | inr f ↦ rw f (k (ground (arith, h, f)))
]

unread :
    (ch own : ℕ) (s : Bool)
    → (ch == own) ≡ false
    → s ≡ true
    → (if own == ch then false else s) ≡ true
unread ch own s f h = ground (arith, f, h)

listed-filter :
    (ch gone : ℕ) (cs : List ℕ)
    → (gone == ch) ≡ false
    → listed ch cs ≡ true
    → listed ch (filter (λ c. not (c == gone)) cs) ≡ true
listed-filter ch gone [] f h = h
listed-filter ch gone (c ∷ cs) f h = elim (Bool-cases (c == gone)) [
  | inl t ↦ rw t (listed-filter ch gone cs f (others ch c gone cs t f h))
  | inr g ↦ rw g (kept ch c gone cs (listed-filter ch gone cs f) h)
]

-- What another list for the same task keeps of the channel, the table keeps.
inserted_listed :
    (task_id other : String) (ch : ℕ) (cs : List ℕ) (m : Dict String (List ℕ))
    → listed ch (channels (lookup task_id m)) ≡ true
    → (listed ch (channels (lookup other m)) ≡ true → listed ch cs ≡ true)
    → listed ch (channels (lookup task_id (insert other cs m))) ≡ true
inserted_listed task_id other ch cs m h k = elim (Bool-cases (beq other task_id)) [
  | inl t ↦
      ap (λ o. listed ch (channels o)) (lookup-insert other task_id cs m)
      ∙ rw t (
          k (
            subst (λ i. listed ch (channels (lookup i m)) ≡ true) (sym ((eq_iff other task_id).0 t))
              h))
  | inr f ↦ ap (λ o. listed ch (channels o)) (lookup-insert other task_id cs m) ∙ rw f h
]

reading_waiting : {A : Type 0} → reading ≡ waiting → A
reading_waiting e = cc

ended_waiting : {A : Type 0} → ended ≡ waiting → A
ended_waiting e = cc

step-Awake : (task_id : String) (w v : World) → Step task_id w v → Awake task_id w → Awake task_id v
unfolding written announce try_send woken ticked notify receive subscribe unsubscribe
step-Awake task_id w v (write settled u) a = record {
  subscribed = a.subscribed;
  awake = a.awake;
  in_order = omega (arith, a.in_order);
}
step-Awake task_id w v (announces u) a = record {
  subscribed = a.subscribed;
  awake = λ p. inr (ground (arith, a.subscribed));
  in_order = omega arith;
}
step-Awake task_id w v (wake u p s) a = record {
  subscribed = a.subscribed;
  awake = λ q. reading_waiting q;
  in_order = a.in_order;
}
step-Awake task_id w v (tick u p) a = record {
  subscribed = a.subscribed;
  awake = λ q. reading_waiting q;
  in_order = a.in_order;
}
step-Awake task_id w v (read u p) a = record {
  subscribed = a.subscribed;
  awake = λ q. inl (w.version, refl, a.in_order);
  in_order = a.in_order;
}
step-Awake task_id w v (comes other u) a = record {
  subscribed =
      inserted_listed task_id other w.stream.channel _ w.hub.subs a.subscribed
        (λ h. listed-append w.stream.channel w.hub.next _ ∙ ground (arith, h));
  awake = a.awake;
  in_order = a.in_order;
}
step-Awake task_id w v (leaves other ch u f) a = record {
  subscribed =
      inserted_listed task_id other w.stream.channel _ w.hub.subs a.subscribed
        (λ h. listed-filter w.stream.channel ch _ f h);
  awake = a.awake;
  in_order = a.in_order;
}
step-Awake task_id w v (other_wakes ch u f) a = record {
  subscribed = a.subscribed;
  awake = λ p. elim (a.awake p) [
    | inl s ↦ inl s
    | inr s ↦ inr (unread ch w.stream.channel (w.hub.signal w.stream.channel) f s)
  ];
  in_order = a.in_order;
}
step-Awake task_id w v (notified other u) a = record {
  subscribed = a.subscribed;
  awake = λ p. elim (a.awake p) [ inl s ↦ inl s | inr s ↦ inr (ground (arith, s)) ];
  in_order = a.in_order;
}

open_stream-Awake :
    (task_id : String) (h : Hub) (version : ℕ) (settled : Bool)
    → Awake task_id (open_stream task_id h version settled)
unfolding open_stream subscribe
open_stream-Awake task_id h version settled = record {
  subscribed =
      ap (λ o. listed h.next (channels o)) (lookup-insert task_id task_id _ h.subs)
      ∙ rw ((eq_iff task_id task_id).1 refl)
          (listed-append h.next h.next (channels (lookup task_id h.subs)) ∙ ground arith);
  awake = λ q. reading_waiting q;
  in_order = omega arith;
}

-- Whatever writes, notifications, signals, ticks and other streams follow the opening of a stream, in any
-- order: where it waits, it has sent the task's state as of the last notification, or a later one, or
-- its channel holds a signal. A write without a notification waits for the safety tick.
pub Steps-Awake :
    (task_id : String) (h : Hub) (version : ℕ) (settled : Bool) (w : World)
    → Steps task_id (open_stream task_id h version settled) w
    → Awake task_id w
Steps-Awake task_id h version settled w at_start = open_stream-Awake task_id h version settled
Steps-Awake task_id h version settled w (after u v steps step) =
    step-Awake task_id u w step (Steps-Awake task_id h version settled u steps)
