-- ===== src/Examples/Repeats.antt =====
-- Tests of the idempotency stores, and examples of their theorems.
use df_code_audit.Prelude.{◌≡◌, refl, none, List, [], ◌∷◌, arith}
use df_code_audit.Prelude.Eq.{String_eq}
use df_code_audit.Prelude.Dict.{lookup, insert, delete}
use df_code_audit.Idempotency.{
  Store, proceed, replay, already_exists, new_store, save, save_within, check, answer, settle, trim,
  appended, clear_expired, clear_found, entry_beq, delete_locked, remove_first, max_entries,
  is_past,
}
use df_code_audit.Idempotency.Runtime.{save_memory_within}
use df_code_audit.Idempotency.InStep.{
  acts, acts-InStep, saves, settles, saves_in_memory, InStep, new_store-InStep, save_within-InStep,
}
use df_code_audit.Idempotency.Contract.{answered}
use df_code_audit.Idempotency.Survival.{Other, other_settles, other_saves, others, others-check}
use df_code_audit.Idempotency.Eviction.{save_within-save_memory_within}

-- Two saves in an empty store, with room for two.
unfoldable one_saved : Store
unfolding new_store save_within trim appended lookup insert
one_saved = save_within 2 5 "a" "x" 1 new_store

unfoldable two_saved : Store
unfolding new_store save_within trim appended lookup insert
two_saved = save_within 2 6 "b" "y" 2 one_saved

two_saved-InStep : InStep 2 two_saved
unfolding one_saved two_saved
two_saved-InStep =
    save_within-InStep 2 6 "b" "y" 2 one_saved
      (save_within-InStep 2 5 "a" "x" 1 new_store (new_store-InStep 2))

check_test : (check 7 "a" "x" two_saved).0 ≡ replay 1
unfolding check answer lookup is_past new_store one_saved two_saved save_within trim appended insert
check_test = refl

check_other_body_test : (check 7 "a" "z" two_saved).0 ≡ already_exists "a"
unfolding check answer lookup is_past new_store one_saved two_saved save_within trim appended insert
check_other_body_test = refl

-- An entry past the window leaves with the check that finds it.
check_past_test :
    ((check 86400000000006 "a" "x" two_saved).0 ≡ proceed)
    × ((check 86400000000006 "a" "x" two_saved).1.order ≡ "b" ∷ [])
unfolding check answer settle lookup is_past new_store one_saved two_saved save_within trim appended
    insert delete clear_expired clear_found entry_beq delete_locked remove_first
check_past_test = (refl, refl)

abbrev later : List Other
later = other_saves 9 "b" "y" 4 ∷ other_settles 10 "c" none ∷ other_saves 11 "d" "z" 5 ∷ []

others-check_example :
    (check 12 "a" "x" (others later (save 8 "a" "x" 3 new_store))).0 ≡ answered 8 12 "a" "x" "x" 3
unfolding new_store lookup
others-check_example =
    others-check later 8 12 "a" "x" "x" 3 new_store (new_store-InStep max_entries) refl
      (refl, (refl, (refl, tt))) (omega arith)

save_within-save_memory_within_example :
    save_within 2 7 "c" "z" 3 two_saved ≡ save_memory_within 2 7 "c" "z" 3 two_saved
save_within-save_memory_within_example =
    save_within-save_memory_within 2 7 "c" "z" 3 two_saved (omega arith) two_saved-InStep

acts-InStep_example :
    InStep max_entries
      (acts (saves 9 "b" "y" 2 ∷ settles 8 "a" none ∷ saves_in_memory 7 "a" "x" 1 ∷ []))
acts-InStep_example =
    acts-InStep (saves 9 "b" "y" 2 ∷ settles 8 "a" none ∷ saves_in_memory 7 "a" "x" 1 ∷ [])
