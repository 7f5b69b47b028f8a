-- ===== src/Execution/ContextStore/Tests.antt =====
-- Context stores: runs, and the theorems at inputs that meet their conditions.
use caffeine.Prelude.{done, ℕ, ◌+◌, ◌≤◌, ◌≡◌, refl, ◌⊎◌, true, false, none, some, arith, [], ◌∷◌}
use caffeine.Prelude.{length, get_elem?}
use caffeine.Execution.ContextStore.{
  Store, returns, waits, take_at, take_front, next_context, new_store,
}
use caffeine.Execution.ContextStore.System.{
  Reader, running, waiting, stopped, System, Step, next, Steps, here, step, answered, notify_all,
}
use caffeine.Execution.ContextStore.Counting.{count, has_all, ones}
use caffeine.Execution.ContextStore.Progress.{started}
use caffeine.Execution.ContextStore.Liveness.{Due, is_awake, Steps-moves, Steps-notified}
use caffeine.Execution.ContextStore.Drained.{in_order, in_order-Takes, Steps-drained}

-- The context in the middle is removed, and the last one takes its place.
take_at_middle : take_at {C = ℕ} 1 (5 ∷ 6 ∷ 7 ∷ 8 ∷ []) ≡ done (6, 5 ∷ 8 ∷ 7 ∷ [])
unfolding take_at
take_at_middle = refl

-- A lone reader takes its context, finds the store empty and stops.
abbrev lone_store : Store ℕ
lone_store = record { blocked = 0; num_readers = 1; is_done = true; contexts = [] }

abbrev lone_end : System ℕ
lone_end = record {
  store = lone_store;
  readers = stopped ∷ [];
  pending = [];
  taken = 7 ∷ [];
  added = 7 ∷ [];
  shut_called = false;
}

lone_run : Steps in_order (started 1 (7 ∷ [])) lone_end
unfolding next_context answered notify_all take_front
lone_run =
    step (next 0 0 (returns (some 7)) (new_store 1) false refl refl refl)
      (step (next 0 0 (returns none) lone_store true refl refl refl) (here refl))

-- The first of two readers waits.
abbrev one_waits : System ℕ
one_waits = record {
  store = record { blocked = 1; num_readers = 2; is_done = false; contexts = [] };
  readers = waiting false ∷ running ∷ [];
  pending = [];
  taken = [];
  added = [];
  shut_called = false;
}

one_waits_run : Steps in_order (started 2 []) one_waits
unfolding next_context answered
one_waits_run =
    step
      (next 0 0 waits (record { blocked = 1; num_readers = 2; is_done = false; contexts = [] })
        false refl refl refl)
      (here refl)

Steps-moves_example :
    ((i : ℕ) (r : Reader) → get_elem? one_waits.readers i ≡ some r → r ≡ stopped)
    ⊎ (Due one_waits × ((t : System ℕ) × Step in_order one_waits t))
Steps-moves_example = Steps-moves in_order in_order-Takes 2 [] one_waits (omega arith) one_waits_run

Steps-notified_example :
    (has_all one_waits.pending ≡ true)
    ⊎ (length one_waits.store.contexts ≤ count is_awake one_waits.readers + ones one_waits.pending)
Steps-notified_example =
    Steps-notified in_order in_order-Takes 2 [] one_waits 0 (omega arith) one_waits_run refl

Steps-drained_example : lone_end.taken ≡ lone_end.added
Steps-drained_example = Steps-drained 1 (7 ∷ []) lone_end 0 (omega arith) lone_run refl refl
