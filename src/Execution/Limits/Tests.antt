-- ===== src/Execution/Limits/Tests.antt =====
-- Limited stores over a queue with one reader, where a call never waits.
use caffeine.Prelude.{
  Outcome, done, throws, fault, ℕ, ◌≡◌, refl, ap, ◌∙◌, Bool, true, false, Option, none, arith, List,
  [], ◌∷◌,
}
use caffeine.Prelude.{◌++◌}
use caffeine.Execution.ContextStore.{
  Store, Reply, returns, waits, take_front, next_context, add_context, add_context_multi, shutdown,
  new_store,
}
use caffeine.Execution.Limits.{StoreOps, Closes, count_next, count_add_multi}
use caffeine.Execution.Limits.Runs.{
  Call, takes, adds_multi, clipped, count_run, inner_run, time_run, count_run-inner_run,
  time_run-late,
}

abbrev answer : Outcome (Reply ℕ × Store ℕ × Bool) → Store ℕ → Option ℕ × Store ℕ
answer (done (returns o, t, last)) s = (o, t)
answer (done (waits, t, last)) s = (none, t)
answer throws s = (none, s)
answer fault s = (none, s)

abbrev queue : StoreOps ℕ (Store ℕ)
queue = record {
  next = λ s. answer (next_context take_front s) s;
  add = add_context;
  add_multi = add_context_multi;
  shutdown = shutdown;
}

next_done : (s : Store ℕ) → s.is_done ≡ true → answer (next_context take_front s) s ≡ (none, s)
unfolding next_context
next_done s d = rw d refl

add_multi_done :
    (cs : List ℕ) (s : Store ℕ) → s.is_done ≡ true → (add_context_multi cs s).is_done ≡ true
unfolding add_context_multi
add_multi_done [] s d = d
add_multi_done (c ∷ cs) s d = add_multi_done cs (add_context c s) d

queue-Closes : Closes queue
unfolding shutdown add_context
queue-Closes = record {
  is_closed = λ s. s.is_done;
  shutdown_closes = λ s. refl;
  next_none = λ s d. ap (λ r. r.0) (next_done s d);
  next_kept = λ s d. ap (λ r. r.1.is_done) (next_done s d) ∙ d;
  add_kept = λ c s d. d;
  add_multi_kept = add_multi_done;
}

abbrev three_calls : List (Call ℕ)
three_calls = adds_multi (5 ∷ 6 ∷ 7 ∷ []) ∷ takes 0 ∷ takes 1 ∷ takes 2 ∷ []

count_run-two :
    (count_run queue three_calls (record { limit = 2; count = 0; inner = new_store 1 })).0
    ≡ 5 ∷ 6 ∷ []
unfolding count_run next_context take_front add_context_multi shutdown count_next count_add_multi
count_run-two = refl

count_run-inner_run_example :
    (count_run queue three_calls (record { limit = 2; count = 0; inner = new_store 1 })).0
    ≡ (inner_run queue (clipped 2 three_calls) (new_store 1)).0
count_run-inner_run_example =
    count_run-inner_run queue queue-Closes 2 (new_store 1) three_calls (omega arith)

time_run-late_example :
    (time_run queue
      ((adds_multi (5 ∷ 6 ∷ []) ∷ takes 3 ∷ []) ++ takes 9 ∷ takes 2 ∷ [])
      (record { endpoint = 4; shutdown_started = false; inner = new_store 1 })).0
    ≡ (time_run queue
        (adds_multi (5 ∷ 6 ∷ []) ∷ takes 3 ∷ [])
        (record { endpoint = 4; shutdown_started = false; inner = new_store 1 })).0
time_run-late_example =
    time_run-late queue queue-Closes 4 (new_store 1) (adds_multi (5 ∷ 6 ∷ []) ∷ takes 3 ∷ [])
      (takes 2 ∷ []) 9 (omega arith)
