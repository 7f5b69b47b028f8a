-- ===== src/Execution/ContextStore.antt =====
-- QueueingContextStore and RandomizedContextStore: src/Interpreter/Store/QueueingContextStore.cpp,
-- src/Interpreter/Store/RandomizedContextStore.cpp. A critical section is one function on what the
-- mutex guards; the threads around it are in System.
pub mod System
pub mod Counting
pub mod Calls
pub mod Invariant
pub mod Progress
pub mod Liveness
pub mod Drained
pub mod Randomized
mod Tests
use caffeine.Prelude.{
  ◌==◌, if◌then◌else◌, Outcome, done, fault, ◌>>=◌, ◌>>◌, check, or_fault, ℕ, ◌+◌, ◌-◌, ◌%◌, Bool,
  true, false, not, ◌&&◌, Option, none, some, List, [], ◌∷◌,
}
use caffeine.Prelude.{length, get_elem?, set, ◌++◌}

pub record Store {ℓ} (C : Type ℓ) : Type ℓ where
  pub blocked : ℕ
  pub num_readers : ℕ
  pub is_done : Bool
  pub contexts : List C

-- A call of next_context returns, or it waits on the condition variable.
pub data Reply {ℓ} (C : Type ℓ) : Type ℓ where
  returns : Option C → Reply C
  waits : Reply C

abbrev pub is_nil {ℓ} : {A : Type ℓ} → List A → Bool
is_nil [] = true
is_nil (_ ∷ _) = false

module _ {ℓ} {C : Type ℓ} where
  abbrev pub new_store : ℕ → Store C
  new_store n = record { blocked = 0; num_readers = n; is_done = false; contexts = [] }

  -- dequeue: the front of the queue.
  unfoldable pub take_front : List C → Outcome (C × List C)
  take_front [] = fault
  take_front (c ∷ cs) = done (c, cs)

  -- `pop_back` of a vector.
  unfoldable pub pop_back : List C → List C
  pop_back [] = []
  pop_back (c ∷ []) = []
  pop_back (c ∷ d ∷ cs) = c ∷ pop_back (d ∷ cs)

  -- removeRandom, at the index that was drawn: the last context takes its place.
  unfoldable pub take_at : ℕ → List C → Outcome (C × List C)
  unfolding pop_back
  take_at selected cs = do
    check (not (is_nil cs))
    c ← or_fault (get_elem? cs selected)
    last ← or_fault (get_elem? cs (length cs - 1))
    done (c, pop_back (if selected == length cs - 1 then cs else set cs selected last))

  -- `pick` is what the generator drew for this call.
  unfoldable pub take_random : ℕ → List C → Outcome (C × List C)
  unfolding take_at
  take_random pick cs = take_at (pick % length cs) cs

  -- The rest of next_context in a store that is not done and has a context.
  unfoldable pub remove_from :
      (List C → Outcome (C × List C)) → Store C → Outcome (Reply C × Store C)
  remove_from take s =
      take s.contexts >>= λ r. done (returns (some r.0), record s { contexts = r.1 })

  -- From the test of the wait loop on; the guard takes the reader off the blocked ones.
  unfoldable pub resume : (List C → Outcome (C × List C)) → Store C → Outcome (Reply C × Store C)
  unfolding remove_from
  resume take s =
      if is_nil s.contexts && not s.is_done
      then done (waits, s)
      else let s' = record s { blocked = s.blocked - 1 } in
        if s'.is_done then done (returns none, s') else remove_from take s'

  -- `blocked += 1`, and the test for the last reader.
  unfoldable pub block : Store C → Store C
  block s =
      let blocked = s.blocked + 1 in
      record s { blocked = blocked; is_done = if blocked == s.num_readers then true else s.is_done }

  -- next_context up to its end or its first wait, and whether it notified all waiting readers.
  unfoldable pub next_context :
      (List C → Outcome (C × List C)) → Store C → Outcome (Reply C × Store C × Bool)
  unfolding resume block
  next_context take s =
      if s.is_done
      then done (returns none, s, false)
      else if is_nil s.contexts
      then (resume take (block s) >>= λ r. done (r.0, r.1, s.blocked + 1 == s.num_readers))
      else (remove_from take s >>= λ r. done (r.0, r.1, false))

  unfoldable pub add_context : C → Store C → Store C
  add_context c s = record s { contexts = s.contexts ++ c ∷ [] }

  -- The loop of add_context_multi.
  unfoldable pub add_context_multi : List C → Store C → Store C
  unfolding add_context
  add_context_multi [] s = s
  add_context_multi (c ∷ cs) s = add_context_multi cs (add_context c s)

  unfoldable pub shutdown : Store C → Store C
  shutdown s = record s { is_done = true }
