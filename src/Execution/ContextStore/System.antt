-- ===== src/Execution/ContextStore/System.antt =====
-- The threads around a context store: readers that run a context, wait or have stopped, and the
-- notifications that are still to be delivered after a critical section.
use caffeine.Prelude.{
  ◌==◌, if◌then◌else◌, Outcome, done, ℕ, zero, suc, ◌≡◌, ◌≢◌, Bool, true, false, none, some, List,
  [], ◌∷◌,
}
use caffeine.Prelude.{length, get_elem?, set, ◌++◌, map}
use caffeine.Execution.ContextStore.{
  Store, Reply, returns, waits, next_context, resume, add_context, add_context_multi, shutdown,
}

-- A waiting reader has been notified or not.
pub data Reader : Type 0 where
  running : Reader
  waiting : Bool → Reader
  stopped : Reader

-- notify_one, notify_all
pub data Notice : Type 0 where
  one : Notice
  all : Notice

pub record System {ℓ} (C : Type ℓ) : Type ℓ where
  pub store : Store C
  pub readers : List Reader
  pub pending : List Notice
  -- The contexts that readers got, and those that were added, in their order.
  pub taken : List C
  pub added : List C
  -- Whether shutdown was called.
  pub shut_called : Bool

abbrev pub replicate {ℓ} : {A : Type ℓ} → ℕ → A → List A
replicate zero x = []
replicate (suc n) x = x ∷ replicate n x

abbrev pub notified : Reader → Reader
notified (waiting _) = waiting true
notified running = running
notified stopped = stopped

unfoldable pub notify_all : List Reader → List Reader
notify_all rs = map notified rs

module _ {ℓ} {C : Type ℓ} where
  -- What a reader does after its call.
  abbrev pub status : Reply C → Reader
  status (returns (some _)) = running
  status (returns none) = stopped
  status waits = waiting false

  abbrev pub given : Reply C → List C
  given (returns (some c)) = c ∷ []
  given (returns none) = []
  given waits = []

  -- What add_context_multi notifies.
  abbrev pub notice_for : List C → Notice
  notice_for cs = if length cs == 1 then one else all

  -- Reader `i` gets an answer.
  unfoldable pub answered : System C → ℕ → Reply C → Store C → System C
  answered s i r store = record s {
    store = store;
    readers = set s.readers i (status r);
    taken = s.taken ++ given r;
  }

  unfoldable pub added_to : System C → List C → Store C → Notice → System C
  added_to s cs store n = record s { store = store; pending = n ∷ s.pending; added = s.added ++ cs }

  -- The steps of the threads. `take` removes a context, by a number that is drawn for each call.
  pub data Step (take : ℕ → List C → Outcome (C × List C)) : System C → System C → Type ℓ where
    next :
        {s : System C} (i pick : ℕ) (r : Reply C) (store : Store C) (last : Bool)
        → get_elem? s.readers i ≡ some running
        → next_context (take pick) s.store ≡ done (r, store, last)
        → {s' : System C}
        → s'
          ≡ answered
              (record s { readers = if last then notify_all s.readers else s.readers })
              i
              r
              store
        → Step take s s'
    -- A waiting reader is woken, notified or not, and tests again.
    wake :
        {s : System C} (i pick : ℕ) (b : Bool) (r : Reply C) (store : Store C)
        → get_elem? s.readers i ≡ some (waiting b)
        → resume (take pick) s.store ≡ done (r, store)
        → {s' : System C} → s' ≡ answered s i r store
        → Step take s s'
    -- Only a reader that runs a context adds others.
    add :
        {s : System C} (i : ℕ) (c : C)
        → get_elem? s.readers i ≡ some running
        → {s' : System C} → s' ≡ added_to s (c ∷ []) (add_context c s.store) one
        → Step take s s'
    add_multi :
        {s : System C} (i : ℕ) (cs : List C)
        → get_elem? s.readers i ≡ some running
        → {s' : System C} → s' ≡ added_to s cs (add_context_multi cs s.store) (notice_for cs)
        → Step take s s'
    deliver_all :
        {s : System C} (before after : List Notice)
        → s.pending ≡ before ++ all ∷ after
        → {s' : System C}
        → s' ≡ record s { readers = notify_all s.readers; pending = before ++ after }
        → Step take s s'
    -- notify_one wakes a reader that is on the condition variable.
    deliver_one :
        {s : System C} (before after : List Notice) (i : ℕ)
        → s.pending ≡ before ++ one ∷ after
        → get_elem? s.readers i ≡ some (waiting false)
        → {s' : System C}
        → s' ≡ record s { readers = set s.readers i (waiting true); pending = before ++ after }
        → Step take s s'
    -- It does nothing where no reader is on it.
    deliver_none :
        {s : System C} (before after : List Notice)
        → s.pending ≡ before ++ one ∷ after
        → ((i : ℕ) → get_elem? s.readers i ≢ some (waiting false))
        → {s' : System C} → s' ≡ record s { pending = before ++ after }
        → Step take s s'
    shut :
        {s s' : System C}
        → s' ≡ record s { store = shutdown s.store; pending = all ∷ s.pending; shut_called = true }
        → Step take s s'

  -- Any number of steps.
  pub data Steps (take : ℕ → List C → Outcome (C × List C)) : System C → System C → Type ℓ where
    here : {s s' : System C} → s ≡ s' → Steps take s s'
    step : {s t u : System C} → Step take s t → Steps take t u → Steps take s u
