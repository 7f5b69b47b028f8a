-- ===== src/Execution/Limits.antt =====
-- CountLimitedStore and TimeLimitedStore, which wrap another store: src/Interpreter/Store/
-- CountLimitedStore.cpp, src/Interpreter/Store/TimeLimitedStore.cpp. A call is one step.
pub mod Runs
mod Tests
use caffeine.Prelude.{
  ltb, ◌==◌, if◌then◌else◌, ℕ, ◌+◌, ◌%◌, ◌^◌, ◌≡◌, Bool, true, Option, none, List,
}

-- The virtual operations of ExecutionContextStore (include/caffeine/Interpreter/Store.h).
pub record StoreOps {ℓ} (C S : Type ℓ) : Type ℓ where
  pub next : S → Option C × S
  pub add : C → S → S
  pub add_multi : List C → S → S
  pub shutdown : S → S

-- What the wrappers rely on: a store that was shut down gives no more contexts.
pub record Closes {ℓ} {C S : Type ℓ} (ops : StoreOps C S) : Type ℓ where
  pub is_closed : S → Bool
  pub shutdown_closes : (s : S) → is_closed (ops.shutdown s) ≡ true
  pub next_none : (s : S) → is_closed s ≡ true → (ops.next s).0 ≡ none
  pub next_kept : (s : S) → is_closed s ≡ true → is_closed (ops.next s).1 ≡ true
  pub add_kept : (c : C) (s : S) → is_closed s ≡ true → is_closed (ops.add c s) ≡ true
  pub add_multi_kept :
      (cs : List C) (s : S) → is_closed s ≡ true → is_closed (ops.add_multi cs s) ≡ true

pub record CountLimited {ℓ} (S : Type ℓ) : Type ℓ where
  pub limit : ℕ
  pub count : ℕ
  pub inner : S

pub record TimeLimited {ℓ} (S : Type ℓ) : Type ℓ where
  pub endpoint : ℕ
  pub shutdown_started : Bool
  pub inner : S

module _ {ℓ} {C S : Type ℓ} (ops : StoreOps C S) where
  -- `count.fetch_add(1)` on a `uint64_t`, and the two tests of its old value.
  unfoldable pub count_next : CountLimited S → Option C × CountLimited S
  count_next s =
      let current = s.count in
      let inner = if current == s.limit then ops.shutdown s.inner else s.inner in
      let s' = record s { count = (current + 1) % 2 ^ 64; inner = inner } in
      if ltb s.limit current
      then (none, s')
      else ((ops.next inner).0, record s' { inner = (ops.next inner).1 })

  unfoldable pub count_add : C → CountLimited S → CountLimited S
  count_add c s = record s { inner = ops.add c s.inner }

  unfoldable pub count_add_multi : List C → CountLimited S → CountLimited S
  count_add_multi cs s = record s { inner = ops.add_multi cs s.inner }

  unfoldable pub count_shutdown : CountLimited S → CountLimited S
  count_shutdown s = record s { inner = ops.shutdown s.inner }

  -- `shutdown_started.exchange(true)`
  unfoldable pub time_shutdown : TimeLimited S → TimeLimited S
  time_shutdown s = record s {
    shutdown_started = true;
    inner = if s.shutdown_started then s.inner else ops.shutdown s.inner;
  }

  -- `now` is what the clock reads in this call.
  unfoldable pub time_next : ℕ → TimeLimited S → Option C × TimeLimited S
  unfolding time_shutdown
  time_next now s =
      if ltb s.endpoint now
      then (none, time_shutdown s)
      else ((ops.next s.inner).0, record s { inner = (ops.next s.inner).1 })

  unfoldable pub time_add : C → TimeLimited S → TimeLimited S
  time_add c s = record s { inner = ops.add c s.inner }

  unfoldable pub time_add_multi : List C → TimeLimited S → TimeLimited S
  time_add_multi cs s = record s { inner = ops.add_multi cs s.inner }

  -- The wrappers are stores again.
  pub count_limited : StoreOps C (CountLimited S)
  count_limited = record {
    next = count_next;
    add = count_add;
    add_multi = count_add_multi;
    shutdown = count_shutdown;
  }
