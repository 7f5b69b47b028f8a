-- ===== src/Execution/ContextStore/Invariant.antt =====
-- What holds of the threads around a context store after any steps.
use caffeine.Prelude.{
  Outcome, ℕ, ◌+◌, ◌≤◌, ◌<◌, ◌≡◌, sym, ap, ◌∙◌, subst, ◌≢◌, ◌⊎◌, inl, inr, Bool, true, false, not,
  none, some, arith, List,
}
use caffeine.Prelude.{length, get_elem?, set, length-set}
use caffeine.Execution.ContextStore.{Store, Reply, returns, waits}
use caffeine.Execution.ContextStore.System.{
  running, waiting, stopped, Notice, System, notify_all, status, answered,
}
use caffeine.Execution.ContextStore.Counting.{
  is_waiting, is_asleep, is_stopped, bit, count, count-set, asleep-le, notify_all-length,
  notify_all-get_elem?, notify_all-waiting, notify_all-asleep, has_all, ones,
}
use caffeine.Execution.ContextStore.Calls.{Takes, Left, closed, took, idle, ended, blocks}

-- The notifications under way are enough for the contexts, or for all readers.
abbrev pub Enough : ℕ → ℕ → ℕ → List Notice → Type 0
Enough contexts blocked asleep pending =
    (asleep ≡ 0) ⊎ (has_all pending ≡ true) ⊎ (contexts + asleep ≤ blocked + ones pending)

bit-le : (b : Bool) → bit b ≤ 1
bit-le true = omega arith
bit-le false = omega arith

module _ {ℓ} {C : Type ℓ} where
  pub record IsSound (s : System C) : Type ℓ where
    pub sized : length s.readers ≡ s.store.num_readers
    pub blocked : s.store.blocked ≡ count is_waiting s.readers
    -- While the store is open, no reader has stopped, and one is running.
    pub open_now : s.store.is_done ≡ false → count is_stopped s.readers ≡ 0
    pub busy : s.store.is_done ≡ false → count is_waiting s.readers < s.store.num_readers
    -- Once it is done, every waiting reader is notified or will be.
    pub told : s.store.is_done ≡ true → (count is_asleep s.readers ≡ 0) ⊎ (has_all s.pending ≡ true)
    -- Unless all waiting readers are notified or will be, there is a notification for each context.
    pub enough :
        Enough
          (length s.store.contexts)
          (count is_waiting s.readers)
          (count is_asleep s.readers)
          s.pending

  module _ (take : ℕ → List C → Outcome (C × List C)) (takes : (pick : ℕ) → Takes (take pick)) where
    module _ (s : System C) (i : ℕ) (v : IsSound s) where
      -- The answer of a call, of a reader whose counts are `w` and `a`.
      sized_after :
          (r : Reply C) (t : Store C)
          → t.num_readers ≡ s.store.num_readers
          → length (set s.readers i (status r)) ≡ t.num_readers
      sized_after r t tn = length-set s.readers i (status r) ∙ v.sized ∙ sym tn

    -- The waking of a reader, and the answer that it gets.
    pub wake-IsSound :
        (s : System C) (i pick : ℕ) (b : Bool) (r : Reply C) (t : Store C)
        → IsSound s
        → get_elem? s.readers i ≡ some (waiting b)
        → t.blocked + 1 ≡ s.store.blocked + blocks r
        → t.is_done ≡ s.store.is_done
        → Left (take pick) s.store r t
        → IsSound (answered s i r t)
    unfolding answered
    wake-IsSound s i pick b r t v got bl dn (closed d e td tc tn) =
        let bl' : t.blocked + 1 ≡ s.store.blocked + 0 =
          subst (λ q. t.blocked + 1 ≡ s.store.blocked + blocks q) e bl in
        let w = count-set is_waiting s.readers i (waiting b) stopped got in
        let a = count-set is_asleep s.readers i (waiting b) stopped got in
        let blocked = v.blocked in
        let quiet : (count is_asleep (set s.readers i stopped) ≡ 0) ⊎ (has_all s.pending ≡ true) =
          elim (v.told d) [ inl z ↦ inl (omega arith) | inr z ↦ inr z ] in
        subst (λ q. IsSound (answered s i q t)) (sym e)
          record {
            sized = sized_after s i v (returns none) t tn;
            blocked = omega arith;
            open_now = λ h. cc;
            busy = λ h. cc;
            told = λ _. quiet;
            enough = elim quiet [ inl z ↦ inl z | inr z ↦ inr (inl z) ];
          }
    wake-IsSound s i pick b r t v got bl dn (took c d e td tc out tn) =
        let bl' : t.blocked + 1 ≡ s.store.blocked + 0 =
          subst (λ q. t.blocked + 1 ≡ s.store.blocked + blocks q) e bl in
        let w = count-set is_waiting s.readers i (waiting b) running got in
        let a = count-set is_asleep s.readers i (waiting b) running got in
        let st = count-set is_stopped s.readers i (waiting b) running got in
        let blocked = v.blocked in
        let none_stopped = v.open_now d in
        let some_busy = v.busy d in
        subst (λ q. IsSound (answered s i q t)) (sym e)
          record {
            sized = sized_after s i v (returns (some c)) t tn;
            blocked = omega arith;
            open_now = λ h. omega arith;
            busy = λ h. omega arith;
            told = λ h. cc;
            enough = elim v.enough [
              | inl z ↦ inl (omega arith)
              | inr (inl z) ↦ inr (inl z)
              | inr (inr z) ↦ inr (inr (omega (arith, bit-le (not b))))
            ];
          }
    wake-IsSound s i pick b r t v got bl dn (idle d e td sc tc tn) =
        let bl' : t.blocked + 1 ≡ s.store.blocked + 1 =
          subst (λ q. t.blocked + 1 ≡ s.store.blocked + blocks q) e bl in
        let w = count-set is_waiting s.readers i (waiting b) (waiting false) got in
        let st = count-set is_stopped s.readers i (waiting b) (waiting false) got in
        let nothing : length t.contexts ≡ 0 = ap length tc in
        let blocked = v.blocked in
        let none_stopped = v.open_now d in
        let some_busy = v.busy d in
        subst (λ q. IsSound (answered s i q t)) (sym e)
          record {
            sized = sized_after s i v waits t tn;
            blocked = omega arith;
            open_now = λ h. omega arith;
            busy = λ h. omega arith;
            told = λ h. cc;
            enough = inr (inr (omega (arith, asleep-le (set s.readers i (waiting false)))));
          }
    wake-IsSound s i pick b r t v got bl dn (ended d e td sc tc tn) = cc

    -- A call that does not end the store.
    pub next-IsSound :
        (s : System C) (i pick : ℕ) (r : Reply C) (t : Store C)
        → IsSound s
        → get_elem? s.readers i ≡ some running
        → t.blocked ≡ s.store.blocked + blocks r
        → (r ≡ waits → s.store.blocked + 1 ≢ s.store.num_readers)
        → t.is_done ≡ s.store.is_done
        → Left (take pick) s.store r t
        → IsSound (answered s i r t)
    unfolding answered
    next-IsSound s i pick r t v got bl room dn (closed d e td tc tn) =
        let bl' : t.blocked ≡ s.store.blocked + 0 =
          subst (λ q. t.blocked ≡ s.store.blocked + blocks q) e bl in
        let w = count-set is_waiting s.readers i running stopped got in
        let a = count-set is_asleep s.readers i running stopped got in
        let blocked = v.blocked in
        let quiet : (count is_asleep (set s.readers i stopped) ≡ 0) ⊎ (has_all s.pending ≡ true) =
          elim (v.told d) [ inl z ↦ inl (omega arith) | inr z ↦ inr z ] in
        subst (λ q. IsSound (answered s i q t)) (sym e)
          record {
            sized = sized_after s i v (returns none) t tn;
            blocked = omega arith;
            open_now = λ h. cc;
            busy = λ h. cc;
            told = λ _. quiet;
            enough = elim quiet [ inl z ↦ inl z | inr z ↦ inr (inl z) ];
          }
    next-IsSound s i pick r t v got bl room dn (took c d e td tc out tn) =
        let bl' : t.blocked ≡ s.store.blocked + 0 =
          subst (λ q. t.blocked ≡ s.store.blocked + blocks q) e bl in
        let w = count-set is_waiting s.readers i running running got in
        let a = count-set is_asleep s.readers i running running got in
        let st = count-set is_stopped s.readers i running running got in
        let blocked = v.blocked in
        let none_stopped = v.open_now d in
        let some_busy = v.busy d in
        subst (λ q. IsSound (answered s i q t)) (sym e)
          record {
            sized = sized_after s i v (returns (some c)) t tn;
            blocked = omega arith;
            open_now = λ h. omega arith;
            busy = λ h. omega arith;
            told = λ h. cc;
            enough = elim v.enough [
              | inl z ↦ inl (omega arith)
              | inr (inl z) ↦ inr (inl z)
              | inr (inr z) ↦ inr (inr (omega arith))
            ];
          }
    next-IsSound s i pick r t v got bl room dn (idle d e td sc tc tn) =
        let bl' : t.blocked ≡ s.store.blocked + 1 =
          subst (λ q. t.blocked ≡ s.store.blocked + blocks q) e bl in
        let w = count-set is_waiting s.readers i running (waiting false) got in
        let st = count-set is_stopped s.readers i running (waiting false) got in
        let nothing : length t.contexts ≡ 0 = ap length tc in
        let blocked = v.blocked in
        let none_stopped = v.open_now d in
        let some_busy = v.busy d in
        let not_last : s.store.blocked + 1 ≢ s.store.num_readers = room e in
        subst (λ q. IsSound (answered s i q t)) (sym e)
          record {
            sized = sized_after s i v waits t tn;
            blocked = omega arith;
            open_now = λ h. omega arith;
            busy = λ h. ground arith;
            told = λ h. cc;
            enough = inr (inr (omega (arith, asleep-le (set s.readers i (waiting false)))));
          }
    next-IsSound s i pick r t v got bl room dn (ended d e td sc tc tn) = cc

    -- The call of the last reader, which ends the store and notifies all others.
    pub last-IsSound :
        (s : System C) (i : ℕ) (r : Reply C) (t : Store C)
        → IsSound s
        → get_elem? s.readers i ≡ some running
        → t.blocked ≡ s.store.blocked
        → t.is_done ≡ true
        → t.num_readers ≡ s.store.num_readers
        → r ≡ returns none
        → IsSound (answered (record s { readers = notify_all s.readers }) i r t)
    unfolding answered
    last-IsSound s i r t v got bl dn tn e =
        let got' = notify_all-get_elem? s.readers i got in
        let w = count-set is_waiting (notify_all s.readers) i running stopped got' in
        let a = count-set is_asleep (notify_all s.readers) i running stopped got' in
        let blocked = v.blocked in
        let kept = notify_all-waiting s.readers in
        let none_asleep = notify_all-asleep s.readers in
        subst (λ q. IsSound (answered (record s { readers = notify_all s.readers }) i q t)) (sym e)
          record {
            sized =
                length-set (notify_all s.readers) i stopped
                ∙ notify_all-length s.readers
                ∙ v.sized
                ∙ sym tn;
            blocked = omega arith;
            open_now = λ h. cc;
            busy = λ h. cc;
            told = λ _. inl (omega arith);
            enough = inl (omega arith);
          }
