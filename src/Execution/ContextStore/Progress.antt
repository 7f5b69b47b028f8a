-- ===== src/Execution/ContextStore/Progress.antt =====
-- No step of the threads around a context store loses a wakeup, and they never wait for each other.
use caffeine.Prelude.{
  ◌==◌, if◌then◌else◌, Bool-cases, Outcome, done, done-injective, ℕ, zero, suc, ◌+◌, ◌<◌, ◌≡◌, refl,
  sym, ap, ◌∙◌, subst, ◌≢◌, inl, inr, Bool, true, false, none, some, arith, List, [], ◌∷◌,
}
use caffeine.Prelude.{dec_lt, length, get_elem?, ◌++◌, length-set, length-append}
use caffeine.Execution.ContextStore.{
  Store, Reply, returns, new_store, next_context, resume, add_context, add_context_multi, shutdown,
}
use caffeine.Execution.ContextStore.System.{
  replicate, Reader, running, waiting, stopped, Notice, System, notify_all, answered, added_to,
  notice_for, Step, next, wake, add, add_multi, deliver_all, deliver_one, deliver_none, shut, Steps,
  here, step,
}
use caffeine.Execution.ContextStore.Counting.{
  is_waiting, is_asleep, is_stopped, count, count-set, count-pos, count-some, notify_all-length,
  notify_all-waiting, notify_all-asleep, has_all, ones, ones-removed, has_all-removed,
}
use caffeine.Execution.ContextStore.Calls.{
  Takes, Left, closed, took, idle, ended, resume-Left, next_context-Left, Called, Resumed,
}
use caffeine.Execution.ContextStore.Invariant.{
  Enough, IsSound, wake-IsSound, next-IsSound, last-IsSound,
}

notify_all-stopped : (rs : List Reader) → count is_stopped (notify_all rs) ≡ count is_stopped rs
unfolding notify_all count
notify_all-stopped [] = refl
notify_all-stopped (running ∷ rs) = omega (arith, notify_all-stopped rs)
notify_all-stopped (waiting b ∷ rs) = omega (arith, notify_all-stopped rs)
notify_all-stopped (stopped ∷ rs) = omega (arith, notify_all-stopped rs)

-- A reader that is counted as asleep waits and is not notified.
pub asleep-eq : (r : Reader) → is_asleep r ≡ true → r ≡ waiting false
asleep-eq running h = cc
asleep-eq (waiting true) h = cc
asleep-eq (waiting false) h = refl
asleep-eq stopped h = cc

pub none_asleep :
    (rs : List Reader) → ((i : ℕ) → get_elem? rs i ≢ some (waiting false)) → count is_asleep rs ≡ 0
none_asleep rs h = elim (dec_lt 0 (count is_asleep rs)) [
  | yes p ↦
      let (i, r, got, holds) = count-some is_asleep rs p in
      absurd (h i (got ∙ ap some (asleep-eq r holds)))
  | no p ↦ omega arith
]

length-replicate : (n : ℕ) → length (replicate n running) ≡ n
length-replicate zero = refl
length-replicate (suc n) = ap suc (length-replicate n)

count-replicate :
    (p : Reader → Bool) (n : ℕ) → p running ≡ false → count p (replicate n running) ≡ 0
unfolding count
count-replicate p zero h = refl
count-replicate p (suc n) h = rw h (omega (arith, count-replicate p n h))

module _ {ℓ} {C : Type ℓ} where
  stops :
      (take : List C → Outcome (C × List C)) (s : Store C) (r : Reply C) (t : Store C)
      → Left take s r t
      → t.is_done ≡ true
      → (r ≡ returns none) × (t.num_readers ≡ s.num_readers)
  stops take s r t (closed d e td tc tn) h = (e, tn)
  stops take s r t (took c d e td tc out tn) h = cc
  stops take s r t (idle d e td sc tc tn) h = cc
  stops take s r t (ended d e td sc tc tn) h = (e, tn)

  more_notices :
      (cs : List C) (ns : List Notice) → has_all ns ≡ true → has_all (notice_for cs ∷ ns) ≡ true
  unfolding has_all
  more_notices cs ns h = elim (Bool-cases (length cs == 1)) [ inl e ↦ rw e h | inr e ↦ rw e refl ]

  multi-Enough :
      (cs : List C) (after before blocked asleep : ℕ) (ns : List Notice)
      → after ≡ before + length cs
      → Enough before blocked asleep ns
      → Enough after blocked asleep (notice_for cs ∷ ns)
  unfolding has_all ones
  multi-Enough cs after before blocked asleep ns e (inl z) = inl z
  multi-Enough cs after before blocked asleep ns e (inr (inl z)) = inr (inl (more_notices cs ns z))
  multi-Enough cs after before blocked asleep ns e (inr (inr z)) =
      elim (Bool-cases (length cs == 1)) [
        | inl h ↦ inr (inr (rw h (ground arith)))
        | inr h ↦ inr (inl (rw h refl))
      ]

  -- The fields of a store that many contexts were added to.
  pub append_nil : (xs : List C) → xs ≡ xs ++ []
  append_nil [] = refl
  append_nil (x ∷ xs) = ap (◌∷◌ x) (append_nil xs)

  regroup : (xs : List C) (c : C) (cs : List C) → (xs ++ c ∷ []) ++ cs ≡ xs ++ c ∷ cs
  regroup [] c cs = refl
  regroup (x ∷ xs) c cs = ap (◌∷◌ x) (regroup xs c cs)

  pub add_context_multi-fields :
      (cs : List C) (s : Store C)
      → ((add_context_multi cs s).blocked ≡ s.blocked)
        × ((add_context_multi cs s).num_readers ≡ s.num_readers)
        × ((add_context_multi cs s).is_done ≡ s.is_done)
        × ((add_context_multi cs s).contexts ≡ s.contexts ++ cs)
  unfolding add_context_multi
  add_context_multi-fields [] s = (refl, refl, refl, append_nil s.contexts)
  add_context_multi-fields (c ∷ cs) s =
      let (b, n, d, q) = add_context_multi-fields cs (add_context c s) in
      (b, n, d, q ∙ regroup s.contexts c cs)

  module _ (take : ℕ → List C → Outcome (C × List C)) (takes : (pick : ℕ) → Takes (take pick)) where
    pub called :
        (s : Store C) (pick : ℕ) {r : Reply C} {t : Store C} {last : Bool}
        → next_context (take pick) s ≡ done (r, t, last)
        → Called (take pick) s (r, t, last)
    called s pick ran =
        let (r, t, last, ran', facts) = next_context-Left (take pick) (takes pick) s in
        subst (Called (take pick) s) (done-injective (sym ran' ∙ ran)) facts

    pub resumed :
        (s : Store C) (pick : ℕ) {r : Reply C} {t : Store C}
        → 0 < s.blocked
        → resume (take pick) s ≡ done (r, t)
        → Resumed (take pick) s (r, t)
    resumed s pick p ran =
        let (r, t, ran', facts) = resume-Left (take pick) (takes pick) s p in
        subst (Resumed (take pick) s) (done-injective (sym ran' ∙ ran)) facts

    -- Every step of a thread keeps the invariant.
    pub Step-IsSound : {s t : System C} → Step take s t → IsSound s → IsSound t
    unfolding answered added_to add_context shutdown has_all ones
    Step-IsSound {s} (next i pick r t last got ran e) v =
        let (bl, left, lastly) = called s.store pick ran in
        let moved : IsSound (
            answered (record s { readers = if last then notify_all s.readers else s.readers }) i r
              t) =
          elim lastly [
            | inl (l, _, dn) ↦ rw l (
                let (none_given, tn) = stops (take pick) s.store r t left dn in
                last-IsSound take takes s i r t v got (bl ∙ rw none_given (omega arith)) dn tn
                  none_given)
            | inr (l, room, dn) ↦ rw l (next-IsSound take takes s i pick r t v got bl room dn left)
          ] in
        subst IsSound (sym e) moved
    Step-IsSound {s} (wake i pick b r t got ran e) v =
        let blocked = v.blocked in
        let (bl, dn, left) =
          resumed s.store pick
            (omega (arith, count-pos is_waiting s.readers i (waiting b) got refl)) ran in
        subst IsSound (sym e) (wake-IsSound take takes s i pick b r t v got bl dn left)
    Step-IsSound {s} (add i c got e) v = subst IsSound (sym e) record {
      sized = v.sized;
      blocked = v.blocked;
      open_now = v.open_now;
      busy = v.busy;
      told = v.told;
      enough = elim v.enough [
        | inl z ↦ inl z
        | inr (inl z) ↦ inr (inl z)
        | inr (inr z) ↦ inr (inr (omega (arith, length-append s.store.contexts (c ∷ []))))
      ];
    }
    Step-IsSound {s} (add_multi i cs got e) v =
        let (b, n, d, q) = add_context_multi-fields cs s.store in
        subst IsSound (sym e) record {
          sized = v.sized ∙ sym n;
          blocked = b ∙ v.blocked;
          open_now = λ h. v.open_now (sym d ∙ h);
          busy = λ h. subst (λ k. count is_waiting s.readers < k) (sym n) (v.busy (sym d ∙ h));
          told = λ h. elim (v.told (sym d ∙ h)) [
            | inl z ↦ inl z
            | inr z ↦ inr (more_notices cs s.pending z)
          ];
          enough =
              multi-Enough cs (length (add_context_multi cs s.store).contexts)
                (length s.store.contexts) (count is_waiting s.readers) (count is_asleep s.readers)
                s.pending (ap length q ∙ length-append s.store.contexts cs) v.enough;
        }
    Step-IsSound {s} (deliver_all before after p e) v =
        let blocked = v.blocked in
        subst IsSound (sym e) record {
          sized = notify_all-length s.readers ∙ v.sized;
          blocked = omega (arith, notify_all-waiting s.readers);
          open_now = λ h. notify_all-stopped s.readers ∙ v.open_now h;
          busy = λ h. let some_busy = v.busy h in omega (arith, notify_all-waiting s.readers);
          told = λ h. inl (notify_all-asleep s.readers);
          enough = inl (notify_all-asleep s.readers);
        }
    Step-IsSound {s} (deliver_one before after i p got e) v =
        let w = count-set is_waiting s.readers i (waiting false) (waiting true) got in
        let a = count-set is_asleep s.readers i (waiting false) (waiting true) got in
        let st = count-set is_stopped s.readers i (waiting false) (waiting true) got in
        let kept = ap has_all p ∙ has_all-removed before after in
        let fewer = ap ones p ∙ ones-removed before after in
        let blocked = v.blocked in
        subst IsSound (sym e) record {
          sized = length-set s.readers i (waiting true) ∙ v.sized;
          blocked = omega arith;
          open_now = λ h. let none_stopped = v.open_now h in omega arith;
          busy = λ h. let some_busy = v.busy h in omega arith;
          told = λ h. elim (v.told h) [ inl z ↦ absurd (omega arith) | inr z ↦ inr (sym kept ∙ z) ];
          enough = elim v.enough [
            | inl z ↦ absurd (omega arith)
            | inr (inl z) ↦ inr (inl (sym kept ∙ z))
            | inr (inr z) ↦ inr (inr (omega arith))
          ];
        }
    Step-IsSound {s} (deliver_none before after p h e) v =
        let quiet = none_asleep s.readers h in
        subst IsSound (sym e) record {
          sized = v.sized;
          blocked = v.blocked;
          open_now = v.open_now;
          busy = v.busy;
          told = λ _. inl quiet;
          enough = inl quiet;
        }
    Step-IsSound {s} (shut e) v = subst IsSound (sym e) record {
      sized = v.sized;
      blocked = v.blocked;
      open_now = λ h. cc;
      busy = λ h. cc;
      told = λ _. inr refl;
      enough = inr (inl refl);
    }

    pub Steps-IsSound : {s t : System C} → Steps take s t → IsSound s → IsSound t
    Steps-IsSound (here e) v = subst IsSound e v
    Steps-IsSound (step m ms) v = Steps-IsSound ms (Step-IsSound m v)

  -- `n` readers before their first call, with the contexts that were added for them.
  abbrev pub started : ℕ → List C → System C
  started n cs = record {
    store = record (new_store n) { contexts = cs };
    readers = replicate n running;
    pending = [];
    taken = [];
    added = cs;
    shut_called = false;
  }

  pub started-IsSound : (n : ℕ) (cs : List C) → 0 < n → IsSound (started n cs)
  started-IsSound n cs p = record {
    sized = length-replicate n;
    blocked = sym (count-replicate is_waiting n refl);
    open_now = λ _. count-replicate is_stopped n refl;
    busy = λ _. omega (arith, count-replicate is_waiting n refl);
    told = λ h. cc;
    enough = inl (count-replicate is_asleep n refl);
  }
