-- ===== src/Execution/ContextStore/Drained.antt =====
-- QueueingContextStore gives out every context that was added, in order, before its readers stop.
use caffeine.Prelude.{
  if◌then◌else◌, Bool-cases, Outcome, done, ℕ, ◌+◌, ◌<◌, ◌≡◌, refl, sym, ap, ◌∙◌, subst, inl, inr,
  Bool, true, false, some, arith, List, [], ◌∷◌,
}
use caffeine.Prelude.{get_elem?, set, ◌++◌}
use caffeine.Execution.ContextStore.{Store, Reply, take_front, add_context, shutdown}
use caffeine.Execution.ContextStore.System.{
  running, waiting, stopped, System, notify_all, status, given, answered, added_to, Step, next,
  wake, add, add_multi, deliver_all, deliver_one, deliver_none, shut, Steps, here, step,
}
use caffeine.Execution.ContextStore.Counting.{
  is_running, is_waiting, is_stopped, count, count-set, count-pos, count_parts, notify_all-running,
  notify_all-get_elem?,
}
use caffeine.Execution.ContextStore.Calls.{Takes, Left, closed, took, idle, ended}
use caffeine.Execution.ContextStore.Invariant.{IsSound}
use caffeine.Execution.ContextStore.Progress.{
  called, resumed, append_nil, add_context_multi-fields, Step-IsSound, Steps-IsSound, started,
  started-IsSound,
}

module _ {ℓ} {C : Type ℓ} where
  abbrev pub in_order : ℕ → List C → Outcome (C × List C)
  in_order _ cs = take_front cs

  pub in_order-Takes : (pick : ℕ) → Takes {C = C} (in_order pick)
  unfolding take_front
  in_order-Takes pick [] h = cc
  in_order-Takes pick (c ∷ cs) h = (c, cs, refl, omega arith)

  record IsDrained (s : System C) : Type ℓ where
    order : s.taken ++ s.store.contexts ≡ s.added
    emptied :
        s.store.is_done ≡ true
        → s.shut_called ≡ false
        → (s.store.contexts ≡ []) × (count is_running s.readers ≡ 0)

  append_assoc : (xs ys zs : List C) → (xs ++ ys) ++ zs ≡ xs ++ (ys ++ zs)
  append_assoc [] ys zs = refl
  append_assoc (x ∷ xs) ys zs = ap (◌∷◌ x) (append_assoc xs ys zs)

  -- What an answer takes is the front of the queue.
  Left-given :
      (pick : ℕ) (s : Store C) (r : Reply C) (t : Store C)
      → Left (in_order pick) s r t
      → given r ++ t.contexts ≡ s.contexts
  unfolding take_front
  Left-given pick s r t (closed d e td tc tn) = rw e tc
  Left-given pick s r t (took c d e td tc out tn) = rw e (front s.contexts out)
    where
      front : (cs : List C) {rest : List C} → take_front cs ≡ done (c, rest) → c ∷ rest ≡ cs
      front [] o = cc
      front (x ∷ xs) o = cc
  Left-given pick s r t (idle d e td sc tc tn) = rw e (tc ∙ sym sc)
  Left-given pick s r t (ended d e td sc tc tn) = rw e (tc ∙ sym sc)

  order_kept :
      (pick : ℕ) (s : System C) (r : Reply C) (t : Store C)
      → Left (in_order pick) s.store r t
      → s.taken ++ s.store.contexts ≡ s.added
      → (s.taken ++ given r) ++ t.contexts ≡ s.added
  order_kept pick s r t l o =
      append_assoc s.taken (given r) t.contexts
      ∙ ap (λ cs. s.taken ++ cs) (Left-given pick s.store r t l)
      ∙ o

  busy_adder :
      {s : System C}
      → IsDrained s
      → (i : ℕ) → get_elem? s.readers i ≡ some running
      → s.store.is_done ≡ true
      → s.shut_called ≡ false
      → ⊥
  busy_adder {s} z i got d h =
      let (_, none_running) = z.emptied d h in
      omega (arith, count-pos is_running s.readers i running got refl)

  last_emptied :
      (s : System C) (i pick : ℕ) (r : Reply C) (t : Store C)
      → IsSound s
      → IsDrained s
      → get_elem? s.readers i ≡ some running
      → s.store.blocked + 1 ≡ s.store.num_readers
      → t.is_done ≡ true
      → s.shut_called ≡ false
      → Left (in_order pick) s.store r t
      → (t.contexts ≡ []) × (count is_running (set (notify_all s.readers) i (status r)) ≡ 0)
  last_emptied s i pick r t v z got full dn h (closed d e td tc tn) =
      absurd (busy_adder z i got d h)
  last_emptied s i pick r t v z got full dn h (took c d e td tc out tn) = cc
  last_emptied s i pick r t v z got full dn h (idle d e td sc tc tn) = cc
  last_emptied s i pick r t v z got full dn h (ended d e td sc tc tn) =
      let blocked = v.blocked in
      let sized = v.sized in
      let none_stopped = v.open_now d in
      (
        tc,
        rw e (
            omega (
              arith,
              count_parts s.readers,
              notify_all-running s.readers,
              count-set is_running (notify_all s.readers) i running stopped
                  (notify_all-get_elem? s.readers i got),
            )),
      )

  wake_emptied :
      (s : System C) (i pick : ℕ) (b : Bool) (r : Reply C) (t : Store C)
      → IsDrained s
      → get_elem? s.readers i ≡ some (waiting b)
      → s.store.is_done ≡ true
      → s.shut_called ≡ false
      → Left (in_order pick) s.store r t
      → (t.contexts ≡ []) × (count is_running (set s.readers i (status r)) ≡ 0)
  wake_emptied s i pick b r t z got d' h (closed d e td tc tn) =
      let (none_left, none_running) = z.emptied d h in
      (
        tc ∙ none_left,
        rw e (omega (arith, count-set is_running s.readers i (waiting b) stopped got)),
      )
  wake_emptied s i pick b r t z got d' h (took c d e td tc out tn) = cc
  wake_emptied s i pick b r t z got d' h (idle d e td sc tc tn) = cc
  wake_emptied s i pick b r t z got d' h (ended d e td sc tc tn) = cc

  Step-IsDrained : {s t : System C} → Step in_order s t → IsSound s → IsDrained s → IsDrained t
  unfolding answered added_to add_context shutdown
  Step-IsDrained {s} (next i pick r t last got ran e) v z =
      let (bl, left, lastly) = called in_order in_order-Takes s.store pick ran in
      subst IsDrained (sym e) record {
        order = order_kept pick s r t left z.order;
        emptied = λ d h. elim lastly [
          | inl (l, full, dn) ↦
              subst
                (λ q.
                  (t.contexts ≡ [])
                  × (count is_running
                        (set (if q then notify_all s.readers else s.readers) i (status r))
                      ≡ 0))
                (sym l) (last_emptied s i pick r t v z got full dn h left)
          | inr (l, room, dn) ↦ absurd (busy_adder z i got (sym dn ∙ d) h)
        ];
      }
  Step-IsDrained {s} (wake i pick b r t got ran e) v z =
      let blocked = v.blocked in
      let (bl, dn, left) =
        resumed in_order in_order-Takes s.store pick
          (omega (arith, count-pos is_waiting s.readers i (waiting b) got refl)) ran in
      subst IsDrained (sym e) record {
        order = order_kept pick s r t left z.order;
        emptied = λ d h. wake_emptied s i pick b r t z got (sym dn ∙ d) h left;
      }
  Step-IsDrained {s} (add i c got e) v z = subst IsDrained (sym e) record {
    order = sym (append_assoc s.taken s.store.contexts (c ∷ [])) ∙ ap (λ cs. cs ++ c ∷ []) z.order;
    emptied = λ d h. absurd (busy_adder z i got d h);
  }
  Step-IsDrained {s} (add_multi i cs got e) v z =
      let (b, n, dn, q) = add_context_multi-fields cs s.store in
      subst IsDrained (sym e) record {
        order =
            ap (λ ds. s.taken ++ ds) q
            ∙ sym (append_assoc s.taken s.store.contexts cs)
            ∙ ap (λ ds. ds ++ cs) z.order;
        emptied = λ d h. absurd (busy_adder z i got (sym dn ∙ d) h);
      }
  Step-IsDrained {s} (deliver_all before after p e) v z = subst IsDrained (sym e) record {
    order = z.order;
    emptied = λ d h.
        let (none_left, none_running) = z.emptied d h in
        (none_left, notify_all-running s.readers ∙ none_running);
  }
  Step-IsDrained {s} (deliver_one before after i p got e) v z = subst IsDrained (sym e) record {
    order = z.order;
    emptied = λ d h.
        let (none_left, none_running) = z.emptied d h in
        (
          none_left,
          omega (arith, count-set is_running s.readers i (waiting false) (waiting true) got),
        );
  }
  Step-IsDrained {s} (deliver_none before after p h e) v z =
      subst IsDrained (sym e) record { order = z.order; emptied = z.emptied }
  Step-IsDrained {s} (shut e) v z =
      subst IsDrained (sym e) record { order = z.order; emptied = λ d h. cc }

  Steps-IsDrained : {s t : System C} → Steps in_order s t → IsSound s → IsDrained s → IsDrained t
  Steps-IsDrained (here e) v z = subst IsDrained e z
  Steps-IsDrained (step m ms) v z =
      Steps-IsDrained ms (Step-IsSound in_order in_order-Takes m v) (Step-IsDrained m v z)

  started-IsDrained : (n : ℕ) (cs : List C) → IsDrained (started n cs)
  started-IsDrained n cs = record { order = refl; emptied = λ d h. cc }

  stopped_done :
      (s : System C)
      → IsSound s
      → (i : ℕ) → get_elem? s.readers i ≡ some stopped
      → s.store.is_done ≡ true
  stopped_done s v i got = elim (Bool-cases s.store.is_done) [
    | inl d ↦ d
    | inr d ↦
        let none_stopped = v.open_now d in
        absurd (omega (arith, count-pos is_stopped s.readers i stopped got refl))
  ]

  -- After any steps of one or more readers, the contexts that they got are those that were added,
  -- in the same order, less those that are still in the store.
  pub Steps-order :
      (n : ℕ) (cs : List C) (s : System C)
      → 0 < n
      → Steps in_order (started n cs) s
      → s.taken ++ s.store.contexts ≡ s.added
  Steps-order n cs s p ms =
      let z = Steps-IsDrained ms (started-IsSound n cs p) (started-IsDrained n cs) in z.order

  -- When a reader has stopped after any steps, and shutdown was never called, every context that was
  -- added was given out, in the order of the additions.
  pub Steps-drained :
      (n : ℕ) (cs : List C) (s : System C) (i : ℕ)
      → 0 < n
      → Steps in_order (started n cs) s
      → get_elem? s.readers i ≡ some stopped
      → s.shut_called ≡ false
      → s.taken ≡ s.added
  Steps-drained n cs s i p ms got h =
      let v = Steps-IsSound in_order in_order-Takes ms (started-IsSound n cs p) in
      let z = Steps-IsDrained ms (started-IsSound n cs p) (started-IsDrained n cs) in
      let (none_left, _) = z.emptied (stopped_done s v i got) h in
      append_nil s.taken ∙ ap (λ ds. s.taken ++ ds) (sym none_left) ∙ z.order
