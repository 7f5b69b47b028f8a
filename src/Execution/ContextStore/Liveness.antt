-- ===== src/Execution/ContextStore/Liveness.antt =====
-- The readers of a context store cannot all wait: a thread can move until they have all stopped.
use caffeine.Prelude.{
  Bool-cases, Outcome, ℕ, ◌+◌, ◌≤◌, ◌<◌, ◌≡◌, refl, ap, ◌∙◌, ◌⊎◌, inl, inr, Bool, true, false, some,
  arith, List, [], ◌∷◌,
}
use caffeine.Prelude.{dec_lt, length, get_elem?}
use caffeine.Execution.ContextStore.System.{
  Reader, running, waiting, stopped, Notice, one, all, System, Step, next, wake, deliver_all,
  deliver_one, deliver_none, Steps,
}
use caffeine.Execution.ContextStore.Counting.{
  is_running, is_waiting, is_asleep, count, count-pos, count-some, count_parts, has_all, ones,
}
use caffeine.Execution.ContextStore.Calls.{Takes, resume-Left, next_context-Left}
use caffeine.Execution.ContextStore.Invariant.{IsSound}
use caffeine.Execution.ContextStore.Progress.{asleep-eq, Steps-IsSound, started, started-IsSound}

-- Waiting, and notified.
abbrev pub is_awake : Reader → Bool
is_awake running = false
is_awake (waiting b) = b
is_awake stopped = false

awake_asleep : (rs : List Reader) → count is_awake rs + count is_asleep rs ≡ count is_waiting rs
unfolding count
awake_asleep [] = refl
awake_asleep (running ∷ rs) = omega (arith, awake_asleep rs)
awake_asleep (waiting true ∷ rs) = omega (arith, awake_asleep rs)
awake_asleep (waiting false ∷ rs) = omega (arith, awake_asleep rs)
awake_asleep (stopped ∷ rs) = omega (arith, awake_asleep rs)

awake-eq : (r : Reader) → is_awake r ≡ true → r ≡ waiting true
awake-eq running h = cc
awake-eq (waiting true) h = refl
awake-eq (waiting false) h = cc
awake-eq stopped h = cc

running-eq : (r : Reader) → is_running r ≡ true → r ≡ running
running-eq running h = refl
running-eq (waiting b) h = cc
running-eq stopped h = cc

-- The threads that can move without a spurious wakeup: a reader that runs, a reader that was
-- notified, and one that has a notification to deliver.
abbrev pub Due {ℓ} : {C : Type ℓ} → System C → Type 0
Due s =
    ((i : ℕ) × (get_elem? s.readers i ≡ some running))
    ⊎ ((i : ℕ) × (get_elem? s.readers i ≡ some (waiting true)))
    ⊎ ((n : Notice) × (ns : List Notice) × (s.pending ≡ n ∷ ns))

module _ {ℓ} {C : Type ℓ} (take : ℕ → List C → Outcome (C × List C))
    (takes : (pick : ℕ) → Takes (take pick)) where
  -- Such a thread has a step.
  Due-Step : (s : System C) → IsSound s → Due s → (t : System C) × Step take s t
  Due-Step s v (inl (i, got)) =
      let (r, t, last, ran, _) = next_context-Left (take 0) (takes 0) s.store in
      (_, next i 0 r t last got ran refl)
  Due-Step s v (inr (inl (i, got))) =
      let blocked = v.blocked in
      let (r, t, ran, _) =
        resume-Left (take 0) (takes 0) s.store
          (omega (arith, count-pos is_waiting s.readers i (waiting true) got refl)) in
      (_, wake i 0 true r t got ran refl)
  Due-Step s v (inr (inr (all, ns, p))) = (_, deliver_all [] ns p refl)
  Due-Step s v (inr (inr (one, ns, p))) = elim (dec_lt 0 (count is_asleep s.readers)) [
    | yes h ↦
        let (i, r, got, holds) = count-some is_asleep s.readers h in
        (_, deliver_one [] ns i p (got ∙ ap some (asleep-eq r holds)) refl)
    | no h ↦ (
      _,
      deliver_none [] ns p (λ i got. h (count-pos is_asleep s.readers i (waiting false) got refl))
          refl,
    )
  ]

  pending-cases :
      (ns : List Notice) → (ns ≡ []) ⊎ ((m : Notice) × (ms : List Notice) × (ns ≡ m ∷ ms))
  pending-cases [] = inl refl
  pending-cases (n ∷ ns) = inr (n, ns, refl)

  nobody :
      (rs : List Reader)
      → count is_running rs ≡ 0
      → count is_waiting rs ≡ 0
      → (i : ℕ) (r : Reader) → get_elem? rs i ≡ some r
      → r ≡ stopped
  nobody rs a b i running got = absurd (omega (arith, count-pos is_running rs i running got refl))
  nobody rs a b i (waiting c) got =
      absurd (omega (arith, count-pos is_waiting rs i (waiting c) got refl))
  nobody rs a b i stopped got = refl

  quiet :
      (s : System C)
      → IsSound s
      → count is_running s.readers ≡ 0
      → count is_awake s.readers ≡ 0
      → s.pending ≡ []
      → count is_waiting s.readers ≡ 0
  unfolding has_all
  quiet s v still unnotified p = elim (Bool-cases s.store.is_done) [
    | inl d ↦ elim (v.told d) [
      | inl z ↦ omega (arith, awake_asleep s.readers)
      | inr z ↦ cc (ap has_all p)
    ]
    | inr d ↦
        let none_stopped = v.open_now d in
        let some_busy = v.busy d in
        let sized = v.sized in absurd (omega (arith, count_parts s.readers))
  ]

  -- In a sound system all readers have stopped, or some thread can move.
  sound_moves :
      (s : System C)
      → IsSound s
      → ((i : ℕ) (r : Reader) → get_elem? s.readers i ≡ some r → r ≡ stopped) ⊎ Due s
  sound_moves s v = elim (dec_lt 0 (count is_running s.readers)) [
    | yes h ↦
        let (i, r, got, holds) = count-some is_running s.readers h in
        inr (inl (i, got ∙ ap some (running-eq r holds)))
    | no still ↦ elim (dec_lt 0 (count is_awake s.readers)) [
      | yes h ↦
          let (i, r, got, holds) = count-some is_awake s.readers h in
          inr (inr (inl (i, got ∙ ap some (awake-eq r holds))))
      | no unnotified ↦ elim (pending-cases s.pending) [
        | inr (n, ns, p) ↦ inr (inr (inr (n, ns, p)))
        | inl p ↦ inl (nobody s.readers (omega arith) (quiet s v (omega arith) (omega arith) p))
      ]
    ]
  ]

  -- After any steps of one or more readers, whatever contexts they started with, either every
  -- reader has stopped, or one is running, was notified, or has a notification under way, and then
  -- the threads have a step.
  pub Steps-moves :
      (n : ℕ) (cs : List C) (s : System C)
      → 0 < n
      → Steps take (started n cs) s
      → ((i : ℕ) (r : Reader) → get_elem? s.readers i ≡ some r → r ≡ stopped)
        ⊎ (Due s × ((t : System C) × Step take s t))
  Steps-moves n cs s p ms =
      let v = Steps-IsSound take takes ms (started-IsSound n cs p) in
      elim (sound_moves s v) [ inl h ↦ inl h | inr d ↦ inr (d, Due-Step s v d) ]

  -- After any steps, a reader that waits and was not notified is no lost wakeup: there is a
  -- notify_all under way, or with each context in the store goes a reader that was notified or a
  -- notify_one under way.
  pub Steps-notified :
      (n : ℕ) (cs : List C) (s : System C) (i : ℕ)
      → 0 < n
      → Steps take (started n cs) s
      → get_elem? s.readers i ≡ some (waiting false)
      → (has_all s.pending ≡ true)
        ⊎ (length s.store.contexts ≤ count is_awake s.readers + ones s.pending)
  Steps-notified n cs s i p ms got =
      let v = Steps-IsSound take takes ms (started-IsSound n cs p) in
      let asleep = count-pos is_asleep s.readers i (waiting false) got refl in
      elim v.enough [
        | inl z ↦ absurd (omega arith)
        | inr (inl z) ↦ inl z
        | inr (inr z) ↦ inr (omega (arith, awake_asleep s.readers))
      ]
