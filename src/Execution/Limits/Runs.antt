-- ===== src/Execution/Limits/Runs.antt =====
-- What the limited stores give out over any sequence of calls.
use caffeine.Prelude.{
  ltb, ◌==◌, if◌then◌else◌, Bool-cases, ℕ, zero, suc, ◌+◌, ◌^◌, ◌≤◌, ◌<◌, ◌≡◌, refl, sym, ap, ◌∙◌,
  subst, ◌⊎◌, inl, inr, Bool, true, false, Option, none, some, arith, List, [], ◌∷◌,
}
use caffeine.Prelude.{length-append, length, ◌++◌}
use caffeine.Execution.Limits.{
  StoreOps, Closes, CountLimited, TimeLimited, count_next, count_add, count_add_multi,
  count_shutdown, time_next, time_shutdown, time_add, time_add_multi,
}

-- The calls on a store; `now` is the clock of a call that reads it.
pub data Call {ℓ} (C : Type ℓ) : Type ℓ where
  takes : (now : ℕ) → Call C
  adds : C → Call C
  adds_multi : List C → Call C
  shuts : Call C

abbrev pub listed {ℓ} : {C : Type ℓ} → Option C → List C
listed none = []
listed (some c) = c ∷ []

listed-le {ℓ} : {C : Type ℓ} (o : Option C) → length (listed o) ≤ 1
listed-le none = omega arith
listed-le (some c) = omega arith

-- The calls before the first one that takes more than `n` contexts.
abbrev pub clipped {ℓ} : {C : Type ℓ} → ℕ → List (Call C) → List (Call C)
clipped n [] = []
clipped zero (takes now ∷ ks) = []
clipped (suc n) (takes now ∷ ks) = takes now ∷ clipped n ks
clipped n (adds c ∷ ks) = adds c ∷ clipped n ks
clipped n (adds_multi cs ∷ ks) = adds_multi cs ∷ clipped n ks
clipped n (shuts ∷ ks) = shuts ∷ clipped n ks

module _ {ℓ} {C S : Type ℓ} (ops : StoreOps C S) where
  -- The contexts that the calls give, and the store after them.
  unfoldable pub count_run : List (Call C) → CountLimited S → List C × CountLimited S
  count_run [] s = ([], s)
  count_run (takes now ∷ ks) s =
      let r = count_next ops s in let rest = count_run ks r.1 in (listed r.0 ++ rest.0, rest.1)
  count_run (adds c ∷ ks) s = count_run ks (count_add ops c s)
  count_run (adds_multi cs ∷ ks) s = count_run ks (count_add_multi ops cs s)
  count_run (shuts ∷ ks) s = count_run ks (count_shutdown ops s)

  -- The same calls on the inner store.
  unfoldable pub inner_run : List (Call C) → S → List C × S
  inner_run [] s = ([], s)
  inner_run (takes now ∷ ks) s =
      let r = ops.next s in let rest = inner_run ks r.1 in (listed r.0 ++ rest.0, rest.1)
  inner_run (adds c ∷ ks) s = inner_run ks (ops.add c s)
  inner_run (adds_multi cs ∷ ks) s = inner_run ks (ops.add_multi cs s)
  inner_run (shuts ∷ ks) s = inner_run ks (ops.shutdown s)

  unfoldable pub time_run : List (Call C) → TimeLimited S → List C × TimeLimited S
  time_run [] s = ([], s)
  time_run (takes now ∷ ks) s =
      let r = time_next ops now s in let rest = time_run ks r.1 in (listed r.0 ++ rest.0, rest.1)
  time_run (adds c ∷ ks) s = time_run ks (time_add ops c s)
  time_run (adds_multi cs ∷ ks) s = time_run ks (time_add_multi ops cs s)
  time_run (shuts ∷ ks) s = time_run ks (time_shutdown ops s)

  abbrev pub asked : List (Call C) → ℕ
  asked [] = 0
  asked (takes now ∷ ks) = suc (asked ks)
  asked (adds c ∷ ks) = asked ks
  asked (adds_multi cs ∷ ks) = asked ks
  asked (shuts ∷ ks) = asked ks

  module _ (laws : Closes ops) where
    kept_if :
        (b : Bool) (i : S)
        → laws.is_closed i ≡ true
        → laws.is_closed (if b then ops.shutdown i else i) ≡ true
    kept_if true i h = laws.shutdown_closes i
    kept_if false i h = h

    closed_next :
        (s : CountLimited S)
        → laws.is_closed s.inner ≡ true
        → ((count_next ops s).0 ≡ none) × (laws.is_closed (count_next ops s).1.inner ≡ true)
    unfolding count_next
    closed_next s h =
        let inner = if s.count == s.limit then ops.shutdown s.inner else s.inner in
        let kept : laws.is_closed inner ≡ true = kept_if (s.count == s.limit) s.inner h in
        elim (Bool-cases (ltb s.limit s.count)) [
          | inl e ↦ rw e (refl, kept)
          | inr e ↦ rw e (laws.next_none inner kept, laws.next_kept inner kept)
        ]

    -- Past the limit nothing is given.
    closed_run :
        (ks : List (Call C)) (s : CountLimited S)
        → laws.is_closed s.inner ≡ true
        → (count_run ks s).0 ≡ []
    unfolding count_run count_add count_add_multi count_shutdown
    closed_run [] s h = refl
    closed_run (takes now ∷ ks) s h =
        let (none_given, kept) = closed_next s h in
        rw (none_given, closed_run ks (count_next ops s).1 kept) refl
    closed_run (adds c ∷ ks) s h = closed_run ks (count_add ops c s) (laws.add_kept c s.inner h)
    closed_run (adds_multi cs ∷ ks) s h =
        closed_run ks (count_add_multi ops cs s) (laws.add_multi_kept cs s.inner h)
    closed_run (shuts ∷ ks) s h =
        closed_run ks (count_shutdown ops s) (laws.shutdown_closes s.inner)

    -- The call at the limit shuts the inner store down before it asks.
    last_next :
        (s : CountLimited S)
        → (s.count == s.limit) ≡ true
        → ((count_next ops s).0 ≡ none) × (laws.is_closed (count_next ops s).1.inner ≡ true)
    unfolding count_next
    last_next s e =
        let within : ltb s.limit s.count ≡ false = ground arith in
        let closed = laws.shutdown_closes s.inner in
        rw (within, e)
          (
            laws.next_none (ops.shutdown s.inner) closed,
            laws.next_kept (ops.shutdown s.inner) closed,
          )

    early_next :
        (s : CountLimited S)
        → s.count < s.limit
        → s.count + 1 < 2 ^ 64
        → ((count_next ops s).1.limit ≡ s.limit)
          × ((count_next ops s).1.count ≡ s.count + 1)
          × ((count_next ops s).0 ≡ (ops.next s.inner).0)
          × ((count_next ops s).1.inner ≡ (ops.next s.inner).1)
    unfolding count_next
    early_next s h f =
        let within : ltb s.limit s.count ≡ false = ground arith in
        let before : (s.count == s.limit) ≡ false = ground arith in
        rw (within, before) (refl, omega arith, refl, refl)

    clip_run :
        (n : ℕ) (ks : List (Call C)) (s : CountLimited S)
        → s.count + n ≡ s.limit
        → s.count + asked ks < 2 ^ 64
        → (count_run ks s).0 ≡ (inner_run (clipped n ks) s.inner).0
    unfolding count_run inner_run count_add count_add_multi count_shutdown
    clip_run zero [] s h f = refl
    clip_run (suc n) [] s h f = refl
    clip_run zero (takes now ∷ ks) s h f =
        let (none_given, kept) = last_next s (ground arith) in
        rw (none_given, closed_run ks (count_next ops s).1 kept) refl
    clip_run (suc n) (takes now ∷ ks) s h f =
        let (limit, count, answer, inner) = early_next s (omega arith) (omega arith) in
        ap (λ o. listed o ++ (count_run ks (count_next ops s).1).0) answer
        ∙ ap (λ cs. listed (ops.next s.inner).0 ++ cs)
            (clip_run n ks (count_next ops s).1 (omega arith) (omega arith)
              ∙ ap (λ t. (inner_run (clipped n ks) t).0) inner)
    clip_run zero (adds c ∷ ks) s h f = clip_run zero ks (count_add ops c s) h f
    clip_run (suc n) (adds c ∷ ks) s h f = clip_run (suc n) ks (count_add ops c s) h f
    clip_run zero (adds_multi cs ∷ ks) s h f = clip_run zero ks (count_add_multi ops cs s) h f
    clip_run (suc n) (adds_multi cs ∷ ks) s h f = clip_run (suc n) ks (count_add_multi ops cs s) h f
    clip_run zero (shuts ∷ ks) s h f = clip_run zero ks (count_shutdown ops s) h f
    clip_run (suc n) (shuts ∷ ks) s h f = clip_run (suc n) ks (count_shutdown ops s) h f

    -- Over an inner store that gives nothing from its shutdown on, whatever is added or asked then
    -- (a store that leaves shutdown() the no-op of ExecutionContextStore is none): a
    -- CountLimitedStore gives exactly what the inner store gives for the calls before the one past
    -- its limit, and nothing from then on, in a run of fewer than 2 ^ 64 calls of next_context.
    pub count_run-inner_run :
        (limit : ℕ) (inner : S) (ks : List (Call C))
        → asked ks < 2 ^ 64
        → (count_run ks (record { limit = limit; count = 0; inner = inner })).0
          ≡ (inner_run (clipped limit ks) inner).0
    count_run-inner_run limit inner ks f =
        clip_run limit ks (record { limit = limit; count = 0; inner = inner }) (omega arith)
          (omega (arith, f))

    clipped-le : (n : ℕ) (ks : List (Call C)) (s : S) → length (inner_run (clipped n ks) s).0 ≤ n
    unfolding inner_run
    clipped-le n [] s = omega arith
    clipped-le zero (takes now ∷ ks) s = omega arith
    clipped-le (suc n) (takes now ∷ ks) s = omega (
      arith,
      length-append (listed (ops.next s).0) (inner_run (clipped n ks) (ops.next s).1).0,
      listed-le (ops.next s).0,
      clipped-le n ks (ops.next s).1,
    )
    clipped-le zero (adds c ∷ ks) s = clipped-le zero ks (ops.add c s)
    clipped-le (suc n) (adds c ∷ ks) s = clipped-le (suc n) ks (ops.add c s)
    clipped-le zero (adds_multi cs ∷ ks) s = clipped-le zero ks (ops.add_multi cs s)
    clipped-le (suc n) (adds_multi cs ∷ ks) s = clipped-le (suc n) ks (ops.add_multi cs s)
    clipped-le zero (shuts ∷ ks) s = clipped-le zero ks (ops.shutdown s)
    clipped-le (suc n) (shuts ∷ ks) s = clipped-le (suc n) ks (ops.shutdown s)

    -- It never gives more contexts than its limit, in such a run.
    pub count_run-le :
        (limit : ℕ) (inner : S) (ks : List (Call C))
        → asked ks < 2 ^ 64
        → length (count_run ks (record { limit = limit; count = 0; inner = inner })).0 ≤ limit
    count_run-le limit inner ks f =
        subst (λ cs. length cs ≤ limit) (sym (count_run-inner_run limit inner ks f))
          (clipped-le limit ks inner)

    past_run :
        (ks : List (Call C)) (s : TimeLimited S)
        → s.shutdown_started ≡ true
        → laws.is_closed s.inner ≡ true
        → (time_run ks s).0 ≡ []
    unfolding time_run time_next time_shutdown time_add time_add_multi
    past_run [] s d h = refl
    past_run (takes now ∷ ks) s d h = elim (Bool-cases (ltb s.endpoint now)) [
      | inl e ↦
          rw (e, d)
            (past_run ks
              (record { endpoint = s.endpoint; shutdown_started = true; inner = s.inner }) refl h)
      | inr e ↦ rw (e, laws.next_none s.inner h) (past_run ks _ d (laws.next_kept s.inner h))
    ]
    past_run (adds c ∷ ks) s d h = past_run ks (time_add ops c s) d (laws.add_kept c s.inner h)
    past_run (adds_multi cs ∷ ks) s d h =
        past_run ks (time_add_multi ops cs s) d (laws.add_multi_kept cs s.inner h)
    past_run (shuts ∷ ks) s d h = past_run ks (time_shutdown ops s) refl (rw d h)

    -- Once its shutdown has started, the inner store is closed.
    abbrev Started : TimeLimited S → Type 0
    Started s =
        (s.shutdown_started ≡ false)
        ⊎ ((s.shutdown_started ≡ true) × (laws.is_closed s.inner ≡ true))

    shutdown-Started :
        (s : TimeLimited S)
        → Started s
        → ((time_shutdown ops s).shutdown_started ≡ true)
          × (laws.is_closed (time_shutdown ops s).inner ≡ true)
    unfolding time_shutdown
    shutdown-Started s (inl f) = (refl, rw f (laws.shutdown_closes s.inner))
    shutdown-Started s (inr (d, h)) = (refl, rw d h)

    time_next-Started : (now : ℕ) (s : TimeLimited S) → Started s → Started (time_next ops now s).1
    unfolding time_next
    time_next-Started now s h = elim (Bool-cases (ltb s.endpoint now)) [
      | inl e ↦ rw e (inr (shutdown-Started s h))
      | inr e ↦ rw e (kept h)
    ]
      where
        kept : Started s → Started (record s { inner = (ops.next s.inner).1 })
        kept (inl f) = inl f
        kept (inr (d, c)) = inr (d, laws.next_kept s.inner c)

    endpoint_kept :
        (t : ℕ) (s : TimeLimited S) {now : ℕ}
        → s.endpoint < now
        → (time_next ops t s).1.endpoint < now
    unfolding time_next
    endpoint_kept t s p = elim (Bool-cases (ltb s.endpoint t)) [ inl e ↦ rw e p | inr e ↦ rw e p ]

    late :
        (now : ℕ) (ks : List (Call C)) (s : TimeLimited S)
        → s.endpoint < now
        → Started s
        → (time_run (takes now ∷ ks) s).0 ≡ []
    unfolding time_run time_next
    late now ks s p h =
        let past : ltb s.endpoint now ≡ true = ground arith in
        let (d, c) = shutdown-Started s h in rw past (past_run ks (time_shutdown ops s) d c)

    time_split :
        (ks : List (Call C)) (now : ℕ) (ks' : List (Call C)) (s : TimeLimited S)
        → s.endpoint < now
        → Started s
        → (time_run (ks ++ takes now ∷ ks') s).0 ≡ (time_run ks s).0
    unfolding time_run time_add time_add_multi time_shutdown
    time_split [] now ks' s p h = late now ks' s p h
    time_split (takes t ∷ ks) now ks' s p h =
        ap (λ cs. listed (time_next ops t s).0 ++ cs)
          (time_split ks now ks' (time_next ops t s).1 (endpoint_kept t s p)
            (time_next-Started t s h))
    time_split (adds c ∷ ks) now ks' s p (inl f) =
        time_split ks now ks' (time_add ops c s) p (inl f)
    time_split (adds c ∷ ks) now ks' s p (inr (d, h)) =
        time_split ks now ks' (time_add ops c s) p (inr (d, laws.add_kept c s.inner h))
    time_split (adds_multi cs ∷ ks) now ks' s p (inl f) =
        time_split ks now ks' (time_add_multi ops cs s) p (inl f)
    time_split (adds_multi cs ∷ ks) now ks' s p (inr (d, h)) =
        time_split ks now ks' (time_add_multi ops cs s) p
          (inr (d, laws.add_multi_kept cs s.inner h))
    time_split (shuts ∷ ks) now ks' s p h =
        time_split ks now ks' (time_shutdown ops s) p (inr (shutdown-Started s h))

    -- Over an inner store that gives nothing from its shutdown on, whatever is added or asked then
    -- (a store that leaves shutdown() the no-op of ExecutionContextStore is none): once a
    -- TimeLimitedStore is asked after its end, it gives nothing to that call or to any later one,
    -- whatever the clock reads then.
    pub time_run-late :
        (endpoint : ℕ) (inner : S) (ks ks' : List (Call C)) (now : ℕ)
        → endpoint < now
        → (time_run
            (ks ++ takes now ∷ ks')
            (record { endpoint = endpoint; shutdown_started = false; inner = inner })).0
          ≡ (time_run ks
              (record { endpoint = endpoint; shutdown_started = false; inner = inner })).0
    time_run-late endpoint inner ks ks' now p =
        time_split ks now ks'
          (record { endpoint = endpoint; shutdown_started = false; inner = inner }) p (inl refl)
