-- ===== src/Execution/ContextStore/Calls.antt =====
-- What one critical section of a context store leaves behind, on each of its ways out.
use caffeine.Prelude.{
  ◌==◌, ==_iff, Bool-cases, Outcome, done, ℕ, ◌+◌, ◌-◌, ◌<◌, ◌≡◌, refl, ◌≢◌, ◌⊎◌, inl, inr, Bool,
  true, false, not, ◌&&◌, none, some, arith, List, [], ◌∷◌,
}
use caffeine.Prelude.{length}
use caffeine.Execution.ContextStore.{
  Store, Reply, returns, waits, is_nil, next_context, resume, block, remove_from,
}

and_false : (b : Bool) {d : Bool} → d ≡ true → (b && not d) ≡ false
and_false true e = rw e refl
and_false false e = refl

-- Removing a context ends well where there is one, and leaves one less.
abbrev pub Takes {ℓ} : {C : Type ℓ} → (List C → Outcome (C × List C)) → Type ℓ
Takes {C} take =
    (cs : List C)
    → is_nil cs ≡ false
    → (c : C) × (rest : List C) × (take cs ≡ done (c, rest)) × (length rest + 1 ≡ length cs)

module _ {ℓ} {C : Type ℓ} where
  -- The ways out of a call: the fields of the store, and the answer.
  pub data Left (take : List C → Outcome (C × List C)) (s : Store C) (r : Reply C) (t : Store C)
      : Type ℓ where
    -- The store is done.
    closed :
        s.is_done ≡ true
        → r ≡ returns none
        → t.is_done ≡ true
        → t.contexts ≡ s.contexts
        → t.num_readers ≡ s.num_readers
        → Left take s r t
    -- A context is removed.
    took :
        (c : C)
        → s.is_done ≡ false
        → r ≡ returns (some c)
        → t.is_done ≡ false
        → length t.contexts + 1 ≡ length s.contexts
        → take s.contexts ≡ done (c, t.contexts)
        → t.num_readers ≡ s.num_readers
        → Left take s r t
    -- There is nothing to remove, and the reader waits.
    idle :
        s.is_done ≡ false
        → r ≡ waits
        → t.is_done ≡ false
        → s.contexts ≡ []
        → t.contexts ≡ []
        → t.num_readers ≡ s.num_readers
        → Left take s r t
    -- All readers are blocked.
    ended :
        s.is_done ≡ false
        → r ≡ returns none
        → t.is_done ≡ true
        → s.contexts ≡ []
        → t.contexts ≡ []
        → t.num_readers ≡ s.num_readers
        → Left take s r t

  -- A reader that waits is blocked.
  abbrev pub blocks : Reply C → ℕ
  blocks (returns _) = 0
  blocks waits = 1

  pub is_nil-eq : (cs : List C) → is_nil cs ≡ true → cs ≡ []
  is_nil-eq [] e = refl
  is_nil-eq (c ∷ cs) e = cc

  -- What a call that began to wait leaves when it tests again.
  abbrev pub Resumed : (List C → Outcome (C × List C)) → Store C → Reply C × Store C → Type ℓ
  Resumed take s (r, t) =
      (t.blocked + 1 ≡ s.blocked + blocks r) × (t.is_done ≡ s.is_done) × Left take s r t

  -- What a call leaves; it notifies all when its reader is the last.
  abbrev pub Called : (List C → Outcome (C × List C)) → Store C → Reply C × Store C × Bool → Type ℓ
  Called take s (r, t, last) =
      (t.blocked ≡ s.blocked + blocks r)
      × Left take s r t
      × (((last ≡ true) × (s.blocked + 1 ≡ s.num_readers) × (t.is_done ≡ true))
          ⊎ ((last ≡ false)
              × (r ≡ waits → s.blocked + 1 ≢ s.num_readers)
              × (t.is_done ≡ s.is_done)))

  module _ (take : List C → Outcome (C × List C)) (takes : Takes take) where
    -- From the test of the loop on, in a store with a blocked reader.
    pub resume-Left :
        (s : Store C)
        → 0 < s.blocked
        → (r : Reply C) × (t : Store C) × (resume take s ≡ done (r, t)) × Resumed take s (r, t)
    unfolding resume remove_from
    resume-Left s p = elim (Bool-cases s.is_done) [
      | inl d ↦ (
        returns none,
        record s { blocked = s.blocked - 1 },
        rw (and_false (is_nil s.contexts) d, d) refl,
        (omega arith, refl, closed d refl d refl refl),
      )
      | inr d ↦ elim (Bool-cases (is_nil s.contexts)) [
        | inl n ↦ (
          waits,
          s,
          rw (n, d) refl,
          (omega arith, refl, idle d refl d (is_nil-eq s.contexts n) (is_nil-eq s.contexts n) refl),
        )
        | inr n ↦
            let (c, rest, ran, one) = takes s.contexts n in
            (
              returns (some c),
              record s { blocked = s.blocked - 1; contexts = rest },
              rw (n, d, ran) refl,
              (omega arith, refl, took c d refl d one ran refl),
            )
      ]
    ]

    -- A call of next_context from its start.
    pub next_context-Left :
        (s : Store C)
        → (r : Reply C) × (t : Store C) × (last : Bool) × (next_context take s ≡ done (r, t, last))
          × Called take s (r, t, last)
    unfolding next_context resume block remove_from
    next_context-Left s = elim (Bool-cases s.is_done) [
      | inl d ↦ (
        returns none,
        s,
        false,
        rw d refl,
        (omega arith, closed d refl d refl refl, inr (refl, (λ e. cc), refl)),
      )
      | inr d ↦ elim (Bool-cases (is_nil s.contexts)) [
        | inr n ↦
            let (c, rest, ran, one) = takes s.contexts n in
            (
              returns (some c),
              record s { contexts = rest },
              false,
              rw (d, n, ran) refl,
              (omega arith, took c d refl d one ran refl, inr (refl, (λ e. cc), refl)),
            )
        | inl n ↦ elim (Bool-cases (s.blocked + 1 == s.num_readers)) [
          | inl l ↦ (
            returns none,
            record s { blocked = s.blocked + 1 - 1; is_done = true },
            true,
            rw (d, n, l) refl,
            (
              omega arith,
              ended d refl refl (is_nil-eq s.contexts n) (is_nil-eq s.contexts n) refl,
              inl (refl, (==_iff (s.blocked + 1) s.num_readers).0 l, refl),
            ),
          )
          | inr l ↦ (
            waits,
            record s { blocked = s.blocked + 1 },
            false,
            rw (d, n, l) refl,
            (
              omega arith,
              idle d refl d (is_nil-eq s.contexts n) (is_nil-eq s.contexts n) refl,
              inr (refl, (λ _ e. ground arith), refl),
            ),
          )
        ]
      ]
    ]
