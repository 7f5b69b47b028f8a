-- ===== src/Query/ConstraintSlicer/Loops.antt =====
-- The loops that build a slice.
use caffeine.Prelude.{
  Option-cases, done, ◌>>=◌, ℕ, ◌≡◌, refl, sym, ap, subst, ◌↔◌, inl, inr, Bool, true, List, [], ◌∷◌,
}
use caffeine.Prelude.{◌++◌, In, All}
use caffeine.Apint.{ApInt}
use caffeine.Ir.Operation.{Op}
use caffeine.Model.AssertionList.{AssertionList, insert}
use caffeine.Model.AssertionList.Meaning.{IsGoal, Meaning}
use caffeine.Model.AssertionList.Insert.{Member, IsIndexed, insert_means, listed}
use caffeine.Query.ConstraintSlicer.{
  Cache, KnownMap, lookup_symbol, contained_constants, insert_known, insert_unproven, insert_each,
}
use caffeine.Query.ConstraintSlicer.Symbols.{Occurs, IsCache, contained_constants-IsCache}
use caffeine.Query.ConstraintSlicer.Known.{found}

pub All-split : (P : Op → Type 0) (xs ys : List Op) → All P (xs ++ ys) ↔ (All P xs × All P ys)
All-split P [] ys = ((λ h. (tt, h)), (λ h. h.1))
All-split P (x ∷ xs) ys =
    let rest = All-split P xs ys in
    ((λ h. let both = rest.0 h.1 in ((h.0, both.0), both.1)), (λ h. (h.0.0, rest.1 (h.0.1, h.1))))

pub All-of : (P : Op → Type 0) (ops : List Op) → ((op : Op) → Member op ops → P op) → All P ops
All-of P [] f = tt
All-of P (o ∷ ops) f = (f o (inl refl), All-of P ops (λ op m. f op (inr m)))

module _ (A : ApInt) (scope : ℕ → ℕ) (same : Op → Op → Bool)
    (same-eq : (a b : Op) → same a b ≡ true → a ≡ b) (meaning : Meaning A scope)
    (arrange : List ℕ → List ℕ)
    (arrange-In : (x : ℕ) (xs : List ℕ) → In x (arrange xs) ↔ In x xs) where
  abbrev pub AreHeld : List Op → Type 0
  AreHeld ops = All meaning.Holds ops

  abbrev pub IsGiven : List Op → Type 0
  IsGiven ops = All (IsGoal scope) ops

  -- All that the map has under the symbols holds.
  abbrev pub KnownHold : KnownMap → List ℕ → Type 0
  KnownHold known xs = (x : ℕ) → In x xs → AreHeld (found (lookup_symbol known x))

  KnownHold-cons :
      (known : KnownMap) (x : ℕ) (xs : List ℕ)
      → KnownHold known (x ∷ xs) ↔ (AreHeld (found (lookup_symbol known x)) × KnownHold known xs)
  KnownHold-cons known x xs = (
    (λ h. (h x (inl refl), λ y m. h y (inr m))),
    (λ h y m. elim m [
      | inl e ↦ subst (λ z. AreHeld (found (lookup_symbol known z))) (sym e) h.0
      | inr n ↦ h.1 y n
    ]),
  )

  pub insert_known-Holds :
      (known : KnownMap) (xs : List ℕ) (list : AssertionList)
      → ((x : ℕ) → IsGiven (found (lookup_symbol known x)))
      → IsIndexed list
      → (l' : AssertionList) × (insert_known A same arrange known xs list ≡ done l')
        × IsIndexed l'
        × (AreHeld (listed l') ↔ (AreHeld (listed list) × KnownHold known xs))
  unfolding insert_known
  insert_known-Holds known [] list given indexed =
      (list, refl, indexed, ((λ h. (h, λ x n. elim n [ ])), (λ h. h.0)))
  insert_known-Holds known (x ∷ xs) list given indexed =
      elim (Option-cases (lookup_symbol known x)) [
        | inl p ↦
            (let (l', run, indexed', holds) = insert_known-Holds known xs list given indexed in
              let cons = KnownHold-cons known x xs in
              let nothing : AreHeld (found (lookup_symbol known x)) = rw p tt in
              (
                l',
                rw (insert_known, p) run,
                indexed',
                (
                  (λ h. let both = holds.0 h in (both.0, cons.1 (nothing, both.1))),
                  (λ h. holds.1 (h.0, (cons.0 h.1).1)),
                ),
              ))
        | inr (ops, p) ↦
            (let here : found (lookup_symbol known x) ≡ ops = ap found p in
              let (l1, run1, indexed1, holds1) =
                insert_means A scope same same-eq meaning list ops indexed
                  (subst IsGiven here (given x)) in
              let (l', run, indexed', holds) = insert_known-Holds known xs l1 given indexed1 in
              let cons = KnownHold-cons known x xs in
              (
                l',
                rw (insert_known, p, run1, ◌>>=◌) run,
                indexed',
                (
                  (λ h.
                      let both = holds.0 h in
                      let first = holds1.0 both.0 in
                      (first.0, cons.1 (subst AreHeld (sym here) first.1, both.1))),
                  (λ h.
                      let both = cons.0 h.1 in
                      holds.1 (holds1.1 (h.0, subst AreHeld here both.0), both.1)),
                ),
              ))
      ]

  -- All that the map has under the symbols of the operations holds.
  abbrev pub SharedHold : KnownMap → List Op → Type 0
  SharedHold known us =
      (x : ℕ) (u : Op) → Member u us → Occurs x u → AreHeld (found (lookup_symbol known x))

  insert_unproven_nil :
      (known : KnownMap) (cache : Cache) (list : AssertionList)
      → insert_unproven A same arrange known cache [] list ≡ done (list, cache)
  unfolding insert_unproven
  insert_unproven_nil known cache list = refl

  insert_unproven_step :
      (known : KnownMap) (cache cache' : Cache) (u : Op) (us : List Op)
      (list l1 l2 l' : AssertionList)
      → insert A same list (u ∷ []) ≡ done l1
      → insert_known A same arrange known (contained_constants A same arrange cache u).0 l1
        ≡ done l2
      → insert_unproven A same arrange known (contained_constants A same arrange cache u).1 us l2
        ≡ done (l', cache')
      → insert_unproven A same arrange known cache (u ∷ us) list ≡ done (l', cache')
  unfolding insert_unproven
  insert_unproven_step known cache cache' u us list l1 l2 l' run1 run2 run =
      rw (run1, ◌>>=◌, run2) run

  pub insert_unproven-Holds :
      (known : KnownMap) (cache : Cache) (us : List Op) (list : AssertionList)
      → ((x : ℕ) → IsGiven (found (lookup_symbol known x)))
      → IsGiven us
      → IsCache A same same-eq arrange arrange-In cache
      → IsIndexed list
      → (l' : AssertionList) × (cache' : Cache) × (insert_unproven A same arrange known cache us
            list
          ≡ done (l', cache'))
        × IsIndexed l'
        × IsCache A same same-eq arrange arrange-In cache'
        × (AreHeld (listed l') ↔ (AreHeld (listed list) × (AreHeld us × SharedHold known us)))
  insert_unproven-Holds known cache [] list given ops ok indexed = (
    list,
    cache,
    insert_unproven_nil known cache list,
    indexed,
    ok,
    ((λ h. (h, (tt, λ x u n o. elim n [ ]))), (λ h. h.0)),
  )
  insert_unproven-Holds known cache (u ∷ us) list given ops ok indexed =
      let (l1, run1, indexed1, holds1) =
        insert_means A scope same same-eq meaning list (u ∷ []) indexed (ops.0, tt) in
      let (symbols, ok2) =
        contained_constants-IsCache A same same-eq arrange arrange-In cache u ok in
      let (l2, run2, indexed2, holds2) =
        insert_known-Holds known (contained_constants A same arrange cache u).0 l1 given indexed1 in
      let (l', cache', run, indexed', ok', holds) =
        insert_unproven-Holds known (contained_constants A same arrange cache u).1 us l2 given ops.1
          ok2 indexed2 in
      (
        l',
        cache',
        insert_unproven_step known cache cache' u us list l1 l2 l' run1 run2 run,
        indexed',
        ok',
        (
          (λ h.
              let third = holds.0 h in
              let second = holds2.0 third.0 in
              let first = holds1.0 second.0 in
              (
                first.0,
                (
                  (first.1.0, third.1.0),
                  λ x v m o. elim m [
                    | inl e ↦ second.1 x ((symbols x).1 (subst (Occurs x) (sym e) o))
                    | inr n ↦ third.1.1 x v n o
                  ],
                ),
              )),
          (λ h. holds.1 (
            holds2.1 (holds1.1 (h.0, (h.1.0.0, tt)), λ x m. h.1.1 x u (inl refl) ((symbols x).0 m)),
            (h.1.0.1, λ x v n o. h.1.1 x v (inr n) o),
          )),
        ),
      )

  pub insert_each-Holds :
      (us : List Op) (list : AssertionList)
      → IsGiven us
      → IsIndexed list
      → (l' : AssertionList) × (insert_each A same arrange us list ≡ done l')
        × IsIndexed l'
        × (AreHeld (listed l') ↔ (AreHeld (listed list) × AreHeld us))
  unfolding insert_each
  insert_each-Holds [] list ops indexed = (list, refl, indexed, ((λ h. (h, tt)), (λ h. h.0)))
  insert_each-Holds (u ∷ us) list ops indexed =
      let (l1, run1, indexed1, holds1) =
        insert_means A scope same same-eq meaning list (u ∷ []) indexed (ops.0, tt) in
      let (l', run, indexed', holds) = insert_each-Holds us l1 ops.1 indexed1 in
      (
        l',
        rw (run1, ◌>>=◌) run,
        indexed',
        (
          (λ h.
              let rest = holds.0 h in
              let first = holds1.0 rest.0 in (first.0, (first.1.0, rest.1))),
          (λ h. holds.1 (holds1.1 (h.0, (h.1.0, tt)), h.1.1)),
        ),
      )
