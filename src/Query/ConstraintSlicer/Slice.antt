-- ===== src/Query/ConstraintSlicer/Slice.antt =====
-- What a slice of a list of assertions holds.
use caffeine.Prelude.{
  done, ◌>>=◌, ℕ, ◌≤◌, ◌≡◌, refl, sym, subst, ◌↔◌, ◌⊎◌, inl, inr, Bool, true, Option, List, [],
}
use caffeine.Prelude.{In, All, length}
use caffeine.Apint.{ApInt, ApIntLaws}
use caffeine.Ir.Operation.{Op}
use caffeine.Ir.Value.{Value}
use caffeine.Ir.Simplify.Contract.{ModelFits}
use caffeine.Model.AssertionList.{AssertionList, empty, proven, unproven}
use caffeine.Model.AssertionList.Decompose.{IsAssertion, Holds}
use caffeine.Model.AssertionList.Meaning.{IsGoal, Meaning}
use caffeine.Model.AssertionList.Insert.{evaluation, Member, All-Member, IsIndexed, AllHold, listed}
use caffeine.Model.AssertionList.Marked.{proven-unproven}
use caffeine.Query.ConstraintSlicer.{
  Cache, KnownMap, lookup_symbol, index_proven, contained_constants, insert_known, insert_unproven,
  insert_each, slice,
}
use caffeine.Query.ConstraintSlicer.Symbols.{Occurs, IsCache, contained_constants-IsCache}
use caffeine.Query.ConstraintSlicer.Known.{found, Known, index_proven_from_nil}
use caffeine.Query.ConstraintSlicer.Loops.{
  All-split, All-of, KnownHold, SharedHold, insert_known-Holds, insert_unproven-Holds,
  insert_each-Holds,
}

-- The assertion shares a symbol with the one that is asked or with one of the list.
abbrev pub Shares : Op → List Op → Op → Type 0
Shares extra us p = (x : ℕ) × Occurs x p × (Occurs x extra ⊎ ((u : Op) × Member u us × Occurs x u))

module _ (A : ApInt) (scope : ℕ → ℕ) (same : Op → Op → Bool)
    (same-eq : (a b : Op) → same a b ≡ true → a ≡ b) (meaning : Meaning A scope)
    (arrange : List ℕ → List ℕ)
    (arrange-In : (x : ℕ) (xs : List ℕ) → In x (arrange xs) ↔ In x xs) where
  slice_steps :
      (cache cache2 : Cache) (l l1 l2 l' : AssertionList) (extra : Op) (ps us : List Op)
      → proven A same l ≡ done ps
      → unproven A same l ≡ done us
      → insert_unproven A same arrange
          (index_proven A same arrange cache ps []).0
          (index_proven A same arrange cache ps []).1
          us
          empty
        ≡ done (l1, cache2)
      → insert_known A same arrange
          (index_proven A same arrange cache ps []).0
          (contained_constants A same arrange cache2 extra).0
          l1
        ≡ done l2
      → insert_each A same arrange us l2 ≡ done l'
      → slice A same arrange cache l extra
        ≡ done (l', (contained_constants A same arrange cache2 extra).1)
  unfolding slice
  slice_steps cache cache2 l l1 l2 l' extra ps us p u run1 run2 run3 =
      rw (p, ◌>>=◌, u, run1, run2, run3) refl

  pub Known-given :
      (known : KnownMap) (ps : List Op)
      → ((y : ℕ) (p : Op) → Known known y p ↔ (Member p ps × Occurs y p))
      → All (IsGoal scope) ps
      → (x : ℕ) → All (IsGoal scope) (found (lookup_symbol known x))
  Known-given known ps same_as given x =
      All-of (IsGoal scope) (found (lookup_symbol known x))
        (λ p m. All-Member (IsGoal scope) ps p given ((same_as x p).0 m).0)

  -- What the two uses of the map bring in.
  Shares-iff :
      (known : KnownMap) (ps us : List Op) (xs : List ℕ) (extra : Op)
      → ((y : ℕ) (p : Op) → Known known y p ↔ (Member p ps × Occurs y p))
      → ((x : ℕ) → In x xs ↔ Occurs x extra)
      → (SharedHold A scope same same-eq meaning arrange arrange-In known us
          × KnownHold A scope same same-eq meaning arrange arrange-In known xs)
        ↔ ((p : Op) → Member p ps → Shares extra us p → meaning.Holds p)
  Shares-iff known ps us xs extra same_as symbols = (each, both)
    where
      each :
          SharedHold A scope same same-eq meaning arrange arrange-In known us
            × KnownHold A scope same same-eq meaning arrange arrange-In known xs
          → (p : Op) → Member p ps
          → Shares extra us p
          → meaning.Holds p
      each (shared, asked) p m (x, o, inl e) =
          All-Member meaning.Holds (found (lookup_symbol known x)) p (asked x ((symbols x).1 e))
            ((same_as x p).1 (m, o))
      each (shared, asked) p m (x, o, inr (u, mu, ou)) =
          All-Member meaning.Holds (found (lookup_symbol known x)) p (shared x u mu ou)
            ((same_as x p).1 (m, o))

      both :
          ((p : Op) → Member p ps → Shares extra us p → meaning.Holds p)
          → SharedHold A scope same same-eq meaning arrange arrange-In known us
            × KnownHold A scope same same-eq meaning arrange arrange-In known xs
      both h = (
        (λ x u mu ou.
            All-of meaning.Holds (found (lookup_symbol known x))
              (λ p m. let (mp, o) = (same_as x p).0 m in h p mp (x, o, inr (u, mu, ou)))),
        (λ x m.
            All-of meaning.Holds (found (lookup_symbol known x))
              (λ p n. let (mp, o) = (same_as x p).0 n in h p mp (x, o, inl ((symbols x).0 m)))),
      )

  chained :
      {Start First Second Third Us Shared Asked Needed : Type 0}
      → Start
      → (First ↔ (Start × (Us × Shared)))
      → (Second ↔ (First × Asked))
      → (Third ↔ (Second × Us))
      → ((Shared × Asked) ↔ Needed)
      → Third ↔ (Us × Needed)
  chained start f g h n = (
    (λ t.
        let third = h.0 t in
        let second = g.0 third.0 in
        let first = f.0 second.0 in (third.1, n.0 (first.1.1, second.1))),
    (λ u. let both = n.1 u.1 in h.1 (g.1 (f.1 (start, (u.0, both.0)), both.1), u.0)),
  )

  -- A slice holds where the unproven assertions hold and the proven ones that share a symbol.
  pub slice_means :
      (cache : Cache) (l : AssertionList) (extra : Op)
      → IsCache A same same-eq arrange arrange-In cache
      → All (IsGoal scope) (listed l)
      → l.mark ≤ length l.list.elements
      → (ps : List Op) × (us : List Op) × (l' : AssertionList) × (cache' : Cache) × (proven A same l
          ≡ done ps)
        × (unproven A same l ≡ done us)
        × (slice A same arrange cache l extra ≡ done (l', cache'))
        × IsIndexed l'
        × IsCache A same same-eq arrange arrange-In cache'
        × (All meaning.Holds (listed l') ↔ (
            All meaning.Holds us × ((p : Op) → Member p ps → Shares extra us p → meaning.Holds p)))
        × (All meaning.Holds (listed l) → All meaning.Holds (listed l'))
  slice_means cache l extra ok typed le =
      let (ps, us, hp, hu, after, parts) = proven-unproven A same l le in
      let (gp, gu) =
        (All-split (IsGoal scope) ps us).0 (subst (All (IsGoal scope)) (sym parts) typed) in
      let (ok1, known) = index_proven_from_nil A same same-eq arrange arrange-In cache ps ok in
      let given = Known-given (index_proven A same arrange cache ps []).0 ps known gp in
      let (l1, cache2, run1, indexed1, ok2, holds1) =
        insert_unproven-Holds A scope same same-eq meaning arrange arrange-In
          (index_proven A same arrange cache ps []).0 (index_proven A same arrange cache ps []).1 us
          empty given gu ok1 tt in
      let (symbols, ok3) =
        contained_constants-IsCache A same same-eq arrange arrange-In cache2 extra ok2 in
      let (l2, run2, indexed2, holds2) =
        insert_known-Holds A scope same same-eq meaning arrange arrange-In
          (index_proven A same arrange cache ps []).0
          (contained_constants A same arrange cache2 extra).0 l1 given indexed1 in
      let (l', run3, indexed', holds3) =
        insert_each-Holds A scope same same-eq meaning arrange arrange-In us l2 gu indexed2 in
      let shares =
        Shares-iff (index_proven A same arrange cache ps []).0 ps us
          (contained_constants A same arrange cache2 extra).0 extra known symbols in
      (
        ps,
        us,
        l',
        (contained_constants A same arrange cache2 extra).1,
        hp,
        hu,
        slice_steps cache cache2 l l1 l2 l' extra ps us hp hu run1 run2 run3,
        indexed',
        ok3,
        chained tt holds1 holds2 holds3 shares,
        λ h.
            let both =
              (All-split meaning.Holds ps us).0 (subst (All meaning.Holds) (sym parts) h) in
            (chained tt holds1 holds2 holds3 shares).1
              (both.1, λ p m share. All-Member meaning.Holds ps p both.0 m),
      )

module _ (A : ApInt) (laws : ApIntLaws A) (same : Op → Op → Bool)
    (same-eq : (a b : Op) → same a b ≡ true → a ≡ b) (scope : ℕ → ℕ) (model : ℕ → Option Value)
    (fits : ModelFits scope model) (arrange : List ℕ → List ℕ)
    (arrange-In : (x : ℕ) (xs : List ℕ) → In x (arrange xs) ↔ In x xs) where
  -- With APInt as documented, `same` true of equal operations only, a model whose symbols have
  -- values of their widths, typed assertions of one bit, the mark within the list and a cache whose
  -- entries are right: slicing fails no assertion and leaves such a cache; the slice holds exactly
  -- where the unproven assertions hold, and those proven ones that share a symbol with an unproven
  -- one or with the extra assertion; so it holds wherever the list does.
  pub slice-Holds :
      (cache : Cache) (l : AssertionList) (extra : Op)
      → IsCache A same same-eq arrange arrange-In cache
      → All (IsAssertion A laws same same-eq scope model fits) (listed l)
      → l.mark ≤ length l.list.elements
      → (ps : List Op) × (us : List Op) × (l' : AssertionList) × (cache' : Cache) × (proven A same l
          ≡ done ps)
        × (unproven A same l ≡ done us)
        × (slice A same arrange cache l extra ≡ done (l', cache'))
        × IsIndexed l'
        × IsCache A same same-eq arrange arrange-In cache'
        × (AllHold A laws same same-eq scope model fits (listed l') ↔ (
            AllHold A laws same same-eq scope model fits us
            × ((p : Op)
                → Member p ps
                → Shares extra us p
                → Holds A laws same same-eq scope model fits p)))
        × (AllHold A laws same same-eq scope model fits (listed l)
            → AllHold A laws same same-eq scope model fits (listed l'))
  slice-Holds cache l extra ok typed le =
      slice_means A scope same same-eq (evaluation A laws same same-eq scope model fits) arrange
        arrange-In cache l extra ok typed le
