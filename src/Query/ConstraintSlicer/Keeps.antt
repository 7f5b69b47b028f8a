-- ===== src/Query/ConstraintSlicer/Keeps.antt =====
-- What slicing keeps: a property of the operations, and the mark.
use caffeine.Prelude.{
  Option-cases, done, ◌>>=◌, done-injective, >>=-eq-done, ℕ, ◌≡◌, refl, sym, ap, ◌∙◌, subst, inl,
  inr, Bool, some, List, [], ◌∷◌,
}
use caffeine.Prelude.{All}
use caffeine.Apint.{ApInt}
use caffeine.Ir.Operation.{Op}
use caffeine.Model.AssertionList.{AssertionList, empty, decompose, insert, proven, unproven}
use caffeine.Query.ConstraintSlicer.{
  Cache, KnownMap, lookup_symbol, index_proven, contained_constants, insert_known, insert_unproven,
  insert_each, slice,
}
use caffeine.Query.ConstraintSlicer.Known.{found}
use caffeine.Model.AssertionList.Keeps.{Keeps, Keeps-refl, Keeps-trans, insert-Keeps}

module _ (A : ApInt) (same : Op → Op → Bool) (P : Op → Type 0)
    (closed : (op lhs rhs : Op) → P op → decompose A op ≡ some (lhs, rhs) → P lhs × P rhs) where
  module _ (arrange : List ℕ → List ℕ) (known : KnownMap)
      (given : (x : ℕ) → All P (found (lookup_symbol known x))) where
    insert_known-Keeps :
        (xs : List ℕ) (l l' : AssertionList)
        → insert_known A same arrange known xs l ≡ done l'
        → Keeps A same P closed l l'
    unfolding insert_known
    insert_known-Keeps [] l l' h =
        subst (Keeps A same P closed l) (done-injective h) (Keeps-refl A same P closed l)
    insert_known-Keeps (x ∷ xs) l l' h = elim (Option-cases (lookup_symbol known x)) [
      | inl p ↦ insert_known-Keeps xs l l' (sym (rw (insert_known, p) refl) ∙ h)
      | inr (ops, p) ↦
          (let run : (insert A same l ops >>= insert_known A same arrange known xs) ≡ done l' =
              sym (rw (insert_known, p) refl) ∙ h in
            let (l1, first, rest) = >>=-eq-done (insert A same l ops) _ run in
            Keeps-trans A same P closed l l1 l'
              (insert-Keeps A same P closed l ops l1 (subst (All P) (ap found p) (given x)) first)
              (insert_known-Keeps xs l1 l' rest))
    ]

    insert_unproven-Keeps :
        (cache : Cache) (us : List Op) (l : AssertionList) (out : AssertionList × Cache)
        → All P us
        → insert_unproven A same arrange known cache us l ≡ done out
        → Keeps A same P closed l out.0
    unfolding insert_unproven
    insert_unproven-Keeps cache [] l out all h =
        subst (λ (o : AssertionList × Cache). Keeps A same P closed l o.0) (done-injective h)
          (Keeps-refl A same P closed l)
    insert_unproven-Keeps cache (u ∷ us) l out all h =
        let (l1, run1, rest1) = >>=-eq-done (insert A same l (u ∷ [])) _ h in
        let (l2, run2, rest2) =
          >>=-eq-done
            (insert_known A same arrange known (contained_constants A same arrange cache u).0 l1) _
            rest1 in
        Keeps-trans A same P closed l l1 out.0
          (insert-Keeps A same P closed l (u ∷ []) l1 (all.0, tt) run1)
          (Keeps-trans A same P closed l1 l2 out.0
            (insert_known-Keeps (contained_constants A same arrange cache u).0 l1 l2 run2)
            (insert_unproven-Keeps (contained_constants A same arrange cache u).1 us l2 out all.1
              rest2))

    insert_each-Keeps :
        (us : List Op) (l l' : AssertionList)
        → All P us
        → insert_each A same arrange us l ≡ done l'
        → Keeps A same P closed l l'
    unfolding insert_each
    insert_each-Keeps [] l l' all h =
        subst (Keeps A same P closed l) (done-injective h) (Keeps-refl A same P closed l)
    insert_each-Keeps (u ∷ us) l l' all h =
        let (l1, run, rest) = >>=-eq-done (insert A same l (u ∷ [])) _ h in
        Keeps-trans A same P closed l l1 l'
          (insert-Keeps A same P closed l (u ∷ []) l1 (all.0, tt) run)
          (insert_each-Keeps us l1 l' all.1 rest)

  pub slice-Keeps :
      (arrange : List ℕ → List ℕ) (cache : Cache) (l : AssertionList) (extra : Op) (ps us : List Op)
      (out : AssertionList × Cache)
      → proven A same l ≡ done ps
      → unproven A same l ≡ done us
      → ((x : ℕ) → All P (found (lookup_symbol (index_proven A same arrange cache ps []).0 x)))
      → All P us
      → slice A same arrange cache l extra ≡ done out
      → Keeps A same P closed empty out.0
  unfolding slice
  slice-Keeps arrange cache l extra ps us out p u given all h =
      let (ps', p', rest1) = >>=-eq-done (proven A same l) _ h in
      let e : ps' ≡ ps = done-injective (sym p' ∙ p) in
      let (us', u', rest2) = >>=-eq-done (unproven A same l) _ rest1 in
      let e' : us' ≡ us = done-injective (sym u' ∙ u) in
      let (out1, run1, rest3) =
        >>=-eq-done
          (insert_unproven A same arrange (index_proven A same arrange cache ps' []).0
            (index_proven A same arrange cache ps' []).1 us' empty)
          _ rest2 in
      let (l2, run2, rest4) =
        >>=-eq-done
          (insert_known A same arrange (index_proven A same arrange cache ps' []).0
            (contained_constants A same arrange out1.1 extra).0 out1.0)
          _ rest3 in
      let (l3, run3, rest5) = >>=-eq-done (insert_each A same arrange us' l2) _ rest4 in
      let given' =
        subst
          (λ qs.
            (x : ℕ) → All P (found (lookup_symbol (index_proven A same arrange cache qs []).0 x)))
          (sym e) given in
      let all' = subst (All P) (sym e') all in
      subst (λ (o : AssertionList × Cache). Keeps A same P closed empty o.0) (done-injective rest5)
        (Keeps-trans A same P closed empty out1.0 l3
          (insert_unproven-Keeps arrange (index_proven A same arrange cache ps' []).0 given'
            (index_proven A same arrange cache ps' []).1 us' empty out1 all' run1)
          (Keeps-trans A same P closed out1.0 l2 l3
            (insert_known-Keeps arrange (index_proven A same arrange cache ps' []).0 given'
              (contained_constants A same arrange out1.1 extra).0 out1.0 l2 run2)
            (insert_each-Keeps arrange (index_proven A same arrange cache ps' []).0 given' us' l2 l3
              all' run3)))
