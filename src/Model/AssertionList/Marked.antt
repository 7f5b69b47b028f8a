-- ===== src/Model/AssertionList/Marked.antt =====
-- The proven and the unproven part of an AssertionList.
use caffeine.Prelude.{
  ltb, done, ◌>>=◌, ℕ, ◌+◌, ◌≤◌, ◌≡◌, ap, ◌∙◌, inl, inr, Bool, false, some, arith, List,
}
use caffeine.Prelude.{length, get_elem?, get_elem?-some, get_elem?-lt, ℕ_discrete, drop, ◌++◌}
use caffeine.Apint.{ApInt}
use caffeine.Adt.SparseVector.{hole, value, end, increment, values, iterator_at, valid}
use caffeine.Adt.SparseVector.Holes.{Elem-cases}
use caffeine.Adt.SparseVector.Content.{remaining}
use caffeine.Adt.SparseVector.Ranges.{
  FirstStop, FirstStop-refl, FirstStop-hole, increment-FirstStop, begin-FirstStop,
  collect_until-remaining, collect-Stop,
}
use caffeine.Ir.Operation.{Op}
use caffeine.Model.AssertionList.{AssertionList, first_from, mark_at, unproven, proven}
use caffeine.Model.AssertionList.Insert.{listed}

module _ (A : ApInt) (same : Op → Op → Bool) where
  first_from_end :
      (l : AssertionList) (i : ℕ) → i ≡ length l.list.elements → first_from A same l i ≡ done i
  unfolding first_from end
  first_from_end l i e = ground (arith, e)

  first_from_value :
      (l : AssertionList) (i : ℕ) (v : Op)
      → get_elem? l.list.elements i ≡ some (value v)
      → first_from A same l i ≡ done i
  unfolding first_from end valid
  first_from_value l i v p = ground (arith, p, get_elem?-lt l.list.elements i p)

  first_from_hole :
      (l : AssertionList) (i n k : ℕ)
      → get_elem? l.list.elements i ≡ some (hole n)
      → increment l.list i ≡ done k
      → first_from A same l i ≡ done k
  unfolding first_from end valid
  first_from_hole l i n k p step = ground (arith, p, step, get_elem?-lt l.list.elements i p)

  first_from-FirstStop :
      (l : AssertionList) (i : ℕ)
      → i ≤ length l.list.elements
      → (k : ℕ) × (first_from A same l i ≡ done k) × FirstStop l.list i k
  first_from-FirstStop l i le = elim (ℕ_discrete i (length l.list.elements)) [
    | yes e ↦ (i, first_from_end l i e, FirstStop-refl l.list i (inr e))
    | no ne ↦
        (let (x, p) = get_elem?-some l.list.elements i (omega (arith, ne)) in
          elim (Elem-cases x) [
            | inl (n, q) ↦
                (let here : get_elem? l.list.elements i ≡ some (hole n) = p ∙ ap some q in
                  let (k, run, first) =
                    increment-FirstStop l.list i (get_elem?-lt l.list.elements i here) in
                  (k, first_from_hole l i n k here run, FirstStop-hole l.list i k n here first))
            | inr (v, q) ↦
                (let here : get_elem? l.list.elements i ≡ some (value v) = p ∙ ap some q in
                  (i, first_from_value l i v here, FirstStop-refl l.list i (inl (v, here))))
          ])
  ]

  mark_at-FirstStop :
      (l : AssertionList)
      → l.mark ≤ length l.list.elements
      → (k : ℕ) × (mark_at A same l ≡ done k) × FirstStop l.list l.mark k
  unfolding mark_at iterator_at
  mark_at-FirstStop l le =
      let (k, run, first) = first_from-FirstStop l l.mark le in
      let inside : ltb (length l.list.elements) l.mark ≡ false = ground arith in
      (k, rw inside run, first)

  -- With the mark within the list, holes or not: loops over the two parts end without a fault; the
  -- unproven part is what stands from the mark on, and the parts one after the other are the list.
  pub proven-unproven :
      (l : AssertionList)
      → l.mark ≤ length l.list.elements
      → (ps : List Op) × (us : List Op) × (proven A same l ≡ done ps)
        × (unproven A same l ≡ done us)
        × (us ≡ values (drop l.mark l.list.elements))
        × (ps ++ us ≡ listed l)
  unfolding proven unproven
  proven-unproven l le =
      let (j, at, (stop, up, rest, least)) = mark_at-FirstStop l le in
      let (b, begins, (stop_b, up_b, rest_b, least_b)) = begin-FirstStop l.list in
      let (ps, run, parts) =
        collect_until-remaining l.list (length l.list.elements + 1) j b stop stop_b
          (least_b j stop (omega arith)) (omega arith) in
      (
        ps,
        remaining l.list j,
        rw (at, ◌>>=◌, begins) run,
        rw at (collect-Stop l.list j stop),
        rest,
        parts ∙ rest_b,
      )
