-- ===== src/Model/AssertionList/Restore.antt =====
-- Restoring an AssertionList to a checkpoint takes back what was inserted after it.
use caffeine.Prelude.{
  ltb, ◌==◌, ==_iff, Bool-cases, Option-cases, done, ◌>>=◌, done-injective, >>=-eq-done, ℕ, zero,
  suc, ◌+◌, ◌<◌, ◌≡◌, refl, sym, ap, ◌∙◌, subst, inl, inr, Bool, true, false, some, arith, List, [],
  ◌∷◌,
}
use caffeine.Prelude.{length, ◌++◌, map, length-append, get_elem?}
use caffeine.Apint.{ApInt}
use caffeine.Adt.SparseVector.{
  Elem, hole, value, SparseVector, one_less, values, increment, emplace_back, end, iterator_at,
  valid,
}
use caffeine.Adt.SparseVector.Holes.{values-append}
use caffeine.Adt.SparseVector.Tail.{index_middle, erase_middle, increment_tail, get_elem?_middle}
use caffeine.Ir.Operation.{Op}
use caffeine.Ir.Simplify.{is_constant_int}
use caffeine.Model.AssertionList.{
  AssertionList, decompose, count, insert_one, insert_parts, insert, erase_lookup, erase_at,
  checkpoint, restore_from, first_from, restore, weight,
}
use caffeine.Model.AssertionList.Insert.{listed}

-- The elements after `l` are those of `l` and some values, and the mark is that of `l`.
abbrev pub Extends : AssertionList → AssertionList → Type 0
Extends l l' =
    (vs : List Op) × (l'.list.elements ≡ l.list.elements ++ map value vs) × (l'.mark ≡ l.mark)

pub append_nil {ℓ} : {A : Type ℓ} (xs : List A) → xs ++ [] ≡ xs
append_nil [] = refl
append_nil (x ∷ xs) = ap (◌∷◌ x) (append_nil xs)

append_assoc {ℓ} : {A : Type ℓ} (xs ys zs : List A) → (xs ++ ys) ++ zs ≡ xs ++ (ys ++ zs)
append_assoc [] ys zs = refl
append_assoc (x ∷ xs) ys zs = ap (◌∷◌ x) (append_assoc xs ys zs)

map-append {ℓ κ} :
    {A : Type ℓ} {B : Type κ} (f : A → B) (xs ys : List A) → map f (xs ++ ys) ≡ map f xs ++ map f ys
map-append f [] ys = refl
map-append f (x ∷ xs) ys = ap (◌∷◌ (f x)) (map-append f xs ys)

length-values : (vs : List Op) → length (map value vs) ≡ length vs
length-values [] = refl
length-values (v ∷ vs) = ap suc (length-values vs)

Extends-refl : (l : AssertionList) → Extends l l
Extends-refl l = ([], sym (append_nil l.list.elements), refl)

Extends-trans : (a b c : AssertionList) → Extends a b → Extends b c → Extends a c
Extends-trans a b c (us, eu, mu) (vs, ev, mv) = (
  us ++ vs,
  ev
      ∙ ap (λ es. es ++ map value vs) eu
      ∙ append_assoc a.list.elements (map value us) (map value vs)
      ∙ ap (◌++◌ a.list.elements) (sym (map-append value us vs)),
  mv ∙ mu,
)

module _ (A : ApInt) (same : Op → Op → Bool) where
  insert_one-Extends : (a op : Op) (l : AssertionList) → Extends l (insert_one A same a op l)
  unfolding emplace_back
  insert_one-Extends a op l = elim (Bool-cases (is_constant_int a 1)) [
    | inl p ↦ rw p (Extends-refl l)
    | inr p ↦ elim (Bool-cases (count A same l.lookup op)) [
      | inl q ↦ rw (p, q) (Extends-refl l)
      | inr q ↦ rw (p, q) (op ∷ [], refl, refl)
    ]
  ]

  insert_parts-Extends :
      (fuel : ℕ) (a : Op) (stack : List Op) (l l' : AssertionList)
      → insert_parts A same fuel a stack l ≡ done l'
      → Extends l l'
  insert_parts-Extends zero a stack l l' h = absurd cc
  insert_parts-Extends (suc fuel) a [] l l' h =
      subst (Extends l) (done-injective h) (Extends-refl l)
  insert_parts-Extends (suc fuel) a (op ∷ stack) l l' h = elim (Option-cases (decompose A op)) [
    | inl p ↦
        (let run : insert_parts A same fuel a stack (insert_one A same a op l) ≡ done l' =
            sym (rw (insert_parts, p) refl) ∙ h in
          Extends-trans l (insert_one A same a op l) l' (insert_one-Extends a op l)
            (insert_parts-Extends fuel a stack (insert_one A same a op l) l' run))
    | inr ((lhs, rhs), p) ↦
        (let run : insert_parts A same fuel a (rhs ∷ lhs ∷ stack) l ≡ done l' =
            sym (rw (insert_parts, p) refl) ∙ h in
          insert_parts-Extends fuel a (rhs ∷ lhs ∷ stack) l l' run)
  ]

  insert-Extends :
      (l : AssertionList) (assertions : List Op) (l' : AssertionList)
      → insert A same l assertions ≡ done l'
      → Extends l l'
  unfolding insert
  insert-Extends l [] l' h = subst (Extends l) (done-injective h) (Extends-refl l)
  insert-Extends l (a ∷ assertions) l' h =
      let (l1, run, rest) =
        >>=-eq-done (insert_parts A same (suc (weight a + 0)) a (a ∷ []) l) _ h in
      Extends-trans l l1 l' (insert_parts-Extends (suc (weight a + 0)) a (a ∷ []) l l1 run)
        (insert-Extends l1 assertions l' rest)

  restore_from-more :
      (fuel : ℕ) (l : AssertionList) (i : ℕ)
      → (i == length l.list.elements) ≡ false
      → restore_from A same (suc fuel) l i
        ≡ (erase_at A same l i >>= λ l'. increment l'.list i >>= restore_from A same fuel l')
  unfolding restore_from end
  restore_from-more fuel l i p = rw (restore_from, p) refl

  restore_from-last :
      (fuel : ℕ) (l : AssertionList) (i : ℕ)
      → (i == length l.list.elements) ≡ true
      → restore_from A same (suc fuel) l i ≡ done l
  unfolding restore_from end
  restore_from-last fuel l i p = rw (restore_from, p) refl

  first_from-last :
      (l : AssertionList) (i : ℕ)
      → (i == length l.list.elements) ≡ true
      → first_from A same l i ≡ done i
  unfolding first_from end
  first_from-last l i p = rw (first_from, p) refl

  first_from-value :
      (l : AssertionList) (i : ℕ) (v : Op)
      → (i == length l.list.elements) ≡ false
      → get_elem? l.list.elements i ≡ some (value v)
      → first_from A same l i ≡ done i
  unfolding first_from end valid
  first_from-value l i v p here = rw (first_from, p, here) refl

  restore-from :
      (l : AssertionList) (i : ℕ)
      → ltb (length l.list.elements) i ≡ false
      → first_from A same l i ≡ done i
      → restore A same l i ≡ restore_from A same (length l.list.elements + 1) l i
  unfolding restore iterator_at end
  restore-from l i inside first = rw (inside, first) refl

  erase_at_middle :
      (l : AssertionList) (pre : List (Elem Op)) (vs : List Op) (v : Op)
      → l.list.elements ≡ pre ++ map value (v ∷ vs)
      → erase_at A same l (length pre)
        ≡ done (record {
          list = record {
            elements = pre ++ hole l.list.head ∷ map value vs;
            size = one_less l.list.size;
            head = length pre;
          };
          lookup = erase_lookup A same v l.lookup;
          mark = l.mark;
        })
  unfolding erase_at
  erase_at_middle l pre vs v e =
      rw (index_middle l.list pre (map value vs) v e, erase_middle l.list pre (map value vs) v e)
        refl

  -- The loop erases the values after `pre`.
  restore_from-listed :
      (fuel : ℕ) (l : AssertionList) (pre : List (Elem Op)) (vs : List Op)
      → length vs < fuel
      → l.list.elements ≡ pre ++ map value vs
      → (l' : AssertionList) × (restore_from A same fuel l (length pre) ≡ done l')
        × (listed l' ≡ values pre)
        × (l'.mark ≡ l.mark)
  unfolding restore_from end
  restore_from-listed zero l pre vs small e = absurd (omega arith)
  restore_from-listed (suc fuel) l pre [] small e =
      let last : (length pre == length l.list.elements) ≡ true =
        (==_iff _ _).1 (omega (arith, ap length e, length-append pre [])) in
      (l, restore_from-last fuel l (length pre) last, ap values (e ∙ append_nil pre), refl)
  restore_from-listed (suc fuel) l pre (v ∷ vs) small e =
      let more : (length pre == length l.list.elements) ≡ false =
        ground (arith, ap length e, length-append pre (value v ∷ map value vs)) in
      let pre' = pre ++ hole l.list.head ∷ [] in
      let list' : SparseVector Op = record {
        elements = pre ++ hole l.list.head ∷ map value vs;
        size = one_less l.list.size;
        head = length pre;
      } in
      let l1 : AssertionList = record {
        list = list';
        lookup = erase_lookup A same v l.lookup;
        mark = l.mark;
      } in
      let at : length pre' ≡ length pre + 1 = length-append pre (hole l.list.head ∷ []) in
      let split : list'.elements ≡ pre' ++ map value vs =
        sym (append_assoc pre (hole l.list.head ∷ []) (map value vs)) in
      let (l', run, same_values, mark) = restore_from-listed fuel l1 pre' vs (omega arith) split in
      let shorter : values pre' ≡ values pre =
        values-append pre (hole l.list.head ∷ []) ∙ append_nil (values pre) in
      (
        l',
        restore_from-more fuel l (length pre) more
            ∙ rw (erase_at_middle l pre vs v e, increment_tail list' pre' vs (length pre) split at)
                (ap (restore_from A same fuel l1) (sym at) ∙ run),
        same_values ∙ shorter,
        mark,
      )

  -- Restoring a list to a checkpoint, after any insertion that ended, ends without a failed
  -- assertion, and leaves the assertions and the mark that the list had at the checkpoint.
  pub restore-insert :
      (l : AssertionList) (assertions : List Op) (l' : AssertionList)
      → insert A same l assertions ≡ done l'
      → (l'' : AssertionList) × (restore A same l' (checkpoint A same l) ≡ done l'')
        × (listed l'' ≡ listed l)
        × (l''.mark ≡ l.mark)
  unfolding checkpoint end
  restore-insert l assertions l' h =
      let (vs, e, mark) = insert-Extends l assertions l' h in from vs e mark
    where
      base : List (Elem Op)
      base = l.list.elements

      from :
          (vs : List Op)
          → l'.list.elements ≡ base ++ map value vs
          → l'.mark ≡ l.mark
          → (l'' : AssertionList) × (restore A same l' (checkpoint A same l) ≡ done l'')
            × (listed l'' ≡ listed l)
            × (l''.mark ≡ l.mark)
      from [] e mark =
          let width : length l'.list.elements ≡ length base =
            omega (arith, ap length e, length-append base []) in
          let (l'', run, same_values, mark') =
            restore_from-listed (length l'.list.elements + 1) l' base [] (omega arith) e in
          let inside : ltb (length l'.list.elements) (length base) ≡ false =
            ground (arith, width) in
          let last : (length base == length l'.list.elements) ≡ true = (==_iff _ _).1 (sym width) in
          (
            l'',
            restore-from l' (length base) inside (first_from-last l' (length base) last) ∙ run,
            same_values,
            mark' ∙ mark,
          )
      from (v ∷ vs) e mark =
          let width : length l'.list.elements ≡ length base + suc (length vs) =
            omega (arith, ap length e, length-append base (map value (v ∷ vs)), length-values vs) in
          let (l'', run, same_values, mark') =
            restore_from-listed (length l'.list.elements + 1) l' base (v ∷ vs) (omega arith) e in
          let inside : ltb (length l'.list.elements) (length base) ≡ false =
            ground (arith, width) in
          let more : (length base == length l'.list.elements) ≡ false = ground (arith, width) in
          let here : get_elem? l'.list.elements (length base) ≡ some (value v) =
            ap (λ es. get_elem? es (length base)) e
            ∙ get_elem?_middle base (map value vs) (value v) in
          (
            l'',
            restore-from l' (length base) inside (first_from-value l' (length base) v more here)
                ∙ run,
            same_values,
            mark' ∙ mark,
          )
