-- ===== src/Model/AssertionList/Insert.antt =====
-- Insertion into an AssertionList adds what it is given, and nothing else.
use caffeine.Prelude.{
  Bool-cases, done, ℕ, zero, suc, ◌+◌, ◌<◌, ◌≡◌, refl, sym, ap, ◌∙◌, subst, ◌↔◌, ◌⊎◌, inl, inr,
  Bool, true, Option, none, some, arith, List, [], ◌∷◌,
}
use caffeine.Apint.{ApInt, ApIntLaws}
use caffeine.Ir.Operation.{Op, constant_int, constant, undef, binary, unary, icmp, select, type_of}
use caffeine.Ir.Value.{Value, int}
use caffeine.Ir.Eval.{eval}
use caffeine.Ir.Simplify.{is_constant_int}
use caffeine.Ir.Simplify.Contract.{ModelFits, is_constant_int-eq}
use caffeine.Ir.Simplify.Values.{||-true}
use caffeine.Prelude.{◌++◌, All, length}
use caffeine.Adt.SparseVector.{values, emplace_back, clear}
use caffeine.Adt.SparseVector.Content.{emplace_back_appends, compress-values}
use caffeine.Adt.SparseVector.Holes.{IsWf}
use caffeine.Model.AssertionList.{
  AssertionList, decompose, weight, weights, count, insert_one, insert_parts, insert, mark_sat,
  cleared, empty,
}
use caffeine.Model.AssertionList.Meaning.{IsGoal, Meaning}
use caffeine.Model.AssertionList.Decompose.{IsAssertion, Holds, parts_view}

weight_pos : (op : Op) → 0 < weight op
weight_pos (constant_int w v) = omega arith
weight_pos (constant w n) = omega arith
weight_pos (undef w) = omega arith
weight_pos (binary o l r) = omega arith
weight_pos (unary o w x) = weight_pos x
weight_pos (icmp c l r) = omega arith
weight_pos (select c t f) = omega arith

-- Membership.
abbrev pub Member : Op → List Op → Type 0
Member op [] = ⊥
Member op (o ∷ ops) = (o ≡ op) ⊎ Member op ops

pub Member-append : (op o : Op) (ops : List Op) → Member op ops → Member op (ops ++ o ∷ [])
Member-append op o [] m = elim m [ ]
Member-append op o (p ∷ ops) (inl e) = inl e
Member-append op o (p ∷ ops) (inr m) = inr (Member-append op o ops m)

pub Member-append_last : (op : Op) (ops : List Op) → Member op (ops ++ op ∷ [])
Member-append_last op [] = inl refl
Member-append_last op (o ∷ ops) = inr (Member-append_last op ops)

pub All-append :
    (P : Op → Type 0) (ops : List Op) (o : Op) → All P (ops ++ o ∷ []) ↔ (All P ops × P o)
All-append P [] o = ((λ h. (tt, h.0)), (λ h. (h.1, tt)))
All-append P (p ∷ ops) o =
    let rest = All-append P ops o in
    (
      (λ h. let parts = rest.0 h.1 in ((h.0, parts.0), parts.1)),
      (λ h. (h.0.0, rest.1 (h.0.1, h.1))),
    )

pub All-Member : (P : Op → Type 0) (ops : List Op) (op : Op) → All P ops → Member op ops → P op
All-Member P [] op h m = elim m [ ]
All-Member P (o ∷ ops) op h (inl e) = subst P e h.0
All-Member P (o ∷ ops) op h (inr m) = All-Member P ops op h.1 m

-- What an iteration over the list yields.
abbrev pub listed : AssertionList → List Op
listed l = values l.list.elements

-- Every operation of the set stands in the list.
abbrev pub IsIndexed : AssertionList → Type 0
IsIndexed l = All (λ op. Member op (listed l)) l.lookup

pub All-map :
    (P Q : Op → Type 0) (ops : List Op) → ((op : Op) → P op → Q op) → All P ops → All Q ops
All-map P Q [] f h = tt
All-map P Q (o ∷ ops) f h = (f o h.0, All-map P Q ops f h.1)

module _ (A : ApInt) (scope : ℕ → ℕ) (same : Op → Op → Bool)
    (same-eq : (a b : Op) → same a b ≡ true → a ≡ b) (m : Meaning A scope) where
  count-Member :
      (ops : List Op) (op : Op) (P : Op → Type 0) → count A same ops op ≡ true → All P ops → P op
  count-Member [] op P h all = absurd cc
  count-Member (o ∷ ops) op P h all = elim (||-true (same o op) (count A same ops op) h) [
    | inl p ↦ subst P (same-eq o op p) all.0
    | inr p ↦ count-Member ops op P p all.1
  ]

  appended :
      (a op : Op) (l : AssertionList)
      → IsIndexed l
      → All (λ o. Member o (values (emplace_back l.list op).1.elements)) (op ∷ l.lookup)
        × (All m.Holds (values (emplace_back l.list op).1.elements)
            ↔ (All m.Holds (listed l) × m.Holds op))
  appended a op l indexed =
      subst
        (λ vs.
          All (λ o. Member o vs) (op ∷ l.lookup)
          × (All m.Holds vs ↔ (All m.Holds (listed l) × m.Holds op)))
        (sym (emplace_back_appends l.list op))
        (
          (
            Member-append_last op (listed l),
            All-map (λ o. Member o (listed l)) (λ o. Member o (listed l ++ op ∷ [])) l.lookup
                (λ o n. Member-append o op (listed l) n) indexed,
          ),
          All-append m.Holds (listed l) op,
        )

  -- One part, and the assertion that it was a part of.
  insert_one-Holds :
      (a op : Op) (l : AssertionList)
      → IsIndexed l
      → (is_constant_int a 1 ≡ true → m.Holds op)
      → IsIndexed (insert_one A same a op l)
        × (All m.Holds (listed (insert_one A same a op l)) ↔ (All m.Holds (listed l) × m.Holds op))
  insert_one-Holds a op l indexed known = elim (Bool-cases (is_constant_int a 1)) [
    | inl p ↦ rw p (indexed, ((λ h. (h, known p)), (λ h. h.0)))
    | inr p ↦ elim (Bool-cases (count A same l.lookup op)) [
      | inl q ↦
          (let found = count-Member l.lookup op (λ o. Member o (listed l)) q indexed in
            rw (p, q) (indexed, ((λ h. (h, All-Member m.Holds (listed l) op h found)), (λ h. h.0))))
      | inr q ↦ rw (p, q) (appended a op l indexed)
    ]
  ]

  insert_parts-none :
      (fuel : ℕ) (a op : Op) (stack : List Op) (l l' : AssertionList)
      → decompose A op ≡ none
      → insert_parts A same fuel a stack (insert_one A same a op l) ≡ done l'
      → insert_parts A same (suc fuel) a (op ∷ stack) l ≡ done l'
  insert_parts-none fuel a op stack l l' p run = rw (insert_parts, p) run

  insert_parts-some :
      (fuel : ℕ) (a op lhs rhs : Op) (stack : List Op) (l l' : AssertionList)
      → decompose A op ≡ some (lhs, rhs)
      → insert_parts A same fuel a (rhs ∷ lhs ∷ stack) l ≡ done l'
      → insert_parts A same (suc fuel) a (op ∷ stack) l ≡ done l'
  insert_parts-some fuel a op lhs rhs stack l l' p run = rw (insert_parts, p) run

  -- The loop ends within its fuel.
  insert_parts-Holds :
      (fuel : ℕ) (a : Op) (stack : List Op) (l : AssertionList)
      → weights stack < fuel
      → All (IsGoal scope) stack
      → IsIndexed l
      → (is_constant_int a 1 ≡ true → All m.Holds stack)
      → (l' : AssertionList) × (insert_parts A same fuel a stack l ≡ done l')
        × IsIndexed l'
        × (All m.Holds (listed l') ↔ (All m.Holds (listed l) × All m.Holds stack))
  insert_parts-Holds zero a stack l small t indexed known = absurd (omega arith)
  insert_parts-Holds (suc fuel) a [] l small t indexed known =
      (l, refl, indexed, ((λ h. (h, tt)), (λ h. h.0)))
  insert_parts-Holds (suc fuel) a (op ∷ stack) l small t indexed known = elim (m.parts op t.0) [
    | inl p ↦
        (let pos = weight_pos op in
          let one = insert_one-Holds a op l indexed (λ c. (known c).0) in
          let (l', run, indexed', holds) =
            insert_parts-Holds fuel a stack (insert_one A same a op l) (omega arith) t.1 one.0
              (λ c. (known c).1) in
          (
            l',
            insert_parts-none fuel a op stack l l' p run,
            indexed',
            (
              (λ h.
                  let parts = holds.0 h in
                  let first = one.1.0 parts.0 in (first.0, (first.1, parts.1))),
              (λ h. holds.1 (one.1.1 (h.0, h.1.0), h.1.1)),
            ),
          ))
    | inr (lhs, rhs, p, ul, ur, iff, lighter) ↦
        (let (l', run, indexed', holds) =
            insert_parts-Holds fuel a (rhs ∷ lhs ∷ stack) l (omega arith) (ur, (ul, t.1)) indexed
              (λ c. let all = known c in let parts = iff.0 all.0 in (parts.1, (parts.0, all.1))) in
          (
            l',
            insert_parts-some fuel a op lhs rhs stack l l' p run,
            indexed',
            (
              (λ h.
                  let parts = holds.0 h in
                  (parts.0, (iff.1 (parts.1.1.0, parts.1.0), parts.1.1.1))),
              (λ h. let parts = iff.0 h.1.0 in holds.1 (h.0, (parts.1, (parts.0, h.1.1)))),
            ),
          ))
  ]

  -- Insertion adds what the assertions mean.
  pub insert_means :
      (l : AssertionList) (assertions : List Op)
      → IsIndexed l
      → All (IsGoal scope) assertions
      → (l' : AssertionList) × (insert A same l assertions ≡ done l')
        × IsIndexed l'
        × (All m.Holds (listed l') ↔ (All m.Holds (listed l) × All m.Holds assertions))
  unfolding insert
  insert_means l [] indexed t = (l, refl, indexed, ((λ h. (h, tt)), (λ h. h.0)))
  insert_means l (a ∷ assertions) indexed t =
      let (l1, run1, indexed1, holds1) =
        insert_parts-Holds (suc (weight a + 0)) a (a ∷ []) l (omega arith) (t.0, tt) indexed
          (λ c. (m.true_holds a t.0 c, tt)) in
      let (l2, run2, indexed2, holds2) = insert_means l1 assertions indexed1 t.1 in
      (
        l2,
        rw run1 run2,
        indexed2,
        (
          (λ h.
              let rest = holds2.0 h in
              let first = holds1.0 rest.0 in (first.0, (first.1.0, rest.1))),
          (λ h. holds2.1 (holds1.1 (h.0, (h.1.0, tt)), h.1.1)),
        ),
      )

module _ (A : ApInt) (laws : ApIntLaws A) (same : Op → Op → Bool)
    (same-eq : (a b : Op) → same a b ≡ true → a ≡ b) (scope : ℕ → ℕ) (model : ℕ → Option Value)
    (fits : ModelFits scope model) where
  abbrev pub AllHold : List Op → Type 0
  AllHold ops = All (Holds A laws same same-eq scope model fits) ops

  pub constant_true-Holds :
      (a : Op)
      → IsAssertion A laws same same-eq scope model fits a
      → is_constant_int a 1 ≡ true
      → Holds A laws same same-eq scope model fits a
  constant_true-Holds a (t, one) h =
      let (w, e) = is_constant_int-eq a 1 h in
      let width : w ≡ 1 = sym (ap type_of e) ∙ one in
      ap (eval A model) e ∙ ap (λ n. done (int n 1)) width

  -- Holding in the model.
  abbrev pub evaluation : Meaning A scope
  evaluation = record {
    Holds = Holds A laws same same-eq scope model fits;
    parts = parts_view A laws same same-eq scope model fits;
    true_holds = constant_true-Holds;
  }

  -- With APInt as documented, `same` true of equal operations only, and a model whose symbols
  -- have values of their widths: typed assertions of one bit, inserted into a list whose set
  -- holds operations of the list, leave a list with the same property, without a failed
  -- assertion; in any model of typed values all of it holds exactly where all of the list
  -- before and all of the given assertions hold.
  pub insert-Holds :
      (l : AssertionList) (assertions : List Op)
      → IsIndexed l
      → All (IsAssertion A laws same same-eq scope model fits) assertions
      → (l' : AssertionList) × (insert A same l assertions ≡ done l')
        × IsIndexed l'
        × (AllHold (listed l') ↔ (AllHold (listed l) × AllHold assertions))
  insert-Holds l assertions indexed t =
      insert_means A scope same same-eq evaluation l assertions indexed t

-- Marking keeps what the list holds, in its order, and marks all of it.
pub mark_sat-listed :
    (l : AssertionList)
    → IsWf l.list
    → IsWf (mark_sat l).list
      × (listed (mark_sat l) ≡ listed l)
      × ((mark_sat l).mark ≡ length (listed l))
      × ((mark_sat l).lookup ≡ l.lookup)
unfolding mark_sat
mark_sat-listed l wf =
    let (wf', same_values, full) = compress-values l.list wf in
    (wf', same_values, wf'.counted ∙ ap length same_values, refl)

-- Clearing leaves the list that a new one is.
pub cleared-empty : (l : AssertionList) → cleared l ≡ empty
unfolding cleared clear
cleared-empty l = refl
