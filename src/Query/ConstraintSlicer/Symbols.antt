-- ===== src/Query/ConstraintSlicer/Symbols.antt =====
-- The symbols of an expression, with the cache and without.
use caffeine.Prelude.{
  ◌==◌, ==_iff, Bool-cases, Option-cases, ℕ, ◌≡◌, refl, sym, subst, ◌↔◌, ◌⊎◌, inl, inr, Bool, true,
  none, some, List, [], ◌∷◌,
}
use caffeine.Prelude.{In, All}
use caffeine.Apint.{ApInt}
use caffeine.Ir.Operation.{Op, constant_int, constant, undef, binary, unary, icmp, select}
use caffeine.Ir.Simplify.Values.{||-true}
use caffeine.Query.ConstraintSlicer.{
  Cache, has, add, add_all, cached, calc_contained_constants, contained_constants,
}

-- The symbol stands somewhere in the expression.
abbrev pub Occurs : ℕ → Op → Type 0
Occurs x (constant_int w v) = ⊥
Occurs x (constant w n) = x ≡ n
Occurs x (undef w) = ⊥
Occurs x (binary o l r) = Occurs x l ⊎ Occurs x r
Occurs x (unary o w y) = Occurs x y
Occurs x (icmp c l r) = Occurs x l ⊎ Occurs x r
Occurs x (select c t f) = (Occurs x c ⊎ Occurs x t) ⊎ Occurs x f

has-In : (x : ℕ) (xs : List ℕ) → has x xs ≡ true → In x xs
has-In x [] h = cc
has-In x (y ∷ ys) h = elim (||-true (x == y) (has x ys) h) [
  | inl p ↦ inl ((==_iff x y).0 p)
  | inr p ↦ inr (has-In x ys p)
]

add-In : (x y : ℕ) (out : List ℕ) → In x (add y out) ↔ ((x ≡ y) ⊎ In x out)
unfolding add
add-In x y out = elim (Bool-cases (has y out)) [
  | inl p ↦ rw p (
    (λ m. inr m),
    (λ m. elim m [ inl e ↦ subst (λ z. In z out) (sym e) (has-In y out p) | inr m ↦ m ]),
  )
  | inr p ↦ rw p ((λ m. m), (λ m. m))
]

-- Two parts, one after the other.
in_turn :
    {Both Right Between Left Before : Type 0}
    → (Both ↔ (Right ⊎ Between))
    → (Between ↔ (Left ⊎ Before))
    → Both ↔ ((Left ⊎ Right) ⊎ Before)
in_turn f g = (
  (λ b. elim (f.0 b) [
    | inl r ↦ inl (inr r)
    | inr m ↦ elim (g.0 m) [ inl l ↦ inl (inl l) | inr o ↦ inr o ]
  ]),
  (λ s. elim s [
    | inl s ↦ elim s [ inl l ↦ f.1 (inr (g.1 (inl l))) | inr r ↦ f.1 (inl r) ]
    | inr o ↦ f.1 (inr (g.1 (inr o)))
  ]),
)

add_all-In : (x : ℕ) (ys out : List ℕ) → In x (add_all ys out) ↔ (In x ys ⊎ In x out)
add_all-In x [] out = ((λ m. inr m), (λ m. elim m [ inl n ↦ elim n [ ] | inr n ↦ n ]))
add_all-In x (y ∷ ys) out = in_turn (add_all-In x ys (add y out)) (add-In x y out)

none_there : {T : Type 0} → T ↔ (⊥ ⊎ T)
none_there = ((λ t. inr t), (λ s. elim s [ inl n ↦ elim n [ ] | inr t ↦ t ]))

module _ (A : ApInt) (same : Op → Op → Bool) (same-eq : (a b : Op) → same a b ≡ true → a ≡ b)
    (arrange : List ℕ → List ℕ)
    (arrange-In : (x : ℕ) (xs : List ℕ) → In x (arrange xs) ↔ In x xs) where
  -- The entries of the cache are right.
  abbrev pub IsCache : Cache → Type 0
  IsCache cache = All (λ entry. (x : ℕ) → In x entry.1 ↔ Occurs x entry.0) cache

  cached-In :
      (cache : Cache) (op : Op) (symbols : List ℕ)
      → IsCache cache
      → cached A same arrange cache op ≡ some symbols
      → (x : ℕ) → In x symbols ↔ Occurs x op
  unfolding cached
  cached-In [] op symbols ok h = absurd cc
  cached-In ((o, ys) ∷ cache) op symbols ok h = elim (Bool-cases (same o op)) [
    | inl p ↦
        (let e : ys ≡ symbols = cc in
          subst (λ ops. (x : ℕ) → In x symbols ↔ Occurs x ops) (same-eq o op p)
            (subst (λ zs. (x : ℕ) → In x zs ↔ Occurs x o) e ok.0))
    | inr p ↦ cached-In cache op symbols ok.1 (cc)
  ]

  module _ (cache : Cache) (ok : IsCache cache) (x : ℕ) where
    abbrev Gathers : Op → List ℕ → Type 0
    Gathers op out =
        In x (calc_contained_constants A same arrange cache op out) ↔ (Occurs x op ⊎ In x out)

    calc_some :
        (op : Op) (out ys : List ℕ)
        → cached A same arrange cache op ≡ some ys
        → calc_contained_constants A same arrange cache op out ≡ add_all ys out
    calc_some (constant_int w v) out ys p = rw (calc_contained_constants, p) refl
    calc_some (constant w n) out ys p = rw (calc_contained_constants, p) refl
    calc_some (undef w) out ys p = rw (calc_contained_constants, p) refl
    calc_some (binary o l r) out ys p = rw (calc_contained_constants, p) refl
    calc_some (unary o w y) out ys p = rw (calc_contained_constants, p) refl
    calc_some (icmp c l r) out ys p = rw (calc_contained_constants, p) refl
    calc_some (select c t f) out ys p = rw (calc_contained_constants, p) refl

    by_cache :
        (op : Op) (out : List ℕ)
        → (cached A same arrange cache op ≡ none → Gathers op out)
        → Gathers op out
    by_cache op out plain = elim (Option-cases (cached A same arrange cache op)) [
      | inl p ↦ plain p
      | inr (ys, p) ↦
          (let there = cached-In cache op ys ok p x in
            let all = add_all-In x ys out in
            rw (calc_some op out ys p) (
              (λ m. elim (all.0 m) [ inl i ↦ inl (there.0 i) | inr o ↦ inr o ]),
              (λ s. all.1 (elim s [ inl i ↦ inl (there.1 i) | inr o ↦ inr o ])),
            ))
    ]

    pub calc_contained_constants-In : (op : Op) (out : List ℕ) → Gathers op out
    calc_contained_constants-In (constant_int w v) out =
        by_cache (constant_int w v) out (λ p. rw (calc_contained_constants, p) none_there)
    calc_contained_constants-In (constant w n) out =
        by_cache (constant w n) out (λ p. rw (calc_contained_constants, p) (add-In x n out))
    calc_contained_constants-In (undef w) out =
        by_cache (undef w) out (λ p. rw (calc_contained_constants, p) none_there)
    calc_contained_constants-In (binary o l r) out = by_cache (binary o l r) out (λ p.
        rw (calc_contained_constants, p)
          (in_turn
            (calc_contained_constants-In r (calc_contained_constants A same arrange cache l out))
            (calc_contained_constants-In l out)))
    calc_contained_constants-In (unary o w y) out =
        by_cache (unary o w y) out
          (λ p. rw (calc_contained_constants, p) (calc_contained_constants-In y out))
    calc_contained_constants-In (icmp c l r) out = by_cache (icmp c l r) out (λ p.
        rw (calc_contained_constants, p)
          (in_turn
            (calc_contained_constants-In r (calc_contained_constants A same arrange cache l out))
            (calc_contained_constants-In l out)))
    calc_contained_constants-In (select c t f) out = by_cache (select c t f) out (λ p.
        rw (calc_contained_constants, p)
          (in_turn
            (calc_contained_constants-In f (
              calc_contained_constants A same arrange cache t
                (calc_contained_constants A same arrange cache c out)))
            (in_turn
              (calc_contained_constants-In t (calc_contained_constants A same arrange cache c out))
              (calc_contained_constants-In c out))))

  -- With a cache whose entries are right, and whatever the order in which a set is read: the symbols
  -- that `contained_constants` gives are those that stand in the expression, and it leaves such
  -- a cache.
  pub contained_constants-IsCache :
      (cache : Cache) (op : Op)
      → IsCache cache
      → ((x : ℕ) → In x (contained_constants A same arrange cache op).0 ↔ Occurs x op)
        × IsCache (contained_constants A same arrange cache op).1
  unfolding contained_constants
  contained_constants-IsCache cache op ok = elim (Option-cases (cached A same arrange cache op)) [
    | inl p ↦ rw (contained_constants, p) ((computed, (computed, ok)))
    | inr (ys, p) ↦ rw (contained_constants, p) (cached-In cache op ys ok p, ok)
  ]
    where
      computed :
          (x : ℕ)
          → In x (arrange (calc_contained_constants A same arrange cache op [])) ↔ Occurs x op
      computed x =
          let calc = calc_contained_constants-In cache ok x op [] in
          let order = arrange-In x (calc_contained_constants A same arrange cache op []) in
          (
            (λ m. elim (calc.0 (order.0 m)) [ inl o ↦ o | inr n ↦ elim n [ ] ]),
            (λ o. order.1 (calc.1 (inl o))),
          )
