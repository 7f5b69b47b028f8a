-- ===== src/Query/ConstraintSlicer/Known.antt =====
-- The map from a symbol to the proven assertions that it stands in.
use caffeine.Prelude.{
  ◌==◌, ==_iff, Bool-cases, ℕ, ◌≡◌, sym, ◌∙◌, subst, ◌↔◌, ◌⊎◌, inl, inr, Bool, true, Option, none,
  some, arith, List, [], ◌∷◌,
}
use caffeine.Prelude.{◌++◌, In}
use caffeine.Apint.{ApInt}
use caffeine.Ir.Operation.{Op}
use caffeine.Model.AssertionList.Insert.{Member, Member-append, Member-append_last}
use caffeine.Query.ConstraintSlicer.{
  Cache, KnownMap, lookup_symbol, push_back, push_all, index_proven, contained_constants,
}
use caffeine.Query.ConstraintSlicer.Symbols.{Occurs, IsCache, contained_constants-IsCache}

-- What the map has for a symbol; nothing where the symbol is absent.
abbrev pub found : Option (List Op) → List Op
found none = []
found (some ops) = ops

abbrev pub Known : KnownMap → ℕ → Op → Type 0
Known known x op = Member op (found (lookup_symbol known x))

appended_either : (p op : Op) (ops : List Op) → Member p (ops ++ op ∷ []) → Member p ops ⊎ (op ≡ p)
appended_either p op [] m = elim m [ inl e ↦ inr e | inr n ↦ elim n [ ] ]
appended_either p op (o ∷ ops) (inl e) = inl (inl e)
appended_either p op (o ∷ ops) (inr m) = elim (appended_either p op ops m) [
  | inl n ↦ inl (inr n)
  | inr e ↦ inr e
]

appended-Member :
    (p op : Op) (ops : List Op) → Member p (ops ++ op ∷ []) ↔ (Member p ops ⊎ (op ≡ p))
appended-Member p op ops = (
  appended_either p op ops,
  (λ s. elim s [
    | inl m ↦ Member-append p op ops m
    | inr e ↦ subst (λ o. Member o (ops ++ op ∷ [])) e (Member-append_last op ops)
  ]),
)

push_back-Known :
    (known : KnownMap) (x y : ℕ) (op p : Op)
    → Known (push_back known x op) y p ↔ (Known known y p ⊎ ((y ≡ x) × (op ≡ p)))
unfolding push_back lookup_symbol
push_back-Known [] x y op p = elim (Bool-cases (y == x)) [
  | inl h ↦
      (let e = (==_iff y x).0 h in
        rw h (
          (λ m. elim m [ inl i ↦ inr (e, i) | inr n ↦ elim n [ ] ]),
          (λ s. elim s [ inl n ↦ elim n [ ] | inr i ↦ inl i.1 ]),
        ))
  | inr h ↦
      rw h
        ((λ n. elim n [ ]), (λ s. elim s [ inl n ↦ n | inr i ↦ absurd (ground (arith, h, i.0)) ]))
]
push_back-Known ((z, ops) ∷ known) x y op p = elim (Bool-cases (x == z)) [
  | inl h ↦ elim (Bool-cases (y == z)) [
    | inl k ↦
        (let e : y ≡ x = (==_iff y z).0 k ∙ sym ((==_iff x z).0 h) in
          let both = appended-Member p op ops in
          rw (h, k)
            (
              (λ m. elim (both.0 m) [ inl n ↦ inl n | inr i ↦ inr (e, i) ]),
              (λ s. both.1 (elim s [ inl n ↦ inl n | inr i ↦ inr i.1 ])),
            ))
    | inr k ↦
        rw (h, k)
          (
            (λ m. inl m),
            (λ s. elim s [ inl m ↦ m | inr i ↦ absurd (ground (arith, k, i.0, (==_iff x z).0 h)) ]),
          )
  ]
  | inr h ↦ elim (Bool-cases (y == z)) [
    | inl k ↦
        rw (h, k)
          (
            (λ m. inl m),
            (λ s. elim s [ inl m ↦ m | inr i ↦ absurd (ground (arith, h, i.0, (==_iff y z).0 k)) ]),
          )
    | inr k ↦ rw (h, k) (push_back-Known known x y op p)
  ]
]

push_all-Known :
    (known : KnownMap) (xs : List ℕ) (y : ℕ) (op p : Op)
    → Known (push_all known xs op) y p ↔ (Known known y p ⊎ (In y xs × (op ≡ p)))
push_all-Known known [] y op p = ((λ m. inl m), (λ s. elim s [ inl m ↦ m | inr i ↦ elim i.0 [ ] ]))
push_all-Known known (x ∷ xs) y op p =
    let rest = push_all-Known (push_back known x op) xs y op p in
    let first = push_back-Known known x y op p in
    (
      (λ m. elim (rest.0 m) [
        | inl n ↦ elim (first.0 n) [ inl k ↦ inl k | inr i ↦ inr (inl i.0, i.1) ]
        | inr i ↦ inr (inr i.0, i.1)
      ]),
      (λ s. elim s [
        | inl k ↦ rest.1 (inl (first.1 (inl k)))
        | inr i ↦ elim i.0 [
          | inl e ↦ rest.1 (inl (first.1 (inr (e, i.1))))
          | inr m ↦ rest.1 (inr (m, i.1))
        ]
      ]),
    )

module _ (A : ApInt) (same : Op → Op → Bool) (same-eq : (a b : Op) → same a b ≡ true → a ≡ b)
    (arrange : List ℕ → List ℕ)
    (arrange-In : (x : ℕ) (xs : List ℕ) → In x (arrange xs) ↔ In x xs) where
  -- The loop adds every proven assertion under each of its symbols, and nothing else.
  pub index_proven-Known :
      (cache : Cache) (ops : List Op) (known : KnownMap)
      → IsCache A same same-eq arrange arrange-In cache
      → IsCache A same same-eq arrange arrange-In (index_proven A same arrange cache ops known).1
        × ((y : ℕ) (p : Op)
            → Known (index_proven A same arrange cache ops known).0 y p
              ↔ (Known known y p ⊎ (Member p ops × Occurs y p)))
  index_proven-Known cache [] known ok =
      (ok, λ y p. ((λ m. inl m), (λ s. elim s [ inl m ↦ m | inr i ↦ elim i.0 [ ] ])))
  index_proven-Known cache (op ∷ ops) known ok =
      let (symbols, ok') =
        contained_constants-IsCache A same same-eq arrange arrange-In cache op ok in
      let found = contained_constants A same arrange cache op in
      let (ok'', rest) = index_proven-Known found.1 ops (push_all known found.0 op) ok' in
      (
        ok'',
        λ y p.
            let first = push_all-Known known found.0 y op p in
            (
              (λ m. elim ((rest y p).0 m) [
                | inl n ↦ elim (first.0 n) [
                  | inl k ↦ inl k
                  | inr i ↦ inr (inl i.1, subst (Occurs y) i.1 ((symbols y).0 i.0))
                ]
                | inr i ↦ inr (inr i.0, i.1)
              ]),
              (λ s. elim s [
                | inl k ↦ (rest y p).1 (inl (first.1 (inl k)))
                | inr i ↦ elim i.0 [
                  | inl e ↦
                      (rest y p).1
                        (inl (first.1 (inr ((symbols y).1 (subst (Occurs y) (sym e) i.1), e))))
                  | inr m ↦ (rest y p).1 (inr (m, i.1))
                ]
              ]),
            ),
      )

  pub index_proven_from_nil :
      (cache : Cache) (ps : List Op)
      → IsCache A same same-eq arrange arrange-In cache
      → IsCache A same same-eq arrange arrange-In (index_proven A same arrange cache ps []).1
        × ((y : ℕ) (p : Op)
            → Known (index_proven A same arrange cache ps []).0 y p ↔ (Member p ps × Occurs y p))
  unfolding lookup_symbol
  index_proven_from_nil cache ps ok =
      let (ok', known) = index_proven-Known cache ps [] ok in
      (
        ok',
        λ y p. (
          (λ m. elim ((known y p).0 m) [ inl n ↦ elim n [ ] | inr i ↦ i ]),
          (λ i. (known y p).1 (inr i)),
        ),
      )
