-- ===== src/Adt/SetTrie/Spec.antt =====
-- SetTrie.h: what inserting a set does to the words of a trie, and to the queries that hit one.
use caffeine.Prelude.{
  if◌then◌else◌, Bool-cases, ◌≡◌, refl, sym, ap, ◌∙◌, subst, ◌↔◌, inl, inr, Bool, true, false, ◌||◌,
  arith, List, [], ◌∷◌,
}
use caffeine.Adt.SetTrie.Words.{hits, hits-ext, hits_nil, subset, prefix, equal}

module _ {ℓ} {A : Type ℓ} (same : A → A → Bool) where
  -- The inserted word stands for itself and for every word that it begins.
  unfoldable pub replaced : List A → List A → Bool → Bool
  unfolding prefix equal
  replaced q w b = if prefix same q w then equal same q w else b

  subset_drop : (x : A) (q u : List A) → subset same (x ∷ q) u ≡ true → subset same q u ≡ true
  unfolding subset
  subset_drop x [] u h = refl
  subset_drop x (y ∷ q) [] h = h
  subset_drop x (y ∷ q) (z ∷ u) h = ground (arith, subset_drop x (y ∷ q) u, subset_drop y q u)

  pub hits-replaced :
      (q : List A) (P : List A → Bool) (u : List A)
      → hits (λ w. replaced q w (P w)) u ≡ (hits P u || subset same q u)
  unfolding hits replaced subset
  hits-replaced [] P u =
      unfold equal prefix in hits_nil (λ w. replaced [] w (P w)) u refl ∙ ground arith
  hits-replaced (x ∷ q) P [] = unfold prefix in ground arith
  hits-replaced (x ∷ q) P (y ∷ u) = elim (Bool-cases (same x y)) [
    | inl e ↦
        let here : hits (λ w. replaced (x ∷ q) (y ∷ w) (P (y ∷ w))) u
            ≡ (hits (λ w. P (y ∷ w)) u || subset same q u) =
          hits-ext (λ w. replaced (x ∷ q) (y ∷ w) (P (y ∷ w))) (λ w. replaced q w (P (y ∷ w))) u
            (λ w. unfold prefix equal in rw e refl)
          ∙ hits-replaced q (λ w. P (y ∷ w)) u in
        or-cong here (hits-replaced (x ∷ q) P u)
        ∙ absorb (hits (λ w. P (y ∷ w)) u) (subset same q u) (hits P u) (subset same (x ∷ q) u)
            (subset_drop x q u)
        ∙ ap (λ b. hits P (y ∷ u) || b) (rw e refl)
    | inr e ↦
        let here : hits (λ w. replaced (x ∷ q) (y ∷ w) (P (y ∷ w))) u ≡ hits (λ w. P (y ∷ w)) u =
          hits-ext (λ w. replaced (x ∷ q) (y ∷ w) (P (y ∷ w))) (λ w. P (y ∷ w)) u
            (λ w. unfold prefix equal in rw e refl) in
        or-cong here (hits-replaced (x ∷ q) P u)
        ∙ or_assoc (hits (λ w. P (y ∷ w)) u) (hits P u) (subset same (x ∷ q) u)
        ∙ ap (λ b. hits P (y ∷ u) || b) (rw e refl)
  ]
    where
      or-cong : {a b c d : Bool} → a ≡ b → c ≡ d → (a || c) ≡ (b || d)
      or-cong p q = rw (p, q) refl

      or_assoc : (a b c : Bool) → (a || (b || c)) ≡ ((a || b) || c)
      or_assoc true b c = refl
      or_assoc false b c = refl

      absorb : (a c b d : Bool) → (d ≡ true → c ≡ true) → ((a || c) || (b || d)) ≡ ((a || b) || c)
      absorb true c b d h = refl
      absorb false true true d h = refl
      absorb false true false d h = refl
      absorb false false true d h = refl
      absorb false false false true h = sym (h refl)
      absorb false false false false h = refl

  -- An equal word begins with the other.
  pub equal-prefix :
      (q w : List A) → (if prefix same q w then equal same q w else false) ≡ equal same q w
  unfolding prefix equal
  equal-prefix [] w = refl
  equal-prefix (x ∷ q) [] = refl
  equal-prefix (x ∷ q) (y ∷ w) = ground (arith, equal-prefix q w)

  pub replaced-nil : (x : A) (q : List A) (b : Bool) → replaced (x ∷ q) [] b ≡ b
  unfolding replaced prefix
  replaced-nil x q b = refl

  pub replaced_same :
      (x y : A) (q w : List A) (b : Bool)
      → same x y ≡ true
      → replaced (x ∷ q) (y ∷ w) b ≡ replaced q w b
  unfolding replaced prefix equal
  replaced_same x y q w b e = rw e refl

  pub replaced_other :
      (x y : A) (q w : List A) (b : Bool) → same x y ≡ false → replaced (x ∷ q) (y ∷ w) b ≡ b
  unfolding replaced prefix equal
  replaced_other x y q w b e = rw e refl

  pub replaced-false : (q w : List A) → replaced q w false ≡ equal same q w
  unfolding replaced
  replaced-false q w = equal-prefix q w

  pub replaced_by_nil : (w : List A) (b : Bool) → replaced [] w b ≡ equal same [] w
  unfolding replaced prefix
  replaced_by_nil w b = refl

  -- A query that contains a hitting query hits.
  pub hits-subset :
      ((a b : A) → (same a b ≡ true) ↔ (a ≡ b))
      → (P : List A → Bool) (q u : List A) → subset same q u ≡ true
      → hits P q ≡ true
      → hits P u ≡ true
  unfolding hits subset
  hits-subset eq P [] u s h = hits_nil P u h
  hits-subset eq P (x ∷ q) [] s h = cc
  hits-subset eq P (x ∷ q) (y ∷ u) s h = elim (Bool-cases (same x y)) [
    | inl e ↦
        let h' : (hits (λ w. P (y ∷ w)) q || hits P q) ≡ true =
          subst (λ z. (hits (λ w. P (z ∷ w)) q || hits P q) ≡ true) ((eq x y).0 e) h in
        let s' : subset same q u ≡ true = rw e at s in
        ground (arith, hits-subset eq (λ w. P (y ∷ w)) q u, hits-subset eq P q u)
    | inr e ↦
        let s' : subset same (x ∷ q) u ≡ true = rw e at s in
        let h' = hits-subset eq P (x ∷ q) u s' h in ground arith
  ]
