-- ===== src/Adt/SetTrie/Words.antt =====
-- SetTrie.h: the words that a trie holds, and which queries have a word among their subsequences.
use caffeine.Prelude.{
  ◌==◌, if◌then◌else◌, ℕ, ◌≡◌, refl, Bool, true, false, ◌&&◌, ◌||◌, Option, none, some, List, [],
  ◌∷◌,
}
use caffeine.Prelude.{get_elem?}
use caffeine.Adt.SetTrie.{Node, endpoint, find}

module _ {ℓ} {A : Type ℓ} where
  -- Some subsequence of `u` satisfies the test.
  unfoldable pub hits : (List A → Bool) → List A → Bool
  hits P [] = P []
  hits P (x ∷ u) = hits (λ w. P (x ∷ w)) u || hits P u

  pub hits-ext :
      (P Q : List A → Bool) (u : List A) → ((w : List A) → P w ≡ Q w) → hits P u ≡ hits Q u
  unfolding hits
  hits-ext P Q [] h = h []
  hits-ext P Q (x ∷ u) h =
      rw (hits-ext (λ w. P (x ∷ w)) (λ w. Q (x ∷ w)) u (λ w. h (x ∷ w)), hits-ext P Q u h) refl

  pub hits-nil : (P : List A → Bool) → hits P [] ≡ P []
  unfolding hits
  hits-nil P = refl

  pub hits_never : (u : List A) → hits (λ _. false) u ≡ false
  unfolding hits
  hits_never [] = refl
  hits_never (x ∷ u) = rw (hits_never u) refl

  pub hits_nil : (P : List A → Bool) (u : List A) → P [] ≡ true → hits P u ≡ true
  unfolding hits
  hits_nil P [] h = h
  hits_nil P (x ∷ u) h = rw (hits_nil P u h) (or_true (hits (λ w. P (x ∷ w)) u))
    where
      or_true : (b : Bool) → b || true ≡ true
      or_true true = refl
      or_true false = refl

module _ {ℓ} {A : Type ℓ} (same : A → A → Bool) where
  -- Every element of the first list stands in the second, in the same order.
  unfoldable pub subset : List A → List A → Bool
  subset [] u = true
  subset (x ∷ w) [] = false
  subset (x ∷ w) (y ∷ u) = if same x y then subset w u else subset (x ∷ w) u

  unfoldable pub prefix : List A → List A → Bool
  prefix [] w = true
  prefix (x ∷ q) [] = false
  prefix (x ∷ q) (y ∷ w) = same x y && prefix q w

  unfoldable pub equal : List A → List A → Bool
  equal [] [] = true
  equal [] (y ∷ w) = false
  equal (x ∷ q) [] = false
  equal (x ∷ q) (y ∷ w) = same x y && equal q w

  -- The edge of a node that an element labels.
  unfoldable pub edge : List (Node A) → ℕ → A → Option ℕ
  unfolding find
  edge ns i x = elim (get_elem? ns i) [ none ↦ none | some n ↦ find same x n.next ]

  -- The word leads from a node to the endpoint.
  unfoldable pub leads : List (Node A) → ℕ → List A → Bool
  unfolding edge
  leads ns i [] = i == endpoint
  leads ns i (x ∷ w) = elim (edge ns i x) [ none ↦ false | some j ↦ leads ns j w ]
