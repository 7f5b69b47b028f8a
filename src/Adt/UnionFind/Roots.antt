-- ===== src/Adt/UnionFind/Roots.antt =====
-- UnionFind.h: the root of an element, and that the two ways to find it agree.
use caffeine.Prelude.{
  ℕ, zero, suc, ◌≤◌, ◌<◌, ◌≡◌, ◌≢◌, refl, sym, ◌∙◌, ap, some, List, arith, ℕ_discrete, length,
  get_elem?, set, Outcome, done, get_elem?-set_self, get_elem?-set_ne, get_elem?-lt, length-set,
  subst,
}
use mathlib.Core.Option.{some-injective}
use caffeine.Adt.UnionFind.{UnionFind, update, find}

-- Following `n` links leads from `i` to `r`, which is its own parent, and not to such an element
-- before.
abbrev pub Root : List ℕ → ℕ → ℕ → ℕ → Type 0
Root ps r zero i = (i ≡ r) × (get_elem? ps i ≡ some i)
Root ps r (suc n) i = (p : ℕ) × (get_elem? ps i ≡ some p) × (i ≢ p) × Root ps r n p

pub link_eq : (ps : List ℕ) (i p q : ℕ) → get_elem? ps i ≡ some p → get_elem? ps i ≡ some q → p ≡ q
link_eq ps i p q h k = some-injective p q (sym h ∙ k)

-- The way up is the same whichever way it was found.
Root-unique : (ps : List ℕ) (r s n m i : ℕ) → Root ps r n i → Root ps s m i → (n ≡ m) × (r ≡ s)
Root-unique ps r s zero zero i d e = (refl, sym d.0 ∙ e.0)
Root-unique ps r s zero (suc m) i d (p, k, ne, e) = absurd (ne (link_eq ps i i p d.1 k))
Root-unique ps r s (suc n) zero i (p, h, ne, d) e = absurd (ne (link_eq ps i i p e.1 h))
Root-unique ps r s (suc n) (suc m) i (p, h, ne, d) (q, k, ne', e) =
    let same : q ≡ p = link_eq ps i q p k h in
    let ih = Root-unique ps r s n m p d (subst (λ x. Root ps s m x) same e) in (ap suc ih.0, ih.1)

pub Root-lt : (ps : List ℕ) (r n i : ℕ) → Root ps r n i → i < length ps
Root-lt ps r zero i d = get_elem?-lt ps i d.1
Root-lt ps r (suc n) i (p, h, ne, d) = get_elem?-lt ps i h

Root-top : (ps : List ℕ) (r n i : ℕ) → Root ps r n i → get_elem? ps r ≡ some r
Root-top ps r zero i d = subst (λ x. get_elem? ps x ≡ some x) d.0 d.1
Root-top ps r (suc n) i (p, h, ne, d) = Root-top ps r n p d

-- Linking `i` to its grandparent keeps every root and lengthens no way up.
abbrev Halved : List ℕ → List ℕ → ℕ → ℕ → ℕ → Type 0
Halved ps ps' s n j = (m : ℕ) × (m ≤ n) × Root ps' s m j

module _ (ps : List ℕ) (i p gp : ℕ) (hp : get_elem? ps i ≡ some p) (ne : i ≢ p)
    (hg : get_elem? ps p ≡ some gp) where
  halved : List ℕ
  halved = set ps i gp

  halved_self : get_elem? halved i ≡ some gp
  unfolding halved
  halved_self = get_elem?-set_self ps i gp (get_elem?-lt ps i hp)

  halved_ne : (j : ℕ) → j ≢ i → get_elem? halved j ≡ get_elem? ps j
  unfolding halved
  halved_ne j d = get_elem?-set_ne ps i j gp (λ e. d (sym e))

  keep_link :
      (s n j q : ℕ)
      → get_elem? ps j ≡ some q
      → j ≢ q
      → j ≢ i
      → Halved ps halved s n q
      → Halved ps halved s (suc n) j
  keep_link s n j q h d away (m, le, r) = (suc m, omega arith, (q, halved_ne j away ∙ h, d, r))

  new_link : (s n : ℕ) → i ≢ gp → Halved ps halved s n gp → Halved ps halved s (suc (suc n)) i
  new_link s n d (m, le, r) = (suc m, omega arith, (gp, halved_self, d, r))

  halve-Root : (s n j : ℕ) → Root ps s n j → Halved ps halved s n j
  halve-Root s zero j (e, h) =
      (0, omega arith, (e, halved_ne j (λ q. ne (sym q ∙ link_eq ps j j p h (rw q hp))) ∙ h))
  halve-Root s (suc zero) j (q, h, d, (e, t)) = elim (ℕ_discrete j i) [
    | yes at_i ↦
        let to_p : q ≡ p = link_eq ps j q p h (rw at_i hp) in
        let at_top : gp ≡ p = link_eq ps p gp p hg (subst (λ x. get_elem? ps x ≡ some x) to_p t) in
        (
          1,
          omega arith,
          (
            gp,
            rw at_i halved_self,
            λ x. d (x ∙ at_top ∙ sym to_p),
            (
              at_top ∙ sym to_p ∙ e,
              halved_ne gp (λ x. ne (sym x ∙ at_top))
                  ∙ rw at_top (subst (λ x. get_elem? ps x ≡ some x) to_p t),
            ),
          ),
        )
    | no away ↦ keep_link s 0 j q h d away (halve-Root s zero q (e, t))
  ]
  halve-Root s (suc (suc n)) j (q, h, d, (q', h', d', r)) = elim (ℕ_discrete j i) [
    | yes at_i ↦
        let to_p : q ≡ p = link_eq ps j q p h (rw at_i hp) in
        let to_gp : q' ≡ gp = link_eq ps q q' gp h' (rw to_p hg) in
        let here : Root ps s (suc (suc n)) j = (q, h, d, (q', h', d', r)) in
        let apart : i ≢ gp =
          λ x. omega (arith, Root-unique ps s s (suc (suc n)) n j here (rw (at_i, x, ← to_gp) r)) in
        subst (Halved ps halved s (suc (suc n))) (sym at_i)
          (new_link s n apart (halve-Root s n gp (rw (← to_gp) r)))
    | no away ↦ keep_link s (suc n) j q h d away (halve-Root s (suc n) q (q', h', d', r))
  ]

pub find-Root :
    (fuel : ℕ) (u : UnionFind) (r n i : ℕ)
    → n < fuel
    → Root u.parents r n i
    → find fuel u i ≡ done r
unfolding find
find-Root zero u r n i lt d = absurd (omega arith)
find-Root (suc fuel) u r zero i lt (e, h) = rw h (ground arith)
find-Root (suc fuel) u r (suc n) i lt (p, h, ne, d) = rw h (ground (arith, find-Root fuel u r n p))

Root-grandparent :
    (ps : List ℕ) (r n i p : ℕ)
    → Root ps r n i
    → get_elem? ps i ≡ some p
    → i ≢ p
    → (gp : ℕ) × (get_elem? ps p ≡ some gp) × ((k : ℕ) × (k < n) × Root ps r k gp)
Root-grandparent ps r zero i p (e, h) hp ne = absurd (ne (link_eq ps i i p h hp))
Root-grandparent ps r (suc zero) i p (q, h, d, (e, t)) hp ne =
    let same : q ≡ p = link_eq ps i q p h hp in (q, rw (← same) t, (0, omega arith, (e, t)))
Root-grandparent ps r (suc (suc n)) i p (q, h, d, (q', h', d', rest)) hp ne =
    let same : q ≡ p = link_eq ps i q p h hp in (q', rw (← same) h', (n, omega arith, rest))

-- What `update` leaves: the same elements, each with its root and no longer way up.
abbrev pub Compressed : UnionFind → UnionFind → Type 0
Compressed u u' =
    (length u'.parents ≡ length u.parents)
    × ((s n j : ℕ) → Root u.parents s n j → (m : ℕ) × (m ≤ n) × Root u'.parents s m j)

Compressed-trans : (u v w : UnionFind) → Compressed u v → Compressed v w → Compressed u w
Compressed-trans u v w a b = (
  b.0 ∙ a.0,
  λ s n j d.
      let (m, le, r) = a.1 s n j d in let (m', le', r') = b.1 s m j r in (m', omega arith, r'),
)

update_step :
    (fuel : ℕ) (u : UnionFind) (i p gp : ℕ) (result : Outcome (ℕ × UnionFind))
    → get_elem? u.parents i ≡ some p
    → i ≢ p
    → get_elem? u.parents p ≡ some gp
    → update fuel (record { parents = set u.parents i gp }) gp ≡ result
    → update (suc fuel) u i ≡ result
unfolding update
update_step fuel u i p gp result h ne hg ends =
    rw h (ground (arith, hg, ends, get_elem?-lt u.parents i h))

pub update-Root :
    (fuel : ℕ) (u : UnionFind) (r n i : ℕ)
    → n < fuel
    → Root u.parents r n i
    → (u' : UnionFind) × (update fuel u i ≡ done (r, u')) × Compressed u u'
update-Root zero u r n i lt d = absurd (omega arith)
update-Root (suc fuel) u r zero i lt (e, h) =
    (u, unfold update in rw h (ground arith), (refl, λ s n j d. (n, omega arith, d)))
update-Root (suc fuel) u r (suc n) i lt (p, h, ne, d) =
    let (gp, hg, (k, below, rest)) = Root-grandparent u.parents r (suc n) i p (p, h, ne, d) h ne in
    let u₁ : UnionFind = record { parents = set u.parents i gp } in
    let (k', le, moved) = halve-Root u.parents i p gp h ne hg r k gp rest in
    let (u', ends, keeps) = update-Root fuel u₁ r k' gp (omega arith) (unfold halved in moved) in
    (
      u',
      update_step fuel u i p gp _ h ne hg ends,
      Compressed-trans u u₁ u'
          (
            length-set u.parents i gp,
            λ s n j x. unfold halved in halve-Root u.parents i p gp h ne hg s n j x,
          )
          keeps,
    )

-- For an element with a way up to `r` and more rounds than it has links, both overloads of `find`
-- end with `r`, and the compression leaves every element its root, with no longer way up.
pub update-find :
    (fuel : ℕ) (u : UnionFind) (r n i : ℕ)
    → n < fuel
    → Root u.parents r n i
    → (u' : UnionFind) × (find fuel u i ≡ done r)
      × (update fuel u i ≡ done (r, u'))
      × Compressed u u'
update-find fuel u r n i lt d =
    let (u', ends, keeps) = update-Root fuel u r n i lt d in
    (u', find-Root fuel u r n i lt d, ends, keeps)
