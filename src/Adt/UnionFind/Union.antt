-- ===== src/Adt/UnionFind/Union.antt =====
-- UnionFind.h: what making and joining sets does to the roots.
use caffeine.Prelude.{
  ℕ, zero, suc, ◌+◌, ◌≤◌, ◌<◌, ◌≡◌, refl, sym, ◌∙◌, ap, some, List, [], ◌∷◌, ◌++◌, arith,
  ℕ_discrete, length, get_elem?, set, ◌==◌, if◌then◌else◌, done, get_elem?-set_self,
  get_elem?-set_ne, get_elem?-lt, get_elem?-append_lt, get_elem?-append_self, length-set, subst,
}
use caffeine.Adt.UnionFind.{UnionFind, make_set, do_union, find}
use caffeine.Adt.UnionFind.Roots.{Root, find-Root, link_eq}

append-Root : (ps : List ℕ) (v r n i : ℕ) → Root ps r n i → Root (ps ++ v ∷ []) r n i
append-Root ps v r zero i (e, h) = (e, get_elem?-append_lt ps (v ∷ []) i (get_elem?-lt ps i h) ∙ h)
append-Root ps v r (suc n) i (p, h, ne, d) =
    (p, get_elem?-append_lt ps (v ∷ []) i (get_elem?-lt ps i h) ∙ h, ne, append-Root ps v r n p d)

-- `make_set` gives the next index, which is its own root, and leaves every other root.
pub make_set-Root :
    (u : UnionFind)
    → ((make_set u).0 ≡ length u.parents)
      × Root (make_set u).1.parents (make_set u).0 0 (make_set u).0
      × ((r n i : ℕ) → Root u.parents r n i → Root (make_set u).1.parents r n i)
unfolding make_set
make_set-Root u = (
  refl,
  (refl, get_elem?-append_self u.parents _),
  λ r n i d. append-Root u.parents (length u.parents) r n i d,
)

module _ (ps : List ℕ) (root1 root2 : ℕ) (top1 : get_elem? ps root1 ≡ some root1)
    (top2 : get_elem? ps root2 ≡ some root2) where
  abbrev joined : List ℕ
  joined = set ps root2 root1

  abbrev new_root : ℕ → ℕ
  new_root s = if s == root2 then root1 else s

  new_root_self : (s : ℕ) → s ≡ root2 → new_root s ≡ root1
  new_root_self s e = ground arith

  linked : (j : ℕ) → j ≡ root2 → get_elem? joined j ≡ some root1
  linked j p = rw p (get_elem?-set_self ps root2 root1 (get_elem?-lt ps root2 top2))

  union-Root : (s n j : ℕ) → Root ps s n j → (m : ℕ) × (m ≤ n + 1) × Root joined (new_root s) m j
  union-Root s zero j (e, h) = elim (ℕ_discrete j root2) [
    | yes p ↦ rw (new_root_self s (sym e ∙ p)) (elim (ℕ_discrete root1 root2) [
      | yes same ↦ (0, omega arith, (p ∙ sym same, linked j p ∙ ap some (same ∙ sym p)))
      | no apart ↦ (
        1,
        omega arith,
        (
          root1,
          linked j p,
          λ q. apart (sym q ∙ p),
          (refl, get_elem?-set_ne ps root2 root1 root1 (λ q. apart (sym q)) ∙ top1),
        ),
      )
    ])
    | no away ↦
        (0, omega arith, (ground arith, get_elem?-set_ne ps root2 j root1 (λ q. away (sym q)) ∙ h))
  ]
  union-Root s (suc n) j (q, h, ne, d) =
      let (m, le, r) = union-Root s n q d in
      (suc m, omega arith, (q, get_elem?-set_ne ps root2 j root1 (λ x. ne (apart x)) ∙ h, ne, r))
    where
      apart : root2 ≡ j → j ≡ q
      apart x = link_eq ps j j q (subst (λ y. get_elem? ps y ≡ some y) x top2) h

-- For two elements that are their own parents, `do_union` gives the first, and then an element's root
-- is the first where it was the second, and as before everywhere else; no way up grows by more
-- than one link.
pub do_union-Root :
    (u : UnionFind) (root1 root2 : ℕ)
    → get_elem? u.parents root1 ≡ some root1
    → get_elem? u.parents root2 ≡ some root2
    → (u' : UnionFind) × (do_union u root1 root2 ≡ done (root1, u'))
      × (length u'.parents ≡ length u.parents)
      × ((r n i fuel : ℕ)
          → Root u.parents r n i
          → n + 1 < fuel
          → find fuel u' i ≡ done (if r == root2 then root1 else r))
do_union-Root u root1 root2 top1 top2 = (
  record { parents = set u.parents root2 root1 },
  unfold do_union in ground (arith, get_elem?-lt u.parents root2 top2),
  length-set u.parents root2 root1,
  λ r n i fuel d lt.
      let (m, le, moved) = union-Root u.parents root1 root2 top1 top2 r n i d in
      find-Root fuel _ _ m i (omega arith) moved,
)
