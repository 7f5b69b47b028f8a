-- ===== src/Adt/UnionFind.antt =====
-- include/caffeine/ADT/UnionFind.h: disjoint sets as parent links in a vector.
pub mod Roots
pub mod Union
pub mod Tests
use caffeine.Prelude.{
  ℕ, zero, suc, true, false, List, [], ◌∷◌, ◌++◌, length, get_elem?, set, ◌==◌, ltb, if◌then◌else◌,
  Outcome, done, throws, fault, ◌>>=◌, or_throw,
}

pub record UnionFind : Type 0 where
  pub parents : List ℕ

pub empty : UnionFind
empty = record { parents = [] }

pub make_set : UnionFind → ℕ × UnionFind
make_set u = let id = length u.parents in (id, record { parents = u.parents ++ id ∷ [] })

pub size : UnionFind → ℕ
size u = length u.parents

-- Both overloads of `parent`: `at` throws out of range, and `assign` writes through the reference.
unfoldable pub parent : UnionFind → ℕ → Outcome ℕ
parent u query = or_throw (get_elem? u.parents query)

unfoldable pub assign : UnionFind → ℕ → ℕ → Outcome UnionFind
assign u query p =
    if ltb query (length u.parents)
    then done (record { parents = set u.parents query p })
    else throws

-- The loop halves the path: each visited element is linked to its grandparent. The rounds are
-- bounded by the fuel; running out of it stands for a loop that does not end.
unfoldable pub update : ℕ → UnionFind → ℕ → Outcome (ℕ × UnionFind)
unfolding parent assign
update zero u current = fault
update (suc fuel) u current = do
  p ← parent u current
  elim (current == p) [
    | true ↦ done (current, u)
    | false ↦ do gp ← parent u p; u' ← assign u current gp; update fuel u' gp
  ]

-- The const overload of `find` only walks; the other one is `update`.
unfoldable pub find : ℕ → UnionFind → ℕ → Outcome ℕ
unfolding parent
find zero u current = fault
find (suc fuel) u current = do
  p ← parent u current
  elim (current == p) [ true ↦ done current | false ↦ find fuel u p ]

unfoldable pub do_union : UnionFind → ℕ → ℕ → Outcome (ℕ × UnionFind)
unfolding assign
do_union u root1 root2 = assign u root2 root1 >>= λ u'. done (root1, u')
