-- ===== src/Adt/UnionFind/Tests.antt =====
-- UnionFind.h: runs on a small forest, and the theorems at inputs that meet their conditions.
use caffeine.Prelude.{ℕ, ◌+◌, ◌<◌, ◌≡◌, refl, [], ◌∷◌, arith, length, ◌==◌, if◌then◌else◌, done}
use caffeine.Adt.UnionFind.{UnionFind, update, find, do_union}
use caffeine.Adt.UnionFind.Roots.{Root, Compressed, update-find}
use caffeine.Adt.UnionFind.Union.{do_union-Root}

-- 3 → 2 → 1 → 0, and 4 alone.
abbrev chained : UnionFind
chained = record { parents = 0 ∷ 0 ∷ 1 ∷ 2 ∷ 4 ∷ [] }

update-chained : update 9 chained 3 ≡ done (0, record { parents = 0 ∷ 0 ∷ 1 ∷ 1 ∷ 4 ∷ [] })
unfolding update
update-chained = refl

chained-Root : Root chained.parents 0 3 3
chained-Root = (2, refl, omega arith, (1, refl, omega arith, (0, refl, omega arith, (refl, refl))))

update-find_example :
    (u' : UnionFind) × (find 4 chained 3 ≡ done 0)
    × (update 4 chained 3 ≡ done (0, u'))
    × Compressed chained u'
update-find_example = update-find 4 chained 0 3 3 (omega arith) chained-Root

do_union-Root_example :
    (u' : UnionFind) × (do_union chained 4 0 ≡ done (4, u'))
    × (length u'.parents ≡ 5)
    × ((r n i fuel : ℕ)
        → Root chained.parents r n i
        → n + 1 < fuel
        → find fuel u' i ≡ done (if r == 0 then 4 else r))
do_union-Root_example = do_union-Root chained 4 0 refl refl
