-- ===== src/Adt/SparseVector/Tests.antt =====
-- SparseVector.h: runs on a small vector, and the theorems at inputs that meet their conditions.
use caffeine.Prelude.{get_elem?}
use caffeine.Prelude.{
  ℕ, zero, suc, ◌+◌, ◌<◌, ◌≡◌, ◌⊎◌, refl, inl, In, some, [], ◌∷◌, arith, length, ◌==◌,
  if◌then◌else◌, done, throws, fault,
}
use caffeine.Adt.FreeList.{no_head}
use caffeine.Adt.SparseVector.{
  hole, value, SparseVector, index, emplace, erase, compress, to_list, values,
}
use caffeine.Adt.SparseVector.Holes.{IsWf, hole_of, emplace-index, erase-index}
use caffeine.Adt.SparseVector.Content.{to_list-values, compress-values}

-- A hole between two values.
abbrev holed : SparseVector ℕ
holed = record { elements = value 5 ∷ hole no_head ∷ value 6 ∷ []; size = 2; head = 1 }

holed_covers : (i n : ℕ) → hole_of holed.elements i ≡ some n → In i (1 ∷ [])
holed_covers zero n p = cc
holed_covers (suc zero) n p = inl refl
holed_covers (suc (suc zero)) n p = cc
holed_covers (suc (suc (suc i))) n p = cc

holed_within : (i n : ℕ) → hole_of holed.elements i ≡ some n → i < 3
holed_within zero n p = cc
holed_within (suc zero) n p = omega arith
holed_within (suc (suc zero)) n p = cc
holed_within (suc (suc (suc i))) n p = cc

holed-IsWf : IsWf holed
holed-IsWf = record {
  holes = record {
    cells = 1 ∷ [];
    chain = (refl, (no_head, refl, refl));
    distinct = (tt, tt);
    covers = holed_covers;
    within = holed_within;
    fits = omega arith;
  };
  counted = refl;
}

erase-holed :
    erase holed 2
    ≡ done (record { elements = value 5 ∷ hole no_head ∷ hole 1 ∷ []; size = 1; head = 2 })
unfolding erase
erase-holed = refl

emplace-index_example :
    (i : ℕ) × (s' : SparseVector ℕ) × (emplace holed 8 ≡ done (i, s'))
    × IsWf s'
    × (index holed i ≡ throws)
    × ((j : ℕ) → index s' j ≡ (if i == j then done 8 else index holed j))
    × (((holed.size ≡ length holed.elements)
          × (i ≡ length holed.elements)
          × (length s'.elements ≡ length holed.elements + 1))
        ⊎ ((holed.size < length holed.elements)
            × ((n : ℕ) × (get_elem? holed.elements i ≡ some (hole n)))
            × (length s'.elements ≡ length holed.elements)))
emplace-index_example = emplace-index holed 8 holed-IsWf (omega arith)

erase-index_example :
    ((v : ℕ) × (s' : SparseVector ℕ) × (index holed 2 ≡ done v)
      × (erase holed 2 ≡ done s')
      × IsWf s'
      × (s'.size + 1 ≡ 2)
      × ((j : ℕ) → index s' j ≡ (if 2 == j then throws else index holed j)))
    ⊎ ((index holed 2 ≡ throws) × (erase holed 2 ≡ fault))
erase-index_example = erase-index holed 2 holed-IsWf

to_list-values_example : to_list holed ≡ done (5 ∷ 6 ∷ [])
to_list-values_example = to_list-values holed

compress-values_example :
    IsWf (compress holed)
    × (values (compress holed).elements ≡ values holed.elements)
    × (length (compress holed).elements ≡ 2)
compress-values_example = compress-values holed holed-IsWf
