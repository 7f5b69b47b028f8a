-- ===== src/Adt/SharedArray/Tests.antt =====
-- SharedArray.cpp: runs on a small array, and the theorems at inputs that meet their conditions.
use caffeine.Prelude.{
  ◌==◌, if◌then◌else◌, ==_iff, done, fault, ◌>>=◌, ℕ, zero, suc, ◌≡◌, refl, subst, ◌↔◌, Bool, true,
  arith, List, [], ◌∷◌,
}
use caffeine.Prelude.{length}
use caffeine.Adt.SharedArray.{SharedArray, flat, modified, load, store, of_range, equals}
use caffeine.Adt.SharedArray.Contents.{IsWf, plain, store-plain}
use caffeine.Adt.SharedArray.Copies.{equals-plain}
use caffeine.Adt.SharedArray.Pointers.{
  Heap, Handle, vector, changed, copy_through, load_through, store_through,
}
use caffeine.Adt.SharedArray.Pointers.View.{view, Below, IsHeap, IsHandle}
use caffeine.Adt.SharedArray.Pointers.Apart.{copy_through-store}

-- Three elements behind a shared vector, with one change.
abbrev three_changed : SharedArray ℕ
three_changed = record {
  content = modified (flat (5 ∷ 6 ∷ 7 ∷ [])) ((1, 8) ∷ []);
  modcnt = 1;
  size = 3;
}

three_changed-IsWf : IsWf three_changed
unfolding plain
three_changed-IsWf = record { sized = refl; bounded = ((omega arith, tt), tt) }

-- The third three_changed element of three is over the threshold, and flattens the array.
store-changed :
    (store ◌==◌ three_changed 0 4 >>= λ s. store ◌==◌ s 2 9)
    ≡ done (record { content = flat (4 ∷ 8 ∷ 9 ∷ []); modcnt = 3; size = 3 })
unfolding store
store-changed = refl

of_range-load : load (of_range {A = ℕ} (5 ∷ 6 ∷ [])) 0 ≡ fault
unfolding load of_range
of_range-load = refl

store-plain_example :
    (s' : SharedArray ℕ) × (store ◌==◌ three_changed 2 9 ≡ done s')
    × IsWf s'
    × (s'.size ≡ 3)
    × (plain s'.content ≡ 5 ∷ 8 ∷ 9 ∷ [])
unfolding plain
store-plain_example = store-plain ◌==◌ ==_iff three_changed 2 9 three_changed-IsWf (omega arith)

-- Three elements in a shared vector, and two arrays over it.
abbrev one_vector : Heap ℕ
one_vector = vector (5 ∷ 6 ∷ 7 ∷ []) ∷ []

abbrev over_vector : List (ℕ × ℕ) → Handle ℕ
over_vector ch = record { content = changed 0 ch; modcnt = length ch; size = 3 }

one_vector-IsHeap : IsHeap one_vector
one_vector-IsHeap zero d e =
    subst (Below 0) (let same : vector (5 ∷ 6 ∷ 7 ∷ []) ≡ d = cc in same) tt
one_vector-IsHeap (suc k) d e = cc

over_vector-IsWf : IsWf (view one_vector (over_vector ((1, 8) ∷ [])))
unfolding plain
over_vector-IsWf = record { sized = refl; bounded = ((omega arith, tt), tt) }

copy_through-store_example :
    (h' : Heap ℕ) × (t : Handle ℕ) × (store_through ◌==◌
        (copy_through one_vector (over_vector ((1, 8) ∷ []))).0
        (copy_through one_vector (over_vector ((1, 8) ∷ []))).2
        2
        9
      ≡ done (h', t))
    × IsHeap h'
    × IsHandle h' t
    × IsWf (view h' t)
    × ((j : ℕ)
        → load_through h' t j
          ≡ (if 2 == j then done 9 else load_through one_vector (over_vector ((1, 8) ∷ [])) j))
    × ((j : ℕ)
        → load_through h' (copy_through one_vector (over_vector ((1, 8) ∷ []))).1 j
          ≡ load_through one_vector (over_vector ((1, 8) ∷ [])) j)
    × ((j : ℕ) → load_through h' (over_vector []) j ≡ load_through one_vector (over_vector []) j)
copy_through-store_example =
    copy_through-store ◌==◌ ==_iff one_vector (over_vector ((1, 8) ∷ [])) (over_vector []) 2 9
      one_vector-IsHeap (omega arith) (omega arith) over_vector-IsWf (omega arith)

-- A vector of 65 elements is moved into a shared variant by a copy, and the source reads it there.
abbrev sixty_five : Handle ℕ
sixty_five = record { content = vector (repeat 65); modcnt = 0; size = 65 }
  where
    repeat : ℕ → List ℕ
    repeat zero = []
    repeat (suc n) = 1 ∷ repeat n

copy_through-moves :
    (store_through ◌==◌ (copy_through [] sixty_five).0 (copy_through [] sixty_five).2 3 9 >>= λ r.
    load_through r.0 (copy_through [] sixty_five).1 3 >>= λ a.
    load_through r.0 r.1 3 >>= λ b. let seen : ℕ × ℕ × ℕ = (a, b, length r.0) in done seen)
    ≡ done (1, 9, 1)
unfolding store_through copy_through load_through
copy_through-moves = refl

equals-plain_example :
    (b : Bool) × (equals ◌==◌ three_changed three_changed ≡ done b)
    × ((b ≡ true) ↔ (plain three_changed.content ≡ plain three_changed.content))
equals-plain_example =
    equals-plain ◌==◌ ==_iff three_changed three_changed three_changed-IsWf three_changed-IsWf
