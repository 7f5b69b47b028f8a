-- ===== src/Memory/BumpAllocator/Tests.antt =====
-- BumpAllocator.cpp: an aligned allocation, and the theorems at it.
use caffeine.Prelude.{done, ℕ, ◌^◌, ◌≤◌, ◌≡◌, refl, Option, some, arith, [], ◌∷◌}
use caffeine.Apint.Concrete.{concrete, concrete-ApIntLaws}
use caffeine.Memory.BumpAllocator.{BumpAllocator, allocate}
use caffeine.Memory.BumpAllocator.Placement.{IsBump, Placed, allocate-Placed}

-- The bytes from 16 to 80, of which one is used.
abbrev range : BumpAllocator
range = record { width = 8; allocations = 16 ∷ []; current = 17; base = 16; size = 64 }

abbrev after : BumpAllocator
after = record { width = 8; allocations = 32 ∷ 16 ∷ []; current = 45; base = 16; size = 64 }

allocated : allocate concrete range 5 16 ≡ done (some 32, after)
unfolding allocate
allocated = refl

-- Aligning past the end makes the rest of the range wrap, and an address after it is given out.
past_the_end :
    allocate concrete
      (record { width = 8; allocations = []; current = 65; base = 0; size = 70 })
      8
      64
    ≡ done
        (some 128, record { width = 8; allocations = 128 ∷ []; current = 144; base = 0; size = 70 })
unfolding allocate
past_the_end = refl

allocate-Placed_example :
    (j : ℕ) × (found : Option ℕ) × (b' : BumpAllocator) × (8 ≤ 2 ^ j)
    × (16 ≤ 2 ^ j)
    × (allocate concrete range 5 16 ≡ done (found, b'))
    × IsBump b'
    × (17 ≤ b'.current)
    × Placed range 5 (2 ^ j) found b'
allocate-Placed_example =
    allocate-Placed concrete concrete-ApIntLaws range 5 16 4 5
      (omega arith, omega arith, omega arith) (omega arith) (omega arith) refl (omega arith)
      (omega arith) refl (omega arith)
