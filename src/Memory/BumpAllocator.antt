-- ===== src/Memory/BumpAllocator.antt =====
-- BumpAllocator of src/Memory/BumpAllocator.cpp. The numbers have `width` bits, and the set of
-- allocations is a list.
pub mod Placement
mod Tests
use caffeine.Prelude.{
  ltb, ◌==◌, if◌then◌else◌, Outcome, done, fault, ◌>>=◌, ◌>>◌, check, ℕ, Bool, false, ◌||◌, Option,
  none, some, List, [], ◌∷◌,
}
use caffeine.Apint.{ApInt}

pub record BumpAllocator : Type 0 where
  pub width : ℕ
  pub allocations : List ℕ
  pub current : ℕ
  pub base : ℕ
  pub size : ℕ

pub create : ℕ → ℕ → ℕ → BumpAllocator
create w base size = record {
  width = w;
  allocations = [];
  current = base;
  base = base;
  size = size;
}

-- `allocations.erase`
abbrev pub count : ℕ → List ℕ → Bool
count addr [] = false
count addr (a ∷ rest) = a == addr || count addr rest

abbrev pub without : ℕ → List ℕ → List ℕ
without addr [] = []
without addr (a ∷ rest) = if a == addr then rest else a ∷ without addr rest

unfoldable pub deallocate : BumpAllocator → ℕ → Outcome BumpAllocator
deallocate b addr =
    if count addr b.allocations
    then done (record b { allocations = without addr b.allocations })
    else fault

-- An alignment below 8 is replaced by bit 3, which the width must have.
abbrev pub at_least_8 : ℕ → ℕ → Outcome ℕ
at_least_8 w align = if ltb align 8 then (check (ltb 3 w) >> done 8) else done align

module _ (A : ApInt) where
  -- `current += align - 1; current &= ~(align - 1)`
  abbrev pub round_up : ℕ → ℕ → ℕ → ℕ
  round_up w current align =
      let low = A.ap_sub w align 1 in A.ap_and w (A.ap_add w current low) (A.ap_not w low)

  -- What is left of the range from an address on.
  abbrev pub room : BumpAllocator → ℕ → ℕ
  room b current = A.ap_sub b.width b.size (A.ap_sub b.width current b.base)

  abbrev pub take : BumpAllocator → ℕ → ℕ → Option ℕ × BumpAllocator
  take b current size =
      if A.ap_ult b.width (room b current) size then (none, record b { current = current }) else (
        some current,
        record b { current = A.ap_add b.width current size; allocations = current ∷ b.allocations },
      )

  unfoldable pub allocate : BumpAllocator → ℕ → ℕ → Outcome (Option ℕ × BumpAllocator)
  allocate b size align = do
    check (align == 0 || A.ap_is_power b.width align)
    align' ← at_least_8 b.width align
    done (take b (round_up b.width b.current align') (A.ap_add b.width size 8))
