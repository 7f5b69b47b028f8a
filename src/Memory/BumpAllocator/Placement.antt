-- ===== src/Memory/BumpAllocator/Placement.antt =====
-- Where an allocation lies.
use caffeine.Prelude.{
  ltb, ◌==◌, if◌then◌else◌, ltb→lt, ==_refl, Bool-cases, done, check, done-injective, >>=-eq-done,
  ℕ, suc, ◌+◌, ◌-◌, ◌*◌, ◌/◌, ◌^◌, ◌≤◌, ◌<◌, ◌≡◌, refl, sym, ap, ◌∙◌, subst, ◌⊎◌, inl, inr, Bool,
  true, false, ◌||◌, Option, none, some, arith, ◌∷◌,
}
use caffeine.Prelude.Bits.{pow_pos}
use caffeine.Apint.{ApInt, ApIntLaws}
use caffeine.Apint.Bounds.{pow_mono}
use caffeine.Apint.Masks.{shift_back, pow_add}
use caffeine.Apint.Rounding.{
  next_multiple, le-next_multiple, next_multiple-le, multiple_gap, ap_sub-le, ap_add-small,
}
use caffeine.Memory.BumpAllocator.{
  BumpAllocator, round_up, room, take, allocate, at_least_8, deallocate,
}
use native.Mathlib.Nat.{mod-eq_of_lt, div-mul-le_self, pow-suc}
use caffeine.Prelude.{dec_lt}

-- The next free address lies in the range, whose end is a number of the width.
abbrev pub IsBump : BumpAllocator → Type 0
IsBump b = (b.base ≤ b.current) × (b.current ≤ b.base + b.size) × (b.base + b.size < 2 ^ b.width)

-- The result of an allocation of `size` bytes at a multiple of `align`.
abbrev pub Placed : BumpAllocator → ℕ → ℕ → Option ℕ → BumpAllocator → Type 0
Placed b size align found b' =
    ((found ≡ none) × (b'.allocations ≡ b.allocations))
    ⊎ ((pos : ℕ) × (m : ℕ) × (found ≡ some pos)
        × (pos ≡ m * align)
        × (b.current ≤ pos)
        × (pos + (size + 8) ≡ b'.current)
        × (b'.allocations ≡ pos ∷ b.allocations))

pow_lt : (k w : ℕ) → k < w → 2 ^ k < 2 ^ w
pow_lt k w h = omega (arith, pow_mono (suc k) w h, pow-suc 2 k, pow_pos k)

lt_of_pow : (k w : ℕ) → 2 ^ k < 2 ^ w → k < w
lt_of_pow k w h = elim (dec_lt k w) [
  | yes lt ↦ lt
  | no ge ↦ absurd (omega (arith, h, pow_mono w k (not_lt k w ge)))
]
  where
    not_lt : (k w : ℕ) → (k < w → ⊥) → w ≤ k
    not_lt k w ge = omega (arith, ge)

-- Above a multiple that is below the power there is place for one more.
multiple_below : (k w q : ℕ) → k < w → q * 2 ^ k < 2 ^ w → q * 2 ^ k + 2 ^ k ≤ 2 ^ w
multiple_below k w q h lt =
    let whole : 2 ^ w ≡ 2 ^ (w - k) * 2 ^ k = ap (λ n. 2 ^ n) (omega arith) ∙ pow_add (w - k) k in
    let gap = multiple_gap (2 ^ k) q (2 ^ (w - k)) (omega (arith, whole)) in
    omega (arith, gap, whole)

module _ (A : ApInt) (laws : ApIntLaws A) where
  round_up-next_multiple :
      (w k c q : ℕ)
      → k < w
      → q * 2 ^ k < 2 ^ w
      → c ≤ q * 2 ^ k
      → round_up A w c (2 ^ k) ≡ next_multiple (2 ^ k) c
  round_up-next_multiple w k c q h lt le =
      let gap = multiple_below k w q h lt in
      let pos = pow_pos k in
      let small = pow_lt k w h in
      let y = c + (2 ^ k - 1) in
      let ly : y < 2 ^ w = omega (arith, gap, pos) in
      let low : A.ap_sub w (2 ^ k) 1 ≡ 2 ^ k - 1 =
        ap_sub-le A laws w (2 ^ k) 1 small (omega (arith, pos)) in
      let high : A.ap_not w (2 ^ k - 1) ≡ 2 ^ w - 2 ^ k =
        laws.not_law w (2 ^ k - 1) (omega (arith, small, pos)) ∙ omega (arith, small, pos) in
      ap (λ n. A.ap_and w (A.ap_add w c n) (A.ap_not w n)) low
      ∙ ap (A.ap_and w (A.ap_add w c (2 ^ k - 1))) high
      ∙ ap (λ n. A.ap_and w n (2 ^ w - 2 ^ k)) (ap_add-small A laws w c (2 ^ k - 1) ly)
      ∙ laws.and_law w y (2 ^ w - 2 ^ k) ly (omega (arith, small, pos))
      ∙ sym (shift_back w y k ly h)
      ∙ mod-eq_of_lt (omega (arith, ly, div-mul-le_self y (2 ^ k)))

  take-Placed :
      (b : BumpAllocator) (size k pos q m : ℕ)
      → IsBump b
      → b.current ≤ pos
      → pos ≡ m * 2 ^ k
      → pos ≤ b.base + b.size
      → size + 8 < 2 ^ b.width
      → IsBump (take A b pos (size + 8)).1
        × (b.current ≤ (take A b pos (size + 8)).1.current)
        × Placed b size (2 ^ k) (take A b pos (size + 8)).0 (take A b pos (size + 8)).1
  take-Placed b size k pos q m (lo, hi, end) after multiple inside small =
      let offset : A.ap_sub b.width pos b.base ≡ pos - b.base =
        ap_sub-le A laws b.width pos b.base (omega (arith, inside, end))
          (omega (arith, lo, after)) in
      let left : room A b pos ≡ b.size - (pos - b.base) =
        ap (A.ap_sub b.width b.size) offset
        ∙ ap_sub-le A laws b.width b.size (pos - b.base) (omega (arith, end))
            (omega (arith, inside, lo, after)) in
      elim (Bool-cases (ltb (b.size - (pos - b.base)) (size + 8))) [
        | inl p ↦
            (let full : A.ap_ult b.width (room A b pos) (size + 8) ≡ true =
                laws.ult_law b.width (room A b pos) (size + 8)
                ∙ ap (λ n. ltb n (size + 8)) left
                ∙ p in
              rw full ((omega (arith, lo, after), inside, end), after, inl (refl, refl)))
        | inr p ↦
            (let free : A.ap_ult b.width (room A b pos) (size + 8) ≡ false =
                laws.ult_law b.width (room A b pos) (size + 8)
                ∙ ap (λ n. ltb n (size + 8)) left
                ∙ p in
              let fits : size + 8 ≤ b.size - (pos - b.base) = ground (arith, p) in
              let sum : A.ap_add b.width pos (size + 8) ≡ pos + (size + 8) =
                ap_add-small A laws b.width pos (size + 8)
                  (omega (arith, fits, inside, end, lo, after)) in
              rw (free, sum)
                (
                  (omega (arith, lo, after), omega (arith, fits, inside, lo, after), end),
                  omega (arith, after),
                  inr (pos, m, refl, multiple, after, refl, refl),
                ))
      ]

  -- The alignment that is used: 8, or the power of 2 that was asked for.
  used_power :
      (w align : ℕ)
      → 3 < w
      → align < 2 ^ w
      → (align == 0 || A.ap_is_power w align) ≡ true
      → (k : ℕ) × (k < w)
        × (at_least_8 w align ≡ done (2 ^ k))
        × (8 ≤ 2 ^ k)
        × (align ≤ 2 ^ k)
        × ((n : ℕ) → 8 ≤ n → align ≤ n → 2 ^ k ≤ n)
  used_power w align wide small h = elim (Bool-cases (ltb align 8)) [
    | inl p ↦
        (let bit3 : ltb 3 w ≡ true = ground arith in
          let less = ltb→lt align 8 p in
          (
            3,
            wide,
            rw (p, bit3) refl,
            omega arith,
            omega (arith, less),
            λ n h8 ha. omega (arith, h8),
          ))
    | inr p ↦
        (let more : 8 ≤ align = ground (arith, p) in
          let nonzero : (align == 0) ≡ false = ground (arith, more) in
          let power : A.ap_is_power w align ≡ true = sym (rw nonzero refl) ∙ h in
          let (k, e) = laws.power_law w align power in
          let fits : 2 ^ k < 2 ^ w = omega (arith, e, small) in
          (
            k,
            lt_of_pow k w fits,
            rw p (ap done e),
            omega (arith, e, more),
            omega (arith, e),
            λ n h8 ha. omega (arith, e, ha),
          ))
  ]

  -- A multiple of a power of 2 is one of a smaller power.
  smaller_power : (j k q : ℕ) → j ≤ k → q * 2 ^ k ≡ q * 2 ^ (k - j) * 2 ^ j
  smaller_power j k q le =
      let whole : 2 ^ k ≡ 2 ^ (k - j) * 2 ^ j = ap (λ n. 2 ^ n) (omega arith) ∙ pow_add (k - j) j in
      rw whole (grind arith)

  le_of_pow : (j k : ℕ) → 2 ^ j ≤ 2 ^ k → j ≤ k
  le_of_pow j k h = elim (dec_lt k j) [
    | yes lt ↦ absurd (omega (arith, h, pow_lt k j lt))
    | no ge ↦ omega (arith, ge)
  ]

  -- With APInt as documented: take numbers of more than 3 bits, a next free address in the
  -- range, and an end of the range that is a number of the width and a multiple of a power of 2
  -- of at least 8 and the alignment. An allocation whose size is at least 9 below the power of
  -- the width, and whose alignment is 0 or a power of 2, then ends without a failed assertion.
  -- It finds no place, or an address that is a multiple of a power of 2 of at least 8 and the
  -- alignment, not below the free address before, and the size and 8 bytes below the one after,
  -- which still lies in the range.
  pub allocate-Placed :
      (b : BumpAllocator) (size align k q : ℕ)
      → IsBump b
      → 3 < b.width
      → align < 2 ^ b.width
      → (align == 0 || A.ap_is_power b.width align) ≡ true
      → 8 ≤ 2 ^ k
      → align ≤ 2 ^ k
      → b.base + b.size ≡ q * 2 ^ k
      → size + 8 < 2 ^ b.width
      → (j : ℕ) × (found : Option ℕ) × (b' : BumpAllocator) × (8 ≤ 2 ^ j)
        × (align ≤ 2 ^ j)
        × (allocate A b size align ≡ done (found, b'))
        × IsBump b'
        × (b.current ≤ b'.current)
        × Placed b size (2 ^ j) found b'
  unfolding allocate
  allocate-Placed b size align k q bump wide small power eight above whole more =
      let w = b.width in
      let (lo, hi, end) = bump in
      let (j, fits, used, eight', above', least) = used_power w align wide small power in
      let smaller = le_of_pow j k (least (2 ^ k) eight above) in
      let n = q * 2 ^ (k - j) in
      let whole' : b.base + b.size ≡ n * 2 ^ j = whole ∙ smaller_power j k q smaller in
      let pos = next_multiple (2 ^ j) b.current in
      let m = (b.current + (2 ^ j - 1)) / 2 ^ j in
      let within : b.current ≤ n * 2 ^ j = omega (arith, hi, whole') in
      let after = le-next_multiple (2 ^ j) b.current (pow_pos j) in
      let inside : pos ≤ b.base + b.size =
        omega (arith, next_multiple-le (2 ^ j) b.current n (pow_pos j) within, whole') in
      let rounded =
        round_up-next_multiple w j b.current n fits (omega (arith, end, whole')) within in
      let added = ap_add-small A laws w size 8 more in
      let result = take A b pos (size + 8) in
      let run : allocate A b size align ≡ done result =
        rw (power, used)
          (ap done (ap (λ c. take A b c (A.ap_add w size 8)) rounded ∙ ap (take A b pos) added)) in
      let (bump', grows, placed) = take-Placed b size j pos n m bump after refl inside more in
      (j, result.0, result.1, eight', above', run, bump', grows, placed)

  taken :
      (full : Bool) (b b' : BumpAllocator) (pos addr : ℕ) (used unused : BumpAllocator)
      → ◌≡◌ {A = Option ℕ × BumpAllocator}
          (if full then (none, unused) else (some pos, used))
          (some addr, b')
      → (pos ≡ addr) × (used ≡ b')
  taken true b b' pos addr used unused h = let no : none ≡ some addr = ap (λ r. r.0) h in absurd cc
  taken false b b' pos addr used unused h =
      let found : some pos ≡ some addr = ap (λ r. r.0) h in (cc, ap (λ r. r.1) h)

  take-deallocate :
      (b : BumpAllocator) (pos size addr : ℕ) (b' : BumpAllocator)
      → ◌≡◌ {A = Option ℕ × BumpAllocator} (take A b pos size) (some addr, b')
      → deallocate b' addr ≡ done (record b' { allocations = b.allocations })
  unfolding deallocate
  take-deallocate b pos size addr b' h =
      let used : BumpAllocator = record b {
        current = A.ap_add b.width pos size;
        allocations = pos ∷ b.allocations;
      } in
      let (e, state) =
        taken (A.ap_ult b.width (room A b pos) size) b b' pos addr used (record b { current = pos })
          h in
      subst (λ c. deallocate c addr ≡ done (record c { allocations = b.allocations })) state
        (rw (e, ==_refl addr) refl)

  -- With APInt as documented: an address that was just allocated can be given back: the call
  -- ends without a failed assertion, and leaves the allocations that there were before; the
  -- bytes stay used.
  pub deallocate-allocate :
      (b : BumpAllocator) (size align addr : ℕ) (b' : BumpAllocator)
      → allocate A b size align ≡ done (some addr, b')
      → deallocate b' addr ≡ done (record b' { allocations = b.allocations })
  unfolding allocate
  deallocate-allocate b size align addr b' h =
      let (_, _, rest) = >>=-eq-done (check (align == 0 || A.ap_is_power b.width align)) _ h in
      let (align', _, last) = >>=-eq-done (at_least_8 b.width align) _ rest in
      let pos = round_up A b.width b.current align' in
      take-deallocate b pos (A.ap_add b.width size 8) addr b' (done-injective last)
