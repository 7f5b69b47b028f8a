-- ===== src/Adt/SlotMap/Tests.antt =====
-- SlotMap.h: runs on small maps, and the theorems at inputs that meet their conditions.
use caffeine.Prelude.{
  ℕ, suc, zero, inl, In, ◌<◌, ◌≡◌, ◌⊎◌, ◌↔◌, refl, none, some, List, [], ◌∷◌, arith, if◌then◌else◌,
  done, throws, fault, get_elem?,
}
use caffeine.Adt.FreeList.{no_head}
use caffeine.Adt.SlotMap.{
  Cell, next, value, Entry, SlotMap, Key, empty, emplace, remove, at, find, end, keys, decrement,
  clear,
}
use caffeine.Adt.SlotMap.Invariant.{IsWf, link_of}
use caffeine.Adt.SlotMap.Access.{key_eq, emplace-at, emplace_throws, remove-at, past_end_faults}
use caffeine.Adt.SlotMap.Iteration.{Has, Ascending, keys-at, decrement-free}
use caffeine.Adt.SlotMap.History.{emplaces, call, run, remove-run}
use caffeine.Adt.SlotMap.Clear.{building, clear_reuses}

-- A value, a free cell and a value.
abbrev mixed : SlotMap ℕ
mixed = record {
  entries =
      record { cell = value 7; gen = 0 }
      ∷ record { cell = next no_head; gen = 3 }
      ∷ record { cell = value 9; gen = 1 }
      ∷ [];
  head = 1;
}

mixed_covers : (i n : ℕ) → link_of (get_elem? mixed.entries i) ≡ some n → In i (1 ∷ [])
mixed_covers zero n p = cc
mixed_covers (suc zero) n p = inl refl
mixed_covers (suc (suc zero)) n p = cc
mixed_covers (suc (suc (suc i))) n p = cc

mixed_within : (i n : ℕ) → link_of (get_elem? mixed.entries i) ≡ some n → i < 3
mixed_within zero n p = cc
mixed_within (suc zero) n p = omega arith
mixed_within (suc (suc zero)) n p = cc
mixed_within (suc (suc (suc i))) n p = cc

mixed-IsWf : IsWf mixed
mixed-IsWf = record {
  cells = 1 ∷ [];
  chain = (refl, (no_head, refl, refl));
  distinct = (tt, tt);
  covers = mixed_covers;
  within = mixed_within;
  fits = omega arith;
}

emplace-mixed :
    emplace mixed (some 4)
    ≡ done (
      some (1, 3),
      record mixed {
        entries =
            record { cell = value 7; gen = 0 }
            ∷ record { cell = value 4; gen = 3 }
            ∷ record { cell = value 9; gen = 1 }
            ∷ [];
        head = no_head;
      },
    )
unfolding emplace
emplace-mixed = refl

keys-mixed : keys mixed ≡ done ((0, 0) ∷ (2, 1) ∷ [])
unfolding keys
keys-mixed = refl

decrement-mixed : (decrement mixed 3 ≡ done 1) × (decrement mixed 1 ≡ fault)
unfolding decrement caffeine.Adt.SlotMap.has_value
decrement-mixed = (refl, refl)

emplace-at_example :
    (k : Key) × (m' : SlotMap ℕ) × (emplace mixed (some 4) ≡ done (some k, m'))
    × IsWf m'
    × (at mixed k ≡ throws)
    × ((j : Key) → at m' j ≡ (if key_eq k j then done 4 else at mixed j))
emplace-at_example = emplace-at mixed 4 mixed-IsWf (omega arith)

emplace_throws_example :
    (m' : SlotMap ℕ) × (emplace mixed none ≡ done (none, m'))
    × IsWf m'
    × ((j : Key) → at m' j ≡ at mixed j)
emplace_throws_example = emplace_throws mixed mixed-IsWf (omega arith)

remove-at_example :
    ((v : ℕ) × (m' : SlotMap ℕ) × (at mixed (2, 1) ≡ done v)
      × (remove mixed (2, 1) ≡ done (some v, m'))
      × IsWf m'
      × ((j : Key) → at m' j ≡ (if key_eq (2, 1) j then throws else at mixed j)))
    ⊎ ((at mixed (2, 1) ≡ throws) × (remove mixed (2, 1) ≡ done (none, mixed)))
remove-at_example = remove-at mixed (2, 1) mixed-IsWf (omega arith)

past_end_faults_example :
    (at mixed (3, 0) ≡ throws) × (remove mixed (3, 0) ≡ fault) × (find mixed (3, 0) ≡ fault)
past_end_faults_example = past_end_faults mixed 0

keys-at_example :
    (ks : List Key) × (keys mixed ≡ done ks)
    × Ascending 0 ks
    × ((k : Key) → Has k ks ↔ ((v : ℕ) × (at mixed k ≡ done v)))
keys-at_example = keys-at mixed

decrement-free_example :
    (decrement mixed 3 ≡ fault)
    ⊎ ((j : ℕ) × (n : ℕ) × (x : Entry ℕ) × (decrement mixed 3 ≡ done j)
        × (j < 3)
        × (get_elem? mixed.entries j ≡ some x)
        × (x.cell ≡ next n))
decrement-free_example = decrement-free mixed 3

-- `mixed` with its last value taken out, and with its cell reused.
abbrev removed : SlotMap ℕ
removed = record {
  entries =
      record { cell = value 7; gen = 0 }
      ∷ record { cell = next no_head; gen = 3 }
      ∷ record { cell = next 1; gen = 2 }
      ∷ [];
  head = 2;
}

abbrev reused : SlotMap ℕ
reused = record {
  entries =
      record { cell = value 7; gen = 0 }
      ∷ record { cell = next no_head; gen = 3 }
      ∷ record { cell = value 5; gen = 2 }
      ∷ [];
  head = 1;
}

remove-run_example : at reused (2, 1) ≡ throws
remove-run_example =
    remove-run (2, 1) 9 (emplaces (some 5) ∷ []) mixed removed reused mixed-IsWf
      (unfold remove in refl) (omega arith) (omega arith) (unfold run call emplace in refl)

-- `mixed` without its first value.
abbrev beheaded : SlotMap ℕ
beheaded = record {
  entries =
      record { cell = next 1; gen = 1 }
      ∷ record { cell = next no_head; gen = 3 }
      ∷ record { cell = value 9; gen = 1 }
      ∷ [];
  head = 0;
}

clear_reuses_example :
    (m' : SlotMap ℕ) × (at beheaded (0, 0) ≡ throws)
    × (run (clear beheaded) (building (5 ∷ 6 ∷ [])) ≡ done m')
    × (at m' (0, 0) ≡ done 5)
clear_reuses_example =
    clear_reuses mixed beheaded 0 7 5 (5 ∷ 6 ∷ []) mixed-IsWf (unfold remove in refl) refl
