-- ===== src/Adt/SlotMap/Clear.antt =====
-- slot_map::clear of SlotMap.h: what the keys that were given out before it read after it.
use caffeine.Prelude.{
  done, throws, ℕ, zero, suc, ◌+◌, ◌≤◌, ◌≡◌, refl, ap, ◌∙◌, Option, none, some, arith, List, [],
  ◌∷◌,
}
use caffeine.Prelude.{length, get_elem?, ◌++◌, get_elem?-append_self, set-append_self}
use caffeine.Adt.FreeList.{no_head}
use caffeine.Adt.SlotMap.{next, value, Entry, SlotMap, next_slot, emplace, remove, at, clear}
use caffeine.Adt.SlotMap.Invariant.{IsWf}
use caffeine.Adt.SlotMap.History.{Call, emplaces, call, run, remove-run}

module _ {ℓ} {A : Type ℓ} where
  -- New slots that were filled one after the other.
  abbrev fresh : List A → List (Entry A)
  fresh [] = []
  fresh (w ∷ ws) = record { cell = value w; gen = 0 } ∷ fresh ws

  -- Calls that build the elements.
  abbrev pub building : List A → List (Call A)
  building [] = []
  building (w ∷ ws) = emplaces (some w) ∷ building ws

  fresh-index :
      (ws : List A) (i : ℕ) (w : A)
      → get_elem? ws i ≡ some w
      → get_elem? (fresh ws) i ≡ some (record { cell = value w; gen = 0 })
  fresh-index [] i w p = cc
  fresh-index (x ∷ ws) zero w p = ap {B = Option (Entry A)} (λ o. fresh_of o) p
    where
      fresh_of : Option A → Option (Entry A)
      fresh_of none = none
      fresh_of (some x) = some (record { cell = value x; gen = 0 })
  fresh-index (x ∷ ws) (suc i) w p = fresh-index ws i w p

  append_assoc :
      (xs : List (Entry A)) (e : Entry A) (ys : List (Entry A))
      → (xs ++ e ∷ []) ++ ys ≡ xs ++ e ∷ ys
  append_assoc [] e ys = refl
  append_assoc (x ∷ xs) e ys = ap (◌∷◌ x) (append_assoc xs e ys)

  append_nil : (xs : List (Entry A)) → xs ++ [] ≡ xs
  append_nil [] = refl
  append_nil (x ∷ xs) = ap (◌∷◌ x) (append_nil xs)

  -- Where no slot is free, the element is built in a new one.
  build_last :
      (es : List (Entry A)) (w : A)
      → call (record { entries = es; head = no_head }) (emplaces (some w))
        ≡ done (record { entries = es ++ record { cell = value w; gen = 0 } ∷ []; head = no_head })
  unfolding call emplace next_slot
  build_last es w =
      rw
        (
          get_elem?-append_self es (record { cell = next no_head; gen = 0 }),
          set-append_self es (record { cell = next no_head; gen = 0 })
              (record { cell = value w; gen = 0 }),
        )
        refl

  run-building :
      (ws : List A) (es : List (Entry A))
      → run (record { entries = es; head = no_head }) (building ws)
        ≡ done (record { entries = es ++ fresh ws; head = no_head })
  unfolding run
  run-building [] es = rw (append_nil es) refl
  run-building (w ∷ ws) es = rw (build_last es w) (
      run-building ws (es ++ record { cell = value w; gen = 0 } ∷ [])
      ∙ rw (append_assoc es (record { cell = value w; gen = 0 }) (fresh ws)) refl)

  clear-building :
      (m : SlotMap A) (ws : List A)
      → run (clear m) (building ws) ≡ done (record { entries = fresh ws; head = no_head })
  unfolding clear
  clear-building m ws = run-building ws []

  -- After `clear` the generations start again: a key of generation 0 whose element was removed before
  -- the call, and which read nothing then, reads an element that is built after it, the one whose
  -- place in the order of building is the index of the key.
  pub clear_reuses :
      (m m₁ : SlotMap A) (i : ℕ) (v w : A) (ws : List A)
      → IsWf m
      → remove m (i, 0) ≡ done (some v, m₁)
      → get_elem? ws i ≡ some w
      → (m' : SlotMap A) × (at m₁ (i, 0) ≡ throws)
        × (run (clear m₁) (building ws) ≡ done m')
        × (at m' (i, 0) ≡ done w)
  clear_reuses m m₁ i v w ws wf removed here =
      let none_left : List (Call A) = [] in
      let fits : length m.entries + length none_left ≤ no_head = omega (arith, wf.fits) in
      let ran : run m₁ [] ≡ done m₁ = unfold run in refl in
      (
        record { entries = fresh ws; head = no_head },
        remove-run (i, 0) v [] m m₁ m₁ wf removed fits (omega arith) ran,
        clear-building m₁ ws,
        unfold at in rw (fresh-index ws i w here) refl,
      )
