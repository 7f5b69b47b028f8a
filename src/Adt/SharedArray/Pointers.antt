-- ===== src/Adt/SharedArray/Pointers.antt =====
-- SharedArray.h and SharedArray.cpp with the variants that copies share in a store of their own: a
-- std::shared_ptr is its place in the store, in the order of the calls of std::make_shared.
pub mod View
pub mod Copied
pub mod Stored
pub mod Apart
use caffeine.Prelude.{
  ltb, leb, ◌==◌, if◌then◌else◌, ltb→lt, ==_iff, ==_refl, Bool-cases, Option-cases, Outcome, done,
  throws, fault, ◌>>=◌, ◌>>◌, check, or_fault, or_throw, done-injective, Outcome-cases, >>=-eq-done,
  ℕ, zero, suc, ◌+◌, ◌-◌, ◌*◌, ◌/◌, ◌%◌, ◌^◌, ◌≤◌, ◌<◌, ◌≡◌, refl, sym, ap, ◌∙◌, subst, ◌≢◌, ◌↔◌,
  ◌⊎◌, inl, inr, Bool, true, false, not, ◌&&◌, ◌||◌, Option, none, some, arith, List, [], ◌∷◌,
}
use caffeine.Prelude.{length, get_elem?, set, ◌++◌}
use caffeine.Adt.SharedArray.{min_copy_size, over_threshold, find, assign}

-- A variant: the vector, or changes over the variant that a pointer leads to.
pub data Data {ℓ} (A : Type ℓ) : Type ℓ where
  vector : List A → Data A
  changed : ℕ → List (ℕ × A) → Data A

abbrev pub Heap {ℓ} : Type ℓ → Type ℓ
Heap A = List (Data A)

pub record Handle {ℓ} (A : Type ℓ) : Type ℓ where
  pub content : Data A
  pub modcnt : ℕ
  pub size : ℕ

module _ {ℓ} {A : Type ℓ} where
  -- Modified::operator[], which follows the pointers down to a vector.
  unfoldable pub follow : ℕ → Heap A → ℕ → List (ℕ × A) → ℕ → Outcome A
  unfolding find
  follow zero h p ch i = fault
  follow (suc fuel) h p ch i = elim (find i ch) [
    | some a ↦ done a
    | none ↦ or_fault (get_elem? h p) >>= λ d. elim d [
      | vector xs ↦ or_throw (get_elem? xs i)
      | changed q below ↦ follow fuel h q below i
    ]
  ]

  -- A pointer leads to an older variant, so that the fuel is enough.
  unfoldable pub element : Heap A → Data A → ℕ → Outcome A
  unfolding follow
  element h (vector xs) i = or_fault (get_elem? xs i)
  element h (changed p ch) i = follow (length h + 1) h p ch i

  unfoldable pub load_through : Heap A → Handle A → ℕ → Outcome A
  unfolding element
  load_through h s i = check (ltb i s.size) >>= λ _. element h s.content i

  -- A new shared variant behind the data, where they are large.
  unfoldable pub share : Heap A → Data A → ℕ → Heap A × Data A
  share h d n = if leb n min_copy_size then (h, d) else (h ++ d ∷ [], changed (length h) [])

  abbrev pub data_size : Data A → ℕ
  data_size (vector xs) = length xs
  data_size (changed p ch) = length ch

  -- operator=(const SharedArray&): the store, the source after it and the target.
  unfoldable pub copy_through : Heap A → Handle A → Heap A × Handle A × Handle A
  unfolding share
  copy_through h s =
      let copied = share h s.content (data_size s.content) in
      (
        copied.0,
        record s { content = copied.1 },
        record { content = copied.1; modcnt = s.modcnt; size = s.size },
      )

  unfoldable pub loads_through : Heap A → Handle A → ℕ → ℕ → Outcome (List A)
  unfolding load_through
  loads_through h s i zero = done []
  loads_through h s i (suc rounds) =
      load_through h s i >>= λ a. loads_through h s (i + 1) rounds >>= λ rest. done (a ∷ rest)

  -- flatten on the alternative with changes.
  unfoldable pub flatten_through : Heap A → Handle A → Outcome (Heap A × Handle A)
  unfolding loads_through
  flatten_through h s =
      loads_through h s 0 s.size >>= λ xs. done (h, record s { content = vector xs })

module _ {ℓ} {A : Type ℓ} (same : A → A → Bool) where
  -- store on the map of changes. It gives the store back, which it could have written.
  unfoldable pub store_change_through :
      Heap A → Handle A → ℕ → List (ℕ × A) → ℕ → A → Outcome (Heap A × Handle A)
  unfolding follow find assign flatten_through
  store_change_through h s p ch i a = elim (find i ch) [
    | some _ ↦ done (h, record s { content = changed p (assign i a ch) })
    | none ↦ follow (length h + 1) h p ch i >>= λ old.
        if same old a
        then done (h, s)
        else let s' = record s { content = changed p ((i, a) ∷ ch); modcnt = s.modcnt + 1 } in
          if over_threshold s'.modcnt s'.size then flatten_through h s' else done (h, s')
  ]

  unfoldable pub store_content_through :
      Heap A → Handle A → Data A → ℕ → A → Outcome (Heap A × Handle A)
  unfolding store_change_through
  store_content_through h s (vector xs) i a =
      if ltb i (length xs) then done (h, record s { content = vector (set xs i a) }) else throws
  store_content_through h s (changed p ch) i a = store_change_through h s p ch i a

  unfoldable pub store_through : Heap A → Handle A → ℕ → A → Outcome (Heap A × Handle A)
  unfolding store_content_through
  store_through h s i a = check (ltb i s.size) >>= λ _. store_content_through h s s.content i a
