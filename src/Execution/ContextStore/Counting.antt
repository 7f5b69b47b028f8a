-- ===== src/Execution/ContextStore/Counting.antt =====
-- Counting the readers of a context store by what they do.
use caffeine.Prelude.{
  Bool-cases, ℕ, zero, suc, ◌+◌, ◌≤◌, ◌<◌, ◌≡◌, refl, ap, subst, inl, inr, Bool, true, false, not,
  ◌||◌, some, arith, List, [], ◌∷◌,
}
use caffeine.Prelude.{length, get_elem?, set, map, ◌++◌}
use caffeine.Execution.ContextStore.System.{
  Reader, running, waiting, stopped, Notice, one, all, notified, notify_all,
}

abbrev pub is_running : Reader → Bool
is_running running = true
is_running (waiting _) = false
is_running stopped = false

abbrev pub is_waiting : Reader → Bool
is_waiting running = false
is_waiting (waiting _) = true
is_waiting stopped = false

-- Waiting, and not notified.
abbrev pub is_asleep : Reader → Bool
is_asleep running = false
is_asleep (waiting b) = not b
is_asleep stopped = false

abbrev pub bit : Bool → ℕ
bit true = 1
bit false = 0

unfoldable pub count : (Reader → Bool) → List Reader → ℕ
count p [] = 0
count p (r ∷ rs) = bit (p r) + count p rs

pub count-set :
    (p : Reader → Bool) (rs : List Reader) (i : ℕ) (r v : Reader)
    → get_elem? rs i ≡ some r
    → count p (set rs i v) + bit (p r) ≡ count p rs + bit (p v)
unfolding count
count-set p [] i r v e = cc
count-set p (x ∷ rs) zero r v e = let same : x ≡ r = ground arith in rw same (omega arith)
count-set p (x ∷ rs) (suc i) r v e = omega (arith, count-set p rs i r v e)

pub count-pos :
    (p : Reader → Bool) (rs : List Reader) (i : ℕ) (r : Reader)
    → get_elem? rs i ≡ some r
    → p r ≡ true
    → 0 < count p rs
unfolding count
count-pos p [] i r e h = cc
count-pos p (x ∷ rs) zero r e h = let same : x ≡ r = ground arith in rw (same, h) (omega arith)
count-pos p (x ∷ rs) (suc i) r e h = omega (arith, count-pos p rs i r e h)

-- A count above zero counts some reader.
pub count-some :
    (p : Reader → Bool) (rs : List Reader)
    → 0 < count p rs
    → (i : ℕ) × (r : Reader) × (get_elem? rs i ≡ some r) × (p r ≡ true)
unfolding count
count-some p [] h = absurd (omega arith)
count-some p (x ∷ rs) h = elim (Bool-cases (p x)) [
  | inl e ↦ (0, x, refl, e)
  | inr e ↦
      let below : 0 < count p rs = subst (λ b. 0 < b) (rw e (omega arith)) h in
      let (i, r, got, holds) = count-some p rs below in (suc i, r, got, holds)
]

pub count_parts :
    (rs : List Reader)
    → count is_running rs + count is_waiting rs + count (λ r. not (is_running r || is_waiting r)) rs
      ≡ length rs
unfolding count
count_parts [] = refl
count_parts (running ∷ rs) = omega (arith, count_parts rs)
count_parts (waiting b ∷ rs) = omega (arith, count_parts rs)
count_parts (stopped ∷ rs) = omega (arith, count_parts rs)

abbrev pub is_stopped : Reader → Bool
is_stopped r = not (is_running r || is_waiting r)

pub asleep-le : (rs : List Reader) → count is_asleep rs ≤ count is_waiting rs
unfolding count
asleep-le [] = omega arith
asleep-le (running ∷ rs) = omega (arith, asleep-le rs)
asleep-le (waiting true ∷ rs) = omega (arith, asleep-le rs)
asleep-le (waiting false ∷ rs) = omega (arith, asleep-le rs)
asleep-le (stopped ∷ rs) = omega (arith, asleep-le rs)

module _ (rs : List Reader) where
  pub notify_all-length : length (notify_all rs) ≡ length rs
  unfolding notify_all
  notify_all-length = go rs
    where
      go : (rs : List Reader) → length (map notified rs) ≡ length rs
      go [] = refl
      go (r ∷ rs) = ap suc (go rs)

pub notify_all-get_elem? :
    (rs : List Reader) (i : ℕ)
    → get_elem? rs i ≡ some running
    → get_elem? (notify_all rs) i ≡ some running
unfolding notify_all
notify_all-get_elem? [] i e = cc
notify_all-get_elem? (r ∷ rs) zero e = let same : r ≡ running = ground arith in rw same refl
notify_all-get_elem? (r ∷ rs) (suc i) e = notify_all-get_elem? rs i e

pub notify_all-running : (rs : List Reader) → count is_running (notify_all rs) ≡ count is_running rs
unfolding notify_all count
notify_all-running [] = refl
notify_all-running (running ∷ rs) = omega (arith, notify_all-running rs)
notify_all-running (waiting b ∷ rs) = omega (arith, notify_all-running rs)
notify_all-running (stopped ∷ rs) = omega (arith, notify_all-running rs)

pub notify_all-waiting : (rs : List Reader) → count is_waiting (notify_all rs) ≡ count is_waiting rs
unfolding notify_all count
notify_all-waiting [] = refl
notify_all-waiting (running ∷ rs) = omega (arith, notify_all-waiting rs)
notify_all-waiting (waiting b ∷ rs) = omega (arith, notify_all-waiting rs)
notify_all-waiting (stopped ∷ rs) = omega (arith, notify_all-waiting rs)

pub notify_all-asleep : (rs : List Reader) → count is_asleep (notify_all rs) ≡ 0
unfolding notify_all count
notify_all-asleep [] = refl
notify_all-asleep (running ∷ rs) = omega (arith, notify_all-asleep rs)
notify_all-asleep (waiting b ∷ rs) = omega (arith, notify_all-asleep rs)
notify_all-asleep (stopped ∷ rs) = omega (arith, notify_all-asleep rs)

-- The notifications under way.
unfoldable pub has_all : List Notice → Bool
has_all [] = false
has_all (one ∷ ns) = has_all ns
has_all (all ∷ ns) = true

unfoldable pub ones : List Notice → ℕ
ones [] = 0
ones (one ∷ ns) = suc (ones ns)
ones (all ∷ ns) = ones ns

pub ones-removed :
    (before after : List Notice) → ones (before ++ one ∷ after) ≡ suc (ones (before ++ after))
unfolding ones
ones-removed [] after = refl
ones-removed (one ∷ before) after = ap suc (ones-removed before after)
ones-removed (all ∷ before) after = ones-removed before after

pub has_all-removed :
    (before after : List Notice) → has_all (before ++ one ∷ after) ≡ has_all (before ++ after)
unfolding has_all
has_all-removed [] after = refl
has_all-removed (one ∷ before) after = has_all-removed before after
has_all-removed (all ∷ before) after = refl
