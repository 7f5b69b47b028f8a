-- ===== src/Adt/FreeList.antt =====
-- The free list that SlotMap.h and SparseVector.h thread through their unused cells.
-- A container shows its cells as `next`: `some n` for an unused cell that links to `n`,
-- `none` for a cell in use or out of range.
use mathlib.Core.Path.{fun_ext}
use caffeine.Prelude.{
  ℕ, suc, ◌-◌, ◌^◌, ◌≤◌, ◌<◌, ◌≡◌, ◌≢◌, refl, sym, ◌∙◌, inl, inr, Option, none, some, List, [], ◌∷◌,
  arith, subst, ℕ_discrete, In, Out, Distinct,
}

-- The value of `no_head`, the largest `size_t`.
abbrev pub no_head : ℕ
no_head = 2 ^ 64 - 1

-- The links lead from the head through the listed cells to `no_head`.
abbrev pub Chain : (ℕ → Option ℕ) → ℕ → List ℕ → Type 0
Chain next h [] = h ≡ no_head
Chain next h (i ∷ is) = (h ≡ i) × ((n : ℕ) × (next i ≡ some n) × Chain next n is)

-- The free list of a container with `len` cells: each unused cell stands on it exactly once.
pub record FreeList (next : ℕ → Option ℕ) (len head : ℕ) : Type 0 where
  pub cells : List ℕ
  pub chain : Chain next head cells
  pub distinct : Distinct cells
  pub covers : (i n : ℕ) → next i ≡ some n → In i cells
  pub within : (i n : ℕ) → next i ≡ some n → i < len
  pub fits : len ≤ no_head

Chain-cong :
    (f g : ℕ → Option ℕ) (j h : ℕ) (is : List ℕ)
    → ((i : ℕ) → i ≢ j → g i ≡ f i)
    → Out j is
    → Chain f h is
    → Chain g h is
Chain-cong f g j h [] same out c = c
Chain-cong f g j h (i ∷ is) same out (e, (n, link, rest)) =
    (e, (n, same i (λ p. out.0 (sym p)) ∙ link, Chain-cong f g j n is same out.1 rest))

Out-unused :
    (next : ℕ → Option ℕ) (j h : ℕ) (is : List ℕ) → next j ≡ none → Chain next h is → Out j is
Out-unused next j h [] used c = tt
Out-unused next j h (i ∷ is) used (e, (n, link, rest)) =
    (λ (p : j ≡ i). cc, Out-unused next j n is used rest)

In-tail : (a i : ℕ) (is : List ℕ) → a ≢ i → In a (i ∷ is) → In a is
In-tail a i is ne (inl e) = absurd (ne e)
In-tail a i is ne (inr m) = m

empty_covers :
    (next : ℕ → Option ℕ) (len h : ℕ) (is : List ℕ)
    → h ≡ no_head
    → ((i n : ℕ) → next i ≡ some n → i < len)
    → len ≤ no_head
    → Chain next h is
    → is ≡ []
empty_covers next len h [] e within fits c = refl
empty_covers next len h (i ∷ is) e within fits (p, (n, link, rest)) =
    absurd (omega (arith, within i n link))

-- A container whose head is `no_head` has no unused cell.
pub no_head-full :
    (next : ℕ → Option ℕ) {len h : ℕ}
    → FreeList next len h
    → h ≡ no_head
    → (i n : ℕ) → next i ≢ some n
no_head-full next l e i n p =
    subst (In i) (empty_covers next _ _ l.cells e l.within l.fits l.chain) (l.covers i n p)

head_unused :
    (next : ℕ → Option ℕ) (h : ℕ) (is : List ℕ)
    → h ≢ no_head
    → Chain next h is
    → (n : ℕ) × (next h ≡ some n)
head_unused next h [] ne c = absurd (ne c)
head_unused next h (i ∷ is) ne (p, (n, link, rest)) = (n, subst (λ x. next x ≡ some n) (sym p) link)

-- Any other head is an unused cell.
pub head-unused :
    (next : ℕ → Option ℕ) {len h : ℕ}
    → FreeList next len h
    → h ≢ no_head
    → (n : ℕ) × (next h ≡ some n)
head-unused next l ne = head_unused next _ l.cells ne l.chain

-- Both walk the chain one step: the head leaves the list, and its link is the new head.
pop_cells :
    (f g : ℕ → Option ℕ) {len h m : ℕ} (is : List ℕ)
    → h ≢ no_head
    → f h ≡ some m
    → g h ≡ none
    → ((i : ℕ) → i ≢ h → g i ≡ f i)
    → Chain f h is
    → Distinct is
    → ((i n : ℕ) → f i ≡ some n → In i is)
    → ((i n : ℕ) → f i ≡ some n → i < len)
    → len ≤ no_head
    → FreeList g len m
pop_cells f g [] ne link gone same c d cov within fits = absurd (ne c)
pop_cells f g {len} {h} {m} (x ∷ is) ne link gone same (e, (n, l, rest)) d cov within fits =
    record {
      cells = is;
      chain = Chain-cong f g h m is same out (subst (λ k. Chain f k is) link_eq rest);
      distinct = d.1;
      covers = λ i k p. In-tail i x is (λ q. off i k p (q ∙ sym e)) (cov i k (old i k p));
      within = λ i k p. within i k (old i k p);
      fits = fits;
    }
  where
    link_eq : n ≡ m
    link_eq = cc

    out : Out h is
    out = subst (λ k. Out k is) (sym e) d.0

    off : (i k : ℕ) → g i ≡ some k → i ≢ h
    off i k p q = cc

    old : (i k : ℕ) → g i ≡ some k → f i ≡ some k
    old i k p = sym (same i (off i k p)) ∙ p

-- Taking the head into use keeps the rest on the list.
pub FreeList-pop :
    (f g : ℕ → Option ℕ) {len h m : ℕ}
    → FreeList f len h
    → h ≢ no_head
    → f h ≡ some m
    → g h ≡ none
    → ((i : ℕ) → i ≢ h → g i ≡ f i)
    → FreeList g len m
FreeList-pop f g l ne link gone same =
    pop_cells f g l.cells ne link gone same l.chain l.distinct l.covers l.within l.fits

-- A cell that goes out of use becomes the head, linked to the old one.
pub FreeList-push :
    (f g : ℕ → Option ℕ) {len h : ℕ} (j : ℕ)
    → FreeList f len h
    → f j ≡ none
    → j < len
    → g j ≡ some h
    → ((i : ℕ) → i ≢ j → g i ≡ f i)
    → FreeList g len j
FreeList-push f g {len} {h} j l used lt link same = record {
  cells = j ∷ l.cells;
  chain = (refl, (h, link, Chain-cong f g j h l.cells same out l.chain));
  distinct = (out, l.distinct);
  covers = λ i n p. elim (ℕ_discrete i j) [
    | yes e ↦ inl e
    | no ne ↦ inr (l.covers i n (sym (same i ne) ∙ p))
  ];
  within = λ i n p. elim (ℕ_discrete i j) [
    | yes e ↦ subst (λ k. k < len) (sym e) lt
    | no ne ↦ l.within i n (sym (same i ne) ∙ p)
  ];
  fits = l.fits;
}
  where
    out : Out j l.cells
    out = Out-unused f j h l.cells used l.chain

-- A container that only grows by cells in use keeps its list.
pub FreeList-grow :
    (f g : ℕ → Option ℕ) {len h : ℕ}
    → FreeList f len h
    → len < no_head
    → ((i : ℕ) → g i ≡ f i)
    → FreeList g (suc len) h
FreeList-grow f g {len} {h} l room same = record {
  cells = l.cells;
  chain = subst (λ k. Chain k h l.cells) (fun_ext (λ i. sym (same i))) l.chain;
  distinct = l.distinct;
  covers = λ i n p. l.covers i n (sym (same i) ∙ p);
  within = λ i n p. omega (arith, l.within i n (sym (same i) ∙ p));
  fits = room;
}

-- The list is that of the links alone.
pub FreeList-cong :
    (f g : ℕ → Option ℕ) {len h : ℕ} → FreeList f len h → ((i : ℕ) → g i ≡ f i) → FreeList g len h
FreeList-cong f g {len} {h} l same = subst (λ k. FreeList k len h) (fun_ext (λ i. sym (same i))) l
