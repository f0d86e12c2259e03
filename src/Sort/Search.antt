-- ===== src/Sort/Search.antt =====
-- On a sorted range `binary_search` finds exactly what is there.
use mathlib.Core.Option.{some-injective}
use mathlib.Core.Path.{subst}
use native.Mathlib.Decide.{dec_lt}
use sqlitewrite.Base.{
  ℕ, zero, suc, ◌+◌, ◌-◌, ◌/◌, ◌≤◌, ◌<◌, ◌≡◌, refl, Bool, true, false, List, [], ◌∷◌, none, some,
  arith, inl, inr, Bool-cases, Option-cases, ◌&&◌, ◌||◌, not, ◌⊎◌, sym, eqb,
}
use sqlitewrite.Base.Lists.{length, get_elem?, All}
use sqlitewrite.Sort.{lower_bound, binary_search}
use sqlitewrite.Sort.Sorted.{IsSorted, IsWeakOrder}

get_elem?-some {ℓ} :
    {A : Type ℓ} (xs : List A) (i : ℕ) → i < length xs → (x : A) × (get_elem? xs i ≡ some x)
get_elem?-some [] i h = elim h [ ]
get_elem?-some (x ∷ xs) zero h = (x, refl)
get_elem?-some (x ∷ xs) (suc i) h = get_elem?-some xs i (omega arith)

get_elem?-lt {ℓ} :
    {A : Type ℓ} (xs : List A) (i : ℕ) (x : A) → get_elem? xs i ≡ some x → i < length xs
get_elem?-lt [] i x h = cc
get_elem?-lt (y ∷ xs) zero x h = omega arith
get_elem?-lt (y ∷ xs) (suc i) x h = omega (arith, get_elem?-lt xs i x h)

get_elem?-none {ℓ} : {A : Type ℓ} (xs : List A) (i : ℕ) → get_elem? xs i ≡ none → length xs ≤ i
get_elem?-none [] i h = omega arith
get_elem?-none (x ∷ xs) zero h = cc
get_elem?-none (x ∷ xs) (suc i) h = omega (arith, get_elem?-none xs i h)

All-at {ℓ κ} :
    {A : Type ℓ} (P : A → Type κ) (xs : List A) (i : ℕ) (x : A)
    → All P xs
    → get_elem? xs i ≡ some x
    → P x
All-at P [] i x all h = cc
All-at P (y ∷ xs) zero x (p, ps) h = rw (← some-injective y x h) p
All-at P (y ∷ xs) (suc i) x (p, ps) h = All-at P xs i x ps h

module _ {A : Type 0} (less : A → A → Bool) where
  -- A linear search for an element that is neither less nor greater than `v`.
  abbrev pub occurs : A → List A → Bool
  occurs v [] = false
  occurs v (x ∷ xs) = not (less x v) && not (less v x) || occurs v xs

module _ {A : Type 0} (less : A → A → Bool) (w : IsWeakOrder less) where
  -- In a sorted list an element is not less than one that stands before it.
  sorted_at :
      (xs : List A) (i j : ℕ) (x y : A)
      → IsSorted less xs
      → i ≤ j
      → get_elem? xs i ≡ some x
      → get_elem? xs j ≡ some y
      → less y x ≡ false
  sorted_at [] i j x y s le hx hy = cc
  sorted_at (a ∷ xs) zero zero x y s le hx hy =
      rw (← some-injective a x hx, ← some-injective a y hy) (w.irrefl a)
  sorted_at (a ∷ xs) zero (suc j) x y (all, s) le hx hy =
      rw (← some-injective a x hx) (All-at (λ y. less y a ≡ false) xs j y all hy)
  sorted_at (a ∷ xs) (suc i) zero x y s le hx hy = absurd (omega arith)
  sorted_at (a ∷ xs) (suc i) (suc j) x y (all, s) le hx hy =
      sorted_at xs i j x y s (omega arith) hx hy

  -- `i` is where the elements that are not less than `v` begin.
  record IsCut (xs : List A) (v : A) (first last : ℕ) : Type 0 where
    before : (j : ℕ) (x : A) → j < first → get_elem? xs j ≡ some x → less x v ≡ true
    after : (j : ℕ) (x : A) → last ≤ j → get_elem? xs j ≡ some x → less x v ≡ false

  less_before :
      (xs : List A) (i j : ℕ) (x y v : A)
      → IsSorted less xs
      → i ≤ j
      → get_elem? xs i ≡ some x
      → get_elem? xs j ≡ some y
      → less y v ≡ true
      → less x v ≡ true
  less_before xs i j x y v s le hx hy h = elim (Bool-cases (less x v)) [
    | inl e ↦ e
    | inr e ↦ cc (h, w.ge_trans v x y e (sorted_at xs i j x y s le hx hy))
  ]

  IsCut-right :
      (xs : List A) (v x : A) (first last mid : ℕ)
      → IsSorted less xs
      → get_elem? xs mid ≡ some x
      → less x v ≡ true
      → IsCut xs v first last
      → IsCut xs v (mid + 1) last
  IsCut-right xs v x first last mid s hx l cut = record {
    before = λ j y lt hy. less_before xs j mid y x v s (omega arith) hy hx l;
    after = cut.after;
  }

  IsCut-left :
      (xs : List A) (v x : A) (first last mid : ℕ)
      → IsSorted less xs
      → get_elem? xs mid ≡ some x
      → less x v ≡ false
      → IsCut xs v first last
      → IsCut xs v first mid
  IsCut-left xs v x first last mid s hx l cut = record {
    before = cut.before;
    after = λ j y le hy. w.ge_trans v x y l (sorted_at xs mid j x y s le hx hy);
  }

  lower_bound-IsCut :
      (fuel : ℕ) (xs : List A) (v : A) (first len : ℕ)
      → IsSorted less xs
      → len ≤ fuel
      → first + len ≤ length xs
      → IsCut xs v first (first + len)
      → let i = lower_bound less fuel xs v first len in IsCut xs v i i
  unfolding lower_bound
  lower_bound-IsCut zero xs v first len s hf hl cut =
      subst (IsCut xs v first) (let e : first + len ≡ first = omega arith in e) cut
  lower_bound-IsCut (suc fuel) xs v first len s hf hl cut = elim (Bool-cases (eqb len 0)) [
    | inl e ↦ rw e (subst (IsCut xs v first) (let e : first + len ≡ first = ground arith in e) cut)
    | inr e ↦
        let pos : 0 < len = ground arith in
        let mid = first + len / 2 in
        let (x, hx) = get_elem?-some xs mid (omega arith) in
        elim (Bool-cases (less x v)) [
          | inl l ↦
              let same : first + len ≡ mid + 1 + (len - len / 2 - 1) = omega arith in
              rw (e, hx, l)
                (lower_bound-IsCut fuel xs v (mid + 1) (len - len / 2 - 1) s (omega arith)
                  (omega arith)
                  (subst (IsCut xs v (mid + 1)) same
                    (IsCut-right xs v x first (first + len) mid s hx l cut)))
          | inr l ↦
              rw (e, hx, l)
                (lower_bound-IsCut fuel xs v first (len / 2) s (omega arith) (omega arith)
                  (IsCut-left xs v x first (first + len) mid s hx l cut))
        ]
  ]

  whole-IsCut : (xs : List A) (v : A) → IsCut xs v 0 (length xs)
  whole-IsCut xs v = record {
    before = λ j x lt hx. absurd (omega arith);
    after = λ j x le hx. absurd (omega (arith, get_elem?-lt xs j x hx));
  }

  search-IsCut :
      (xs : List A) (v : A)
      → IsSorted less xs
      → let i = lower_bound less (length xs) xs v 0 (length xs) in IsCut xs v i i
  search-IsCut xs v s =
      lower_bound-IsCut (length xs) xs v 0 (length xs) s (omega arith) (omega arith) (
        subst (IsCut xs v 0) (let e : length xs ≡ 0 + length xs = omega arith in e)
          (whole-IsCut xs v))

  occurs_at :
      (xs : List A) (v x : A) (j : ℕ)
      → get_elem? xs j ≡ some x
      → less x v ≡ false
      → less v x ≡ false
      → occurs less v xs ≡ true
  occurs_at [] v x j hx p q = cc
  occurs_at (y ∷ xs) v x zero hx p q = ground (arith, some-injective y x hx)
  occurs_at (y ∷ xs) v x (suc j) hx p q = ground (arith, occurs_at xs v x j hx p q)

  occurs_nowhere :
      (xs : List A) (v : A)
      → ((j : ℕ) (x : A) → get_elem? xs j ≡ some x → (less x v ≡ true) ⊎ (less v x ≡ true))
      → occurs less v xs ≡ false
  occurs_nowhere [] v h = refl
  occurs_nowhere (y ∷ xs) v h =
      ground (arith, h 0 y refl, occurs_nowhere xs v (λ j x hx. h (suc j) x hx))

  -- Past the cut at an element above `v` all are above `v`.
  above :
      (xs : List A) (v x : A) (i : ℕ)
      → IsSorted less xs
      → IsCut xs v i i
      → get_elem? xs i ≡ some x
      → less v x ≡ true
      → (j : ℕ) (y : A) → get_elem? xs j ≡ some y
      → (less y v ≡ true) ⊎ (less v y ≡ true)
  above xs v x i s cut hx l j y hy = elim (dec_lt j i) [
    | yes lt ↦ inl (cut.before j y lt hy)
    | no ge ↦ elim (Bool-cases (less v y)) [
      | inl e ↦ inr e
      | inr e ↦ cc (l, w.ge_trans x y v (sorted_at xs i j x y s (omega arith) hx hy) e)
    ]
  ]

  -- Nothing stands at the cut: all elements are below `v`.
  below :
      (xs : List A) (v : A) (i : ℕ)
      → IsCut xs v i i
      → get_elem? xs i ≡ none
      → (j : ℕ) (y : A) → get_elem? xs j ≡ some y
      → (less y v ≡ true) ⊎ (less v y ≡ true)
  below xs v i cut e j y hy =
      inl (
        cut.before j y (let far = get_elem?-none xs i e in omega (arith, get_elem?-lt xs j y hy))
          hy)

  -- On a sorted range binary search answers as the linear search does.
  pub binary_search-eq-occurs :
      (xs : List A) (v : A) → IsSorted less xs → binary_search less xs v ≡ occurs less v xs
  unfolding binary_search
  binary_search-eq-occurs xs v s =
      let i = lower_bound less (length xs) xs v 0 (length xs) in
      let cut = search-IsCut xs v s in
      elim (Option-cases (get_elem? xs i)) [
        | inl e ↦ rw (e, binary_search) (sym (occurs_nowhere xs v (below xs v i cut e)))
        | inr (x, e) ↦ elim (Bool-cases (less v x)) [
          | inl l ↦ rw (e, l, binary_search) (sym (occurs_nowhere xs v (above xs v x i s cut e l)))
          | inr g ↦
              rw (e, g, binary_search)
                (sym (occurs_at xs v x i e (cut.after i x (omega arith) e) g))
        ]
      ]
