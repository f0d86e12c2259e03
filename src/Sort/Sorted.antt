-- ===== src/Sort/Sorted.antt =====
-- `sort` arranges in order and keeps the elements.
use mathlib.Core.List.{Perm}
use mathlib.Core.List.Perm
use sqlitewrite.Base.{◌≡◌, Bool, true, false, List, [], ◌∷◌, inl, inr, Bool-cases}
use sqlitewrite.Base.Lists.{All}
use sqlitewrite.Sort.{insert_by, sort}

module _ {A : Type 0} (less : A → A → Bool) where
  -- No element is less than one before it.
  abbrev pub IsSorted : List A → Type 0
  IsSorted [] = Unit
  IsSorted (x ∷ xs) = All (λ y. less y x ≡ false) xs × IsSorted xs

-- What <algorithm> asks of a comparison: a strict weak order.
pub record IsWeakOrder {A : Type 0} (less : A → A → Bool) : Type 0 where
  pub irrefl : (a : A) → less a a ≡ false
  -- If `b` is not less than `a`, nor `c` than `b`, then `c` is not less than `a`.
  pub ge_trans : (a b c : A) → less b a ≡ false → less c b ≡ false → less c a ≡ false
  pub asym : (a b : A) → less a b ≡ true → less b a ≡ false

module _ {A : Type 0} (less : A → A → Bool) (w : IsWeakOrder less) where
  All-ge_trans :
      (a b : A) (xs : List A)
      → less b a ≡ false
      → All (λ y. less y b ≡ false) xs
      → All (λ y. less y a ≡ false) xs
  All-ge_trans a b [] h all = tt
  All-ge_trans a b (x ∷ xs) h (p, ps) = (w.ge_trans a b x h p, All-ge_trans a b xs h ps)

  All-insert_by :
      (a x : A) (xs : List A)
      → less x a ≡ false
      → All (λ y. less y a ≡ false) xs
      → All (λ y. less y a ≡ false) (insert_by less x xs)
  unfolding insert_by
  All-insert_by a x [] h all = (h, tt)
  All-insert_by a x (y ∷ ys) h (p, ps) = elim (Bool-cases (less y x)) [
    | inl e ↦ rw e (p, All-insert_by a x ys h ps)
    | inr e ↦ rw e (h, (p, ps))
  ]

  insert_by-IsSorted :
      (x : A) (xs : List A) → IsSorted less xs → IsSorted less (insert_by less x xs)
  unfolding insert_by
  insert_by-IsSorted x [] s = (tt, tt)
  insert_by-IsSorted x (y ∷ ys) (p, s) = elim (Bool-cases (less y x)) [
    | inl e ↦ rw e (All-insert_by y x ys (w.asym y x e) p, insert_by-IsSorted x ys s)
    | inr e ↦ rw e ((e, All-ge_trans x y ys e p), (p, s))
  ]

  pub sort-IsSorted : (xs : List A) → IsSorted less (sort less xs)
  unfolding sort
  sort-IsSorted [] = tt
  sort-IsSorted (x ∷ xs) = insert_by-IsSorted x (sort less xs) (sort-IsSorted xs)

module _ {A : Type 0} (less : A → A → Bool) where
  insert_by-perm : (x : A) (xs : List A) → Perm (insert_by less x xs) (x ∷ xs)
  unfolding insert_by
  insert_by-perm x [] = Perm.refl (x ∷ [])
  insert_by-perm x (y ∷ ys) = elim (Bool-cases (less y x)) [
    | inl e ↦ rw e (Perm.trans (Perm.cons y (insert_by-perm x ys)) (Perm.swap x y ys))
    | inr e ↦ rw e (Perm.refl (x ∷ y ∷ ys))
  ]

  pub sort-perm : (xs : List A) → Perm (sort less xs) xs
  unfolding sort
  sort-perm [] = Perm.refl []
  sort-perm (x ∷ xs) = Perm.trans (insert_by-perm x (sort less xs)) (Perm.cons x (sort-perm xs))
