-- ===== src/Base/Hoare.antt =====
-- What a member function ensures when it returns and when it throws, with one rule for each way to
-- build such a function.
use sqlitewrite.Base.{◌≡◌, refl, Bool, true, false, if◌then◌else◌}
use sqlitewrite.Base.Exec.{Error, Result, ok, err, Exec, pure, raise, gets, modify, continue, ◌>>=◌}

abbrev pub Anything : {S : Type 0} → S → Type 0
Anything s = Unit

abbrev pub Never : {S : Type 0} → S → Type 0
Never s = ⊥

module _ {S A : Type 0} where
  -- `Q` of the result and the state after a return, `E` of the state after a throw.
  abbrev pub Ends : (A → S → Type 0) → (S → Type 0) → Result A × S → Type 0
  Ends Q E (ok a, s) = Q a s
  Ends Q E (err x, s) = E s

  pub record Ensures (P : S → Type 0) (m : Exec S A) (Q : A → S → Type 0) (E : S → Type 0)
      : Type 0 where
    pub at : (s : S) → P s → Ends Q E (m s)

  -- `P` holds after the call, however it ends, if it held before.
  abbrev pub Keeps : (S → Type 0) → Exec S A → Type 0
  Keeps P m = Ensures P m (λ _. P) P

  pub ensures_pure :
      {P : S → Type 0} {Q : A → S → Type 0} {E : S → Type 0} (a : A)
      → ((s : S) → P s → Q a s)
      → Ensures P (pure a) Q E
  unfolding pure
  ensures_pure a h = record { at = h }

  pub ensures_raise :
      {P : S → Type 0} {Q : A → S → Type 0} {E : S → Type 0} (x : Error)
      → ((s : S) → P s → E s)
      → Ensures P (raise x) Q E
  unfolding raise
  ensures_raise x h = record { at = h }

  pub ensures_gets :
      {P : S → Type 0} {Q : A → S → Type 0} {E : S → Type 0} (f : S → A)
      → ((s : S) → P s → Q (f s) s)
      → Ensures P (gets f) Q E
  unfolding gets
  ensures_gets f h = record { at = h }

  pub ensures_if :
      {P : S → Type 0} {Q : A → S → Type 0} {E : S → Type 0} (b : Bool) {m n : Exec S A}
      → (b ≡ true → Ensures P m Q E)
      → (b ≡ false → Ensures P n Q E)
      → Ensures P (if b then m else n) Q E
  ensures_if true h k = h refl
  ensures_if false h k = k refl

  ends_weaken :
      {Q Q' : A → S → Type 0} {E E' : S → Type 0} (r : Result A) (s : S)
      → ((a : A) (s : S) → Q a s → Q' a s)
      → ((s : S) → E s → E' s)
      → Ends Q E (r, s)
      → Ends Q' E' (r, s)
  ends_weaken (ok a) s f g h = f a s h
  ends_weaken (err x) s f g h = g s h

  pub ensures_weaken :
      {P P' : S → Type 0} {Q Q' : A → S → Type 0} {E E' : S → Type 0} {m : Exec S A}
      → ((s : S) → P' s → P s)
      → ((a : A) (s : S) → Q a s → Q' a s)
      → ((s : S) → E s → E' s)
      → Ensures P m Q E
      → Ensures P' m Q' E'
  ensures_weaken {m = m} p f g h = record {
    at = λ s k. let (r, s') = m s in ends_weaken r s' f g (h.at s (p s k));
  }

  -- A fact that does not speak of the state.
  pub ensures_given :
      {F : Type 0} {P : S → Type 0} {Q : A → S → Type 0} {E : S → Type 0} {m : Exec S A}
      → (F → Ensures P m Q E)
      → Ensures (λ s. F × P s) m Q E
  ensures_given h = record { at = λ s (f, p). (h f).at s p }

  ends_also :
      (Q Q' : A → S → Type 0) (E E' : S → Type 0) (r : Result A) (s : S)
      → Ends Q E (r, s)
      → Ends Q' E' (r, s)
      → Ends (λ a t. Q a t × Q' a t) (λ t. E t × E' t) (r, s)
  ends_also Q Q' E E' (ok a) s h k = (h, k)
  ends_also Q Q' E E' (err x) s h k = (h, k)

  -- Two facts on the same function.
  pub ensures_also :
      {P P' : S → Type 0} {Q Q' : A → S → Type 0} {E E' : S → Type 0} {m : Exec S A}
      → Ensures P m Q E
      → Ensures P' m Q' E'
      → Ensures (λ s. P s × P' s) m (λ a s. Q a s × Q' a s) (λ s. E s × E' s)
  ensures_also {Q = Q} {Q' = Q'} {E = E} {E' = E'} {m = m} h k = record {
    at = λ s (p, q). let (r, s') = m s in ends_also Q Q' E E' r s' (h.at s p) (k.at s q);
  }

  pub at_ok :
      {P : S → Type 0} {Q : A → S → Type 0} {E : S → Type 0} {m : Exec S A} (s : S) {a : A}
      → Ensures P m Q E
      → P s
      → (m s).0 ≡ ok a
      → Q a (m s).1
  at_ok {Q = Q} {E = E} {m = m} s h p e = rw e at (h.at s p)

pub ensures_modify :
    {S : Type 0} {P : S → Type 0} {Q : Unit {0} → S → Type 0} {E : S → Type 0} (f : S → S)
    → ((s : S) → P s → Q tt (f s))
    → Ensures P (modify f) Q E
unfolding modify
ensures_modify f h = record { at = h }

module _ {S A B : Type 0} where
  ends_continue :
      {R : A → S → Type 0} {Q : B → S → Type 0} {E : S → Type 0} (r : Result A) (s : S)
      (f : A → Exec S B)
      → Ends R E (r, s)
      → ((a : A) → Ensures (R a) (f a) Q E)
      → Ends Q E ((λ (t : S). (continue r f t)) s)
  ends_continue (ok a) s f h k = (k a).at s h
  ends_continue (err x) s f h k = h

  pub ensures_bind :
      {P : S → Type 0} {R : A → S → Type 0} {Q : B → S → Type 0} {E : S → Type 0} {m : Exec S A}
      {f : A → Exec S B}
      → Ensures P m R E
      → ((a : A) → Ensures (R a) (f a) Q E)
      → Ensures P (m >>= f) Q E
  unfolding ◌>>=◌
  ensures_bind {m = m} {f = f} h k = record {
    at = λ s p. let (r, s') = m s in ends_continue r s' f (h.at s p) k;
  }

-- The rules for `Keeps`.
module _ {S A : Type 0} {P : S → Type 0} where
  pub Keeps-pure : (a : A) → Keeps P (pure a)
  unfolding pure
  Keeps-pure a = record { at = λ s p. p }

  pub Keeps-raise : (x : Error) → Keeps P (raise {A = A} x)
  unfolding raise
  Keeps-raise x = record { at = λ s p. p }

  pub Keeps-gets : (f : S → A) → Keeps P (gets f)
  unfolding gets
  Keeps-gets f = record { at = λ s p. p }

  pub Keeps-if : (b : Bool) {m n : Exec S A} → Keeps P m → Keeps P n → Keeps P (if b then m else n)
  Keeps-if true h k = h
  Keeps-if false h k = k

module _ {S A : Type 0} (P : S → Type 0) where
  pub keeps_always : (r : Result A) (s : S) → Ends (λ _. P) P (r, s) → P s
  keeps_always (ok a) s h = h
  keeps_always (err x) s h = h

  pub ends_always : (r : Result A) (s : S) → P s → Ends (λ _. P) P (r, s)
  ends_always (ok a) s h = h
  ends_always (err x) s h = h

pub Keeps-modify :
    {S : Type 0} {P : S → Type 0} (f : S → S) → ((s : S) → P s → P (f s)) → Keeps P (modify f)
unfolding modify
Keeps-modify f h = record { at = h }

pub Keeps-bind :
    {S A B : Type 0} {P : S → Type 0} {m : Exec S A} {f : A → Exec S B}
    → Keeps P m
    → ((a : A) → Keeps P (f a))
    → Keeps P (m >>= f)
Keeps-bind h k = ensures_bind h k

pub ruleset keeps_rules = (Keeps-pure, Keeps-raise, Keeps-gets, Keeps-if, Keeps-bind)

-- `m` returns from every state.
abbrev pub Returns : {S A : Type 0} → Exec S A → Type 0
Returns m = Ensures Anything m (λ _. Anything) Never

module _ {S : Type 0} where
  pub ends_returned :
      (r : Result (Unit {0})) (s : S) → Ends (λ _. Anything) Never (r, s) → r ≡ ok tt
  ends_returned (ok tt) s h = refl
  ends_returned (err x) s h = absurd h

  pub ends-Anything :
      {A : Type 0} (P : S → Type 0) (r : Result A) (s : S) → P s → Ends (λ _. P) Anything (r, s)
  ends-Anything P (ok a) s h = h
  ends-Anything P (err x) s h = tt
