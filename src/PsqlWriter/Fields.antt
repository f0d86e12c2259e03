-- ===== src/PsqlWriter/Fields.antt =====
-- The fields of an insert statement are those of all its messages.
use sqlitewrite.Base.{ℕ, ◌≡◌, true, List, [], ◌∷◌, ◌++◌, if◌then◌else◌, Bool-cases, arith, inl, inr}
use sqlitewrite.Base.Hoare.{
  Ensures, ensures_bind, ensures_pure, ensures_weaken, Anything, ends-Anything,
}
use sqlitewrite.Base.Lists.{All}
use sqlitewrite.Text.{Text, text_eq}
use sqlitewrite.MiniPsql.Db.{Server, History}
use sqlitewrite.PsqlWriter.Message.{Var, Message}
use sqlitewrite.PsqlWriter.Thread.{Worker, contains, value_loop, message_loop}

-- All names of the values are among the fields.
abbrev pub HasNames : List Text → List (Text × Var) → Type 0
HasNames fields = All (λ (f, _). contains f fields ≡ true)

abbrev pub HasFields : List Text → List Message → Type 0
HasFields fields = All (λ m. HasNames fields m.values)

contains-append :
    (f : Text) (xs ys : List Text) → contains f xs ≡ true → contains f (xs ++ ys) ≡ true
unfolding contains
contains-append f [] ys h = cc
contains-append f (x ∷ xs) ys h = ground (arith, contains-append f xs ys)

contains-last : (f : Text) (xs : List Text) → contains f (xs ++ (f ∷ [])) ≡ true
unfolding contains
contains-last f [] = ground arith
contains-last f (x ∷ xs) = ground (arith, contains-last f xs)

-- `ys` has all that `xs` has.
abbrev Extends : List Text → List Text → Type 0
Extends xs ys = (f : Text) → contains f xs ≡ true → contains f ys ≡ true

weaker :
    (fields out : List Text) (values : List (Text × Var))
    → Extends fields out
    → HasNames fields values
    → HasNames out values
weaker fields out [] h k = tt
weaker fields out ((f, v) ∷ values) h (p, k) = (h f p, weaker fields out values h k)

module _ (s : Server) (show_double : ℕ → Text) (now : History → ℕ)
    (iterate : List Text → List Text) where
  value_loop-HasNames :
      (table : Text) (values : List (Text × Var)) (fields : List Text)
      → Ensures {S = Worker} Anything
          (value_loop s show_double now iterate table values fields)
          (λ out _. Extends fields out × HasNames out values)
          Anything
  unfolding value_loop
  value_loop-HasNames table [] fields = ensures_pure fields (λ w p. (λ f h. h, tt))
  value_loop-HasNames table ((f, v) ∷ values) fields =
      ensures_bind {R = λ _. Anything} (record { at = λ w p. ends-Anything Anything _ _ tt })
        λ _.
          ensures_weaken (λ w p. p)
            (λ out w (extends, has). (λ g h. extends g (kept g h), (extends f here, has)))
            (λ w p. p) (value_loop-HasNames table values _)
    where
      kept :
          (g : Text)
          → contains g fields ≡ true
          → contains g (if contains f fields then fields else fields ++ (f ∷ [])) ≡ true
      kept g h = elim (Bool-cases (contains f fields)) [
        | inl e ↦ rw e h
        | inr e ↦ rw e (contains-append g fields (f ∷ []) h)
      ]

      here : contains f (if contains f fields then fields else fields ++ (f ∷ [])) ≡ true
      here = elim (Bool-cases (contains f fields)) [
        | inl e ↦ rw e e
        | inr e ↦ rw e (contains-last f fields)
      ]

  pub message_loop-Ensures :
      (table : Text) (work : List Message) (fields : List Text)
      → Ensures {S = Worker} Anything
          (message_loop s show_double now iterate table work fields)
          (λ out _. Extends fields out × HasFields out work)
          Anything
  unfolding message_loop
  message_loop-Ensures table [] fields = ensures_pure fields (λ w p. (λ f h. h, tt))
  message_loop-Ensures table (m ∷ ms) fields =
      ensures_bind (value_loop-HasNames table m.values fields) λ next. record {
        at = λ w (extends, has).
            (ensures_weaken (λ w p. p)
                (λ out w (more, all).
                  (λ g h. more g (extends g h), (weaker next out m.values more has, all)))
                (λ w p. p) (message_loop-Ensures table ms next)).at
              w tt;
      }
