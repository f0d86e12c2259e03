-- ===== src/PsqlWriter/Once.antt =====
-- Each name of the messages is once among the fields of their insert statement, and no other.
use sqlitewrite.Base.{
  ℕ, ◌+◌, ◌≡◌, ◌||◌, ◌==◌, Bool, true, false, List, [], ◌∷◌, ◌++◌, if◌then◌else◌, refl, sym, arith,
}
use sqlitewrite.Base.Exec.{ok}
use sqlitewrite.Base.Hoare.{
  Ensures, Anything, ensures_bind, ensures_pure, ensures_weaken, ends-Anything, at_ok,
}
use sqlitewrite.Text.{Text, text_eq}
use sqlitewrite.MiniPsql.Db.{Server, History}
use sqlitewrite.PsqlWriter.Message.{Var, Message}
use sqlitewrite.PsqlWriter.Thread.{Worker, contains, value_loop, message_loop}

-- How often a name is there.
abbrev pub count : Text → List Text → ℕ
count f [] = 0
count f (g ∷ gs) = (if f == g then 1 else 0) + count f gs

abbrev pub named : Text → List (Text × Var) → Bool
named f [] = false
named f ((g, _) ∷ values) = f == g || named f values

-- A value of one of the messages has the name.
abbrev pub appears : Text → List Message → Bool
appears f [] = false
appears f (m ∷ ms) = named f m.values || appears f ms

-- The names that were seen are there once, and no other.
abbrev pub Once : (Text → Bool) → List Text → Type 0
Once seen fields = (f : Text) → count f fields ≡ (if seen f then 1 else 0)

contains-eq-seen :
    (f : Text) (fields : List Text) (b : Bool)
    → count f fields ≡ (if b then 1 else 0)
    → contains f fields ≡ b
unfolding contains
contains-eq-seen f [] true h = absurd (omega (arith, h))
contains-eq-seen f [] false h = refl
contains-eq-seen f (g ∷ gs) b h = ground (arith, h, contains-eq-seen f gs b)

count-append : (f : Text) (xs ys : List Text) → count f (xs ++ ys) ≡ count f xs + count f ys
count-append f [] ys = omega arith
count-append f (x ∷ xs) ys = ground (arith, count-append f xs ys)

Once-step :
    (seen : Text → Bool) (fields : List Text) (f : Text)
    → Once seen fields
    → Once (λ g. seen g || g == f) (if contains f fields then fields else fields ++ (f ∷ []))
Once-step seen fields f h g =
    ground
      (arith, h f, h g, contains-eq-seen f fields (seen f) (h f), count-append g fields (f ∷ []))

-- Whether a name was seen may be said in another way.
Once-same :
    (seen seen' : Text → Bool) (fields : List Text)
    → ((f : Text) → seen f ≡ seen' f)
    → Once seen fields
    → Once seen' fields
Once-same seen seen' fields same h f = rw (sym (same f)) (h f)

or_false : (a : Bool) → a ≡ (a || false)
or_false a = ground arith

or_assoc : (a b c : Bool) → ((a || b) || c) ≡ (a || (b || c))
or_assoc a b c = ground arith

module _ (s : Server) (show_double : ℕ → Text) (now : History → ℕ)
    (iterate : List Text → List Text) where
  value_loop-Once :
      (table : Text) (values : List (Text × Var)) (fields : List Text) (seen : Text → Bool)
      → Once seen fields
      → Ensures {S = Worker} Anything
          (value_loop s show_double now iterate table values fields)
          (λ out _. Once (λ f. seen f || named f values) out)
          Anything
  unfolding value_loop
  value_loop-Once table [] fields seen h =
      ensures_pure fields (λ w p. Once-same seen _ fields (λ f. or_false (seen f)) h)
  value_loop-Once table ((f, v) ∷ values) fields seen h =
      ensures_bind {R = λ _. Anything} (record { at = λ w p. ends-Anything Anything _ _ tt })
        λ _.
          ensures_weaken (λ w p. p)
            (λ out w p. Once-same _ _ out (λ g. or_assoc (seen g) (g == f) (named g values)) p)
            (λ w p. p)
            (value_loop-Once table values _ (λ g. seen g || g == f) (Once-step seen fields f h))

  pub message_loop-Once :
      (table : Text) (work : List Message) (fields : List Text) (seen : Text → Bool)
      → Once seen fields
      → Ensures {S = Worker} Anything
          (message_loop s show_double now iterate table work fields)
          (λ out _. Once (λ f. seen f || appears f work) out)
          Anything
  unfolding message_loop
  message_loop-Once table [] fields seen h =
      ensures_pure fields (λ w p. Once-same seen _ fields (λ f. or_false (seen f)) h)
  message_loop-Once table (m ∷ ms) fields seen h =
      ensures_bind (value_loop-Once table m.values fields seen h) λ next. record {
        at = λ w p.
            (ensures_weaken (λ w p. p)
                (λ out w p.
                  Once-same _ _ out (λ f. or_assoc (seen f) (named f m.values) (appears f ms)) p)
                (λ w p. p) (message_loop-Once table ms next (λ f. seen f || named f m.values) p)).at
              w tt;
      }

  -- When the loop over the messages of a table returns, each name of a value of a message is once
  -- among the fields of the insert statement, and no other is.
  pub message_loop-names_once :
      (table : Text) (work : List Message) (w : Worker) (fields : List Text)
      → (message_loop s show_double now iterate table work [] w).0 ≡ ok fields
      → (f : Text) → count f fields ≡ (if appears f work then 1 else 0)
  message_loop-names_once table work w fields h f =
      at_ok w (message_loop-Once table work [] (λ f. false) (λ f. refl)) tt h f
