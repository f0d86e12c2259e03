-- ===== src/MiniSqlite/QuotedNames.antt =====
-- `quoteTableName` and the split of `getSchema` on a name with a schema.
use mathlib.Core.Option.{some-injective}
use sqlitewrite.Base.{if◌then◌else◌, append_assoc, sym}
use mathlib.Core.Option
use sqlitewrite.Base.{[], ◌∷◌, ◌+◌, suc, refl, ap, Option-cases, inl, inr, Bool-cases, eqb, arith}
use sqlitewrite.Base.Lists.{length, take, drop}
use sqlitewrite.Base.{◌≡◌, none, some, ◌++◌, ◌∷◌, ℕ, ap, ◌+◌}
use sqlitewrite.Text.{Text, codes, find}
use sqlitewrite.MiniSqlite.Names.{quote_table_name, split_table_name}

-- The dot is found where the part before it holds none.
find-append :
    (schema table : Text)
    → find b'.' schema ≡ none
    → find b'.' (schema ++ (b'.' ∷ table)) ≡ some (length schema)
unfolding find
find-append [] table h = refl
find-append (c ∷ cs) table h = elim (Bool-cases (eqb c b'.')) [
  | inl p ↦ cc (rw p at h)
  | inr p ↦ rw p (ap (Option.map suc) (find-append cs table (find_none cs (rw p at h))))
]
  where
    find_none : (cs : Text) → Option.map suc (find b'.' cs) ≡ none → find b'.' cs ≡ none
    find_none cs h = elim (Option-cases (find b'.' cs)) [ inl e ↦ e | inr (i, e) ↦ cc (rw e at h) ]

take-append : (xs ys : Text) → take (length xs) (xs ++ ys) ≡ xs
take-append [] ys = refl
take-append (x ∷ xs) ys = ap (λ t. x ∷ t) (take-append xs ys)

drop-append_suc : (xs ys : Text) (y : ℕ) → drop (suc (length xs)) (xs ++ (y ∷ ys)) ≡ ys
drop-append_suc [] ys y = refl
drop-append_suc (x ∷ xs) ys y = drop-append_suc xs ys y

drop-append : (xs ys : Text) (y : ℕ) → drop (length xs + 1) (xs ++ (y ∷ ys)) ≡ ys
drop-append xs ys y =
    let e : length xs + 1 ≡ suc (length xs) = omega arith in rw e (drop-append_suc xs ys y)

-- On the name of a table in a schema without a dot, quoting encloses the two parts, and `getSchema`
-- asks for these two parts.
pub split-quote :
    (schema table : Text)
    → find b'.' schema ≡ none
    → (split_table_name (schema ++ (b'.' ∷ table)) ≡ (schema, table))
      × (quote_table_name (schema ++ (b'.' ∷ table))
          ≡ codes "\"" ++ (schema ++ (codes "\".\"" ++ (table ++ codes "\""))))
unfolding split_table_name quote_table_name
split-quote schema table h = (
  rw (find-append schema table h, split_table_name, take-append schema, drop-append schema) refl,
  rw (find-append schema table h, quote_table_name, take-append schema, drop-append schema) refl,
)

-- The text with a quote on each side of its first dot.
abbrev pub around_dot : Text → Text
around_dot [] = []
around_dot (c ∷ cs) = if eqb c b'.' then codes "\".\"" ++ cs else c ∷ around_dot cs

-- A table's name between quotes, each of its two parts if it has a schema.
abbrev pub enclosed : Text → Text
enclosed table = codes "\"" ++ (around_dot table ++ codes "\"")

around_dot-none : (table : Text) → find b'.' table ≡ none → around_dot table ≡ table
unfolding find
around_dot-none [] h = refl
around_dot-none (c ∷ cs) h = elim (Bool-cases (eqb c b'.')) [
  | inl p ↦ cc (rw p at h)
  | inr p ↦ elim (Option-cases (find b'.' cs)) [
    | inl e ↦ rw p (ap (λ t. c ∷ t) (around_dot-none cs e))
    | inr (i, e) ↦ cc (rw (p, e) at h)
  ]
]

around_dot-some :
    (table : Text) (pos : ℕ)
    → find b'.' table ≡ some pos
    → around_dot table ≡ take pos table ++ (codes "\".\"" ++ drop (pos + 1) table)
unfolding find
around_dot-some [] pos h = cc
around_dot-some (c ∷ cs) pos h = elim (Bool-cases (eqb c b'.')) [
  | inl p ↦ let e : 0 ≡ pos = some-injective 0 pos (rw p at h) in rw (p, sym e) refl
  | inr p ↦ elim (Option-cases (find b'.' cs)) [
    | inl e ↦ cc (rw (p, e) at h)
    | inr (i, e) ↦
        let f : suc i ≡ pos = some-injective (suc i) pos (rw (p, e) at h) in
        let g : suc i + 1 ≡ suc (i + 1) = omega arith in
        rw (p, sym f, g) (ap (λ t. c ∷ t) (around_dot-some cs i e))
  ]
]

pub quote_table_name-eq-enclosed : (table : Text) → quote_table_name table ≡ enclosed table
unfolding quote_table_name
quote_table_name-eq-enclosed table = elim (Option-cases (find b'.' table)) [
  | inl e ↦ rw (e, quote_table_name, around_dot-none table e) refl
  | inr (i, e) ↦ rw (e, quote_table_name, around_dot-some table i e) (simp append_assoc)
]
