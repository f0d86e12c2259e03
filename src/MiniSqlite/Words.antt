-- ===== src/MiniSqlite/Words.antt =====
-- The statements that open and close transactions, among the calls on the C interface.
use sqlitewrite.Base.{eqb, ◌||◌}
use sqlitewrite.MiniSqlite.Schema.{ddl, schema_query}
use sqlitewrite.Base.{
  ◌≡◌, Bool, Option, ◌∷◌, some, if◌then◌else◌, true, ◌==◌, false, none, refl, ◌++◌, [],
}
use sqlitewrite.Sqlite.{Call, History}
use sqlitewrite.Text.{Text, codes, text_dec, text_eq}

pub data Word : Type 0 where
  begin commit cycle other : Word

-- What a text given to `sqlite3_exec` does to the transaction, if it is one of the program's own
-- transaction statements.
abbrev pub word_of_text : Text → Word
word_of_text sql =
    if sql == codes "begin"
    then Word.begin
    else if sql == codes "commit"
    then Word.commit
    else if sql == codes "commit;begin"
    then Word.cycle
    else Word.other

abbrev pub word : Call → Word
word (Call.exec sql) = word_of_text sql
word _ = Word.other

-- Whether a transaction is open; `none` where a statement came out of turn.
abbrev pub advance : Option Bool → Word → Option Bool
advance s Word.other = s
advance (some false) Word.begin = some true
advance (some true) Word.commit = some false
advance (some true) Word.cycle = some true
advance _ _ = none

-- From the start of the connection.
abbrev pub transaction_after : Option Bool → History → Option Bool
transaction_after s [] = s
transaction_after s (c ∷ h) = transaction_after (advance s (word c)) h

-- A call that leaves transactions alone.
abbrev pub IsQuiet : Call → Type 0
IsQuiet c = word c ≡ Word.other

pub transaction_after-append :
    (s : Option Bool) (h : History) (c : Call)
    → transaction_after s (h ++ (c ∷ [])) ≡ advance (transaction_after s h) (word c)
transaction_after-append s [] c = refl
transaction_after-append s (d ∷ h) c = transaction_after-append (advance s (word d)) h c

-- Whether a text given to `sqlite3_exec` may change rows, by the first letter of its statement: that
-- of insert, replace, update, delete or with.
abbrev pub changes_rows : Text → Bool
changes_rows [] = false
changes_rows (c ∷ cs) =
    eqb c b'i'
    || eqb c b'I'
    || eqb c b'r'
    || eqb c b'R'
    || eqb c b'u'
    || eqb c b'U'
    || eqb c b'd'
    || eqb c b'D'
    || eqb c b'w'
    || eqb c b'W'

-- Such a text leaves transactions alone and changes no row.
abbrev pub IsAside : Text → Type 0
IsAside sql = IsQuiet (Call.exec sql) × (changes_rows sql ≡ false)

pub schema_query-IsAside : (table : Text) → IsAside (schema_query table)
unfolding schema_query codes text_dec
schema_query-IsAside table = (refl, refl)

pub ddl-IsAside :
    (strict there : Bool) (table name type meta : Text)
    → IsAside (ddl strict there table name type meta)
unfolding ddl codes text_dec
ddl-IsAside strict true table name type meta = (refl, refl)
ddl-IsAside strict false table name type meta = (refl, refl)
