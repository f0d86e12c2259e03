-- ===== src/MiniSqlite/Alive.antt =====
-- The prepared statements that are alive: those that `sqlite3_prepare_v2` has given out and that
-- `sqlite3_finalize` has not taken back.
use sqlitewrite.Base.{
  ℕ, ◌+◌, ◌<◌, ◌≡◌, Option, none, some, List, [], ◌∷◌, ◌++◌, eqb, ltb, if◌then◌else◌, arith, refl,
  append-nil, ◌∙◌, ap, append_assoc,
}
use sqlitewrite.Sqlite.{Stmt, Call, History, Engine, PrepareReply}

-- How often an address is in a list, and the list without its first occurrence.
abbrev pub count : ℕ → List ℕ → ℕ
count a [] = 0
count a (x ∷ xs) = (if eqb a x then 1 else 0) + count a xs

abbrev pub remove : ℕ → List ℕ → List ℕ
remove a [] = []
remove a (x ∷ xs) = if eqb a x then xs else x ∷ remove a xs

-- A null pointer may be used and finalised; any other statement only while it is alive.
abbrev pub used : Option Stmt → List ℕ → Option (List ℕ)
used none live = some live
used (some s) live = if ltb 0 (count s.address live) then some live else none

abbrev pub finalized : Stmt → List ℕ → Option (List ℕ)
finalized s live = if ltb 0 (count s.address live) then some (remove s.address live) else none

abbrev pub given_out : PrepareReply → List ℕ → List ℕ
given_out (PrepareReply.prepared none) live = live
given_out (PrepareReply.prepared (some address)) live = address ∷ live
given_out (PrepareReply.refused errmsg) live = live

-- A connection is closed when no statement is alive.
abbrev pub closed : List ℕ → Option (List ℕ)
closed [] = some []
closed (x ∷ xs) = none

module _ (e : Engine) where
  -- The statements alive after the call `c`, which comes after the calls `h`; `none` where the call
  -- uses, finalises or leaves behind a statement that it must not.
  abbrev pub after_call : History → Call → List ℕ → Option (List ℕ)
  after_call h (Call.prepare_v2 sql) live = some (given_out (e.prepare_v2 h sql) live)
  after_call h (Call.bind p idx value) live = used p live
  after_call h (Call.step p) live = used p live
  after_call h (Call.reset p) live = used p live
  after_call h (Call.clear_bindings p) live = used p live
  after_call h (Call.stmt_status p status) live = used p live
  after_call h (Call.finalize s) live = finalized s live
  after_call h Call.close live = closed live
  after_call h _ live = some live

  abbrev pub alive_from : History → Option (List ℕ) → History → Option (List ℕ)
  alive_from h none cs = none
  alive_from h (some live) [] = some live
  alive_from h (some live) (c ∷ cs) = alive_from (h ++ (c ∷ [])) (after_call h c live) cs

  -- From the start of the connection.
  abbrev pub alive : History → Option (List ℕ)
  alive cs = alive_from [] (some []) cs

  alive_from-nil : (h : History) (state : Option (List ℕ)) → alive_from h state [] ≡ state
  alive_from-nil h none = refl
  alive_from-nil h (some live) = refl

  snoc_from :
      (h cs : History) (c : Call) (state : Option (List ℕ)) (live : List ℕ)
      → alive_from h state cs ≡ some live
      → alive_from h state (cs ++ (c ∷ [])) ≡ after_call (h ++ cs) c live
  snoc_from h cs c none live k = cc
  snoc_from h [] c (some live') live k =
      let same : live' ≡ live = cc in
      rw (append-nil h)
        (alive_from-nil (h ++ (c ∷ [])) (after_call h c live') ∙ ap (after_call h c) same)
  snoc_from h (d ∷ cs) c (some live') live k =
      snoc_from (h ++ (d ∷ [])) cs c (after_call h d live') live k
      ∙ ap (λ t. after_call t c live) (append_assoc h (d ∷ []) cs)

  pub alive-append :
      (cs : History) (c : Call) (live : List ℕ)
      → alive cs ≡ some live
      → alive (cs ++ (c ∷ [])) ≡ after_call cs c live
  alive-append cs c live k = snoc_from [] cs c (some []) live k

pub count-remove :
    (a b : ℕ) (xs : List ℕ)
    → 0 < count a xs
    → count b (remove a xs) + (if eqb b a then 1 else 0) ≡ count b xs
count-remove a b [] h = ground arith
count-remove a b (x ∷ xs) h = ground (arith, count-remove a b xs)

pub no_count : (xs : List ℕ) → ((a : ℕ) → count a xs ≡ 0) → xs ≡ []
no_count [] h = refl
no_count (x ∷ xs) h = ground (arith, h x)
