-- ===== src/MiniSqlite/Owned/Opened.antt =====
-- The constructor and the transactions touch no statement.
use sqlitewrite.Base.Exec.{modify}
use sqlitewrite.MiniSqlite.Owned.{
  IsSafe, OwnsAll, Text, send, exec-OwnsAll, moved, ask-Keeps, send-Keeps, OwnsUse-framed,
}
use sqlitewrite.MiniSqlite.Lifetime.{open_db, commit, cycle, begin, Flag}
use sqlitewrite.Base.{refl, Bool, none, true, false, eqb}
use sqlitewrite.Base.Hoare.{Keeps, Keeps-bind, Keeps-modify, Keeps-pure, Keeps-if, Keeps-raise}
use sqlitewrite.Sqlite.{Engine, Call}

module _ (e : Engine) where
  -- Whether a transaction is open is no matter.
  transaction-OwnsAll :
      (b : Bool) → Keeps (OwnsAll e) (modify (λ db. record db { in_transaction = b }))
  transaction-OwnsAll b = Keeps-modify _ (λ db o. moved e o refl refl)

  pub begin-OwnsAll : Keeps (OwnsAll e) (begin e)
  unfolding begin
  begin-OwnsAll =
      Keeps-bind (transaction-OwnsAll true) λ _. Keeps-bind (exec-OwnsAll e _) (λ _. Keeps-pure tt)

  pub commit-OwnsAll : Keeps (OwnsAll e) (commit e)
  unfolding commit
  commit-OwnsAll =
      Keeps-bind (transaction-OwnsAll false) λ _. Keeps-bind (exec-OwnsAll e _) (λ _. Keeps-pure tt)

  pub cycle-OwnsAll : Keeps (OwnsAll e) (cycle e)
  unfolding cycle
  cycle-OwnsAll = Keeps-bind (exec-OwnsAll e _) (λ _. Keeps-pure tt)

  neutral : (c : Call) → IsSafe e none c → Keeps (OwnsAll e) (send c)
  neutral c safe = send-Keeps (OwnsAll e) (OwnsUse-framed e none) c safe

  pub open_db-OwnsAll : (fname : Text) (flag : Flag) → Keeps (OwnsAll e) (open_db e fname flag)
  unfolding open_db
  open_db-OwnsAll fname flag =
      Keeps-bind (ask-Keeps (OwnsAll e) (OwnsUse-framed e none) _ _ (λ h live k. refl)) λ rc.
        Keeps-if (eqb rc 0)
          (Keeps-bind (neutral _ (λ h live k. refl)) λ _. Keeps-bind (exec-OwnsAll e _) λ _.
            Keeps-bind (exec-OwnsAll e _) λ _.
              Keeps-bind (neutral _ (λ h live k. refl))
                λ _. Keeps-bind (neutral _ (λ h live k. refl)) λ _. neutral _ (λ h live k. refl))
          (Keeps-raise _)
