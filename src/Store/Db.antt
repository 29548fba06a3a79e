-- ===== src/Store/Db.antt =====
-- The connection of store.go. A statement may fail for a reason outside the program (the disk, a
-- lock, a cancelled context): `faults n` says whether the n-th statement from now does. SQLite runs
-- a statement whole or not at all, and a transaction that does not commit leaves no trace.
use vibe_terminal.Base.{ℕ, suc, eqb, Bool, true, false, Option, none, some}
use vibe_terminal.Store.Rows.{Tables}

-- The errors of store.go, and `driver` for any that the driver returns, constraints included.
pub data Error : Type 0 where
  not_found conflict login_restart_required invalid_second_factor one_credential driver : Error

pub data Result {ℓ} (A : Type ℓ) : Type ℓ where
  ok : A → Result A
  err : Error → Result A

pub record Conn : Type 0 where
  pub tables : Tables
  pub faults : ℕ → Bool

abbrev pub Db : Type 0 → Type 0
Db A = Conn → Result A × Conn

-- The connection after one more statement.
abbrev pub next : Conn → Conn
next c = record c { faults = λ n. c.faults (suc n) }

module _ {A : Type 0} where
  unfoldable pub pure : A → Db A
  pure a c = (ok a, c)

  unfoldable pub raise : Error → Db A
  raise e c = (err e, c)

  -- An `if` between actions.
  unfoldable pub branch : Bool → Db A → Db A → Db A
  branch true m n = m
  branch false m n = n

  -- The next statement, unless it fails.
  unfoldable pub attempt : Db A → Db A
  unfolding branch raise
  attempt m c = branch (c.faults 0) (raise driver) m (next c)

  unfoldable pub query : (Tables → A) → Db A
  unfolding attempt
  query f = attempt (λ c. (ok (f c.tables), c))

  -- `row.Scan`, where no row is `sql.ErrNoRows`
  unfoldable pub or_raise : Error → Option A → Db A
  unfolding raise pure
  or_raise e none = raise e
  or_raise e (some a) = pure a

infixl 10 ◌>>=◌ ◌>>◌
-- Opening this opens the actions above too.
unfoldable pub ◌>>=◌ : {A B : Type 0} → Db A → (A → Db B) → Db B
unfolding query or_raise pure
◌>>=◌ m f c = let (r, c') = m c in elim r [ ok a ↦ f a c' | err e ↦ (err e, c') ]

abbrev pub ◌>>◌ : {A B : Type 0} → Db A → Db B → Db B
m >> k = m >>= λ _. k

-- A statement that writes; `none` is a constraint that fails. It returns the rows affected.
unfoldable pub write : Option (ℕ × Tables) → Db ℕ
write none c = (err driver, c)
write (some (n, t)) c = (ok n, record c { tables = t })

unfoldable pub exec : (Tables → Option (ℕ × Tables)) → Db ℕ
unfolding attempt write
exec f = attempt (λ c. write (f c.tables) c)

-- `result.RowsAffected()`
unfoldable pub rows_affected : ℕ → Db ℕ
unfolding attempt pure
rows_affected n = attempt (pure n)

-- `requireAffected`. Opening this opens every action but `transaction`.
unfoldable pub require_affected : Db ℕ → Error → Db Unit
unfolding ◌>>=◌ exec rows_affected
require_affected m empty_error = do
  result ← m
  affected ← rows_affected result
  branch (eqb affected 0) (raise empty_error) (pure tt)

-- `BeginTx`, the body, and `Commit`; the deferred `Rollback` undoes what did not commit.
unfoldable pub finish : {A : Type 0} → Tables → Result A → Db A
unfolding branch pure
finish before (err e) c = (err e, record c { tables = before })
finish before (ok a) c =
    branch (c.faults 0) (λ r. (err driver, record r { tables = before })) (pure a) (next c)

-- Opening this opens every action.
unfoldable pub transaction : {A : Type 0} → Db A → Db A
unfolding require_affected finish
transaction body = attempt (λ c. let (r, c') = body c in finish c.tables r c')
