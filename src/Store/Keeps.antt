-- ===== src/Store/Keeps.antt =====
-- Invariants of the database, one rule for each way to build an action.
use vibe_terminal.Base.{ℕ, Bool, true, false, Option, none, some}
use vibe_terminal.Store.Rows.{Tables}
use vibe_terminal.Store.Db.{
  Result, ok, err, Error, Conn, Db, pure, raise, branch, attempt, query, or_raise, ◌>>=◌, write,
  exec, rows_affected, require_affected, finish, transaction,
}

-- `m` keeps `P`, whether it returns or fails, and whichever statements fail.
pub record Keeps {A : Type 0} (P : Tables → Type 0) (m : Db A) : Type 0 where
  pub at : (c : Conn) → P c.tables → P (m c).1.tables

-- What a statement writes has `P`.
abbrev pub Kept : (Tables → Type 0) → Option (ℕ × Tables) → Type 0
Kept P none = Unit
Kept P (some (n, t)) = P t

module _ (P : Tables → Type 0) where
  finish_at :
      {A : Type 0} (b : Bool) (before : Tables) (a : A) (c : Conn)
      → P before
      → P c.tables
      → P (branch b (λ r. (err Error.driver, record r { tables = before })) (pure a) c).1.tables
  unfolding branch pure
  finish_at true before a c hb h = hb
  finish_at false before a c hb h = h

  finish_Keeps :
      {A : Type 0} (before : Tables) (r : Result A) (c : Conn)
      → P before
      → P c.tables
      → P (finish before r c).1.tables
  unfolding finish
  finish_Keeps before (ok a) c hb h = finish_at (c.faults 0) before a _ hb h
  finish_Keeps before (err e) c hb h = hb

  write_Keeps :
      (o : Option (ℕ × Tables)) (c : Conn) → Kept P o → P c.tables → P (write o c).1.tables
  unfolding write
  write_Keeps none c k h = h
  write_Keeps (some (n, t)) c k h = k

module _ {A : Type 0} {P : Tables → Type 0} where
  pub Keeps-pure : (a : A) → Keeps P (pure a)
  unfolding pure
  Keeps-pure a = record { at = λ c h. h }

  pub Keeps-raise : (e : Error) → Keeps P (raise {A = A} e)
  unfolding raise
  Keeps-raise e = record { at = λ c h. h }

  pub Keeps-branch : (b : Bool) (m n : Db A) → Keeps P m → Keeps P n → Keeps P (branch b m n)
  unfolding branch
  Keeps-branch true m n km kn = km
  Keeps-branch false m n km kn = kn

  attempt_at :
      (b : Bool) (m : Db A) (c : Conn)
      → Keeps P m
      → P c.tables
      → P (branch b (raise Error.driver) m c).1.tables
  unfolding branch raise
  attempt_at true m c k h = h
  attempt_at false m c k h = k.at c h

  pub Keeps-attempt : (m : Db A) → Keeps P m → Keeps P (attempt m)
  unfolding attempt
  Keeps-attempt m k = record { at = λ c h. attempt_at (c.faults 0) m _ k h }

  pub Keeps-query : (f : Tables → A) → Keeps P (query f)
  unfolding query
  Keeps-query f = Keeps-attempt _ (record { at = λ c h. h })

  pub Keeps-or_raise : (e : Error) (o : Option A) → Keeps P (or_raise e o)
  unfolding or_raise
  Keeps-or_raise e none = Keeps-raise e
  Keeps-or_raise e (some a) = Keeps-pure a

  pub Keeps-transaction : (m : Db A) → Keeps P m → Keeps P (transaction m)
  unfolding transaction
  Keeps-transaction m k =
      Keeps-attempt _ (record { at = λ c h. finish_Keeps P c.tables (m c).0 (m c).1 h (k.at c h) })

module _ {P : Tables → Type 0} where
  pub Keeps-exec :
      (f : Tables → Option (ℕ × Tables)) → ((t : Tables) → P t → Kept P (f t)) → Keeps P (exec f)
  unfolding exec
  Keeps-exec f k =
      Keeps-attempt _ (record { at = λ c h. write_Keeps P (f c.tables) c (k c.tables h) h })

  pub Keeps-rows_affected : (n : ℕ) → Keeps P (rows_affected n)
  unfolding rows_affected
  Keeps-rows_affected n = Keeps-attempt _ (Keeps-pure n)

module _ {A B : Type 0} {P : Tables → Type 0} where
  continue_Keeps :
      (r : Result A) (f : A → Db B) (c : Conn)
      → ((a : A) → Keeps P (f a))
      → P c.tables
      → P (◌>>=◌ (λ d. (r, d)) f c).1.tables
  unfolding ◌>>=◌
  continue_Keeps (ok a) f c kf h = (kf a).at c h
  continue_Keeps (err e) f c kf h = h

  pub Keeps-bind :
      (action : Db A) (after : A → Db B)
      → Keeps P action
      → ((a : A) → Keeps P (after a))
      → Keeps P (action >>= after)
  unfolding ◌>>=◌
  Keeps-bind action after kept kept_after = record {
    at = λ c h. continue_Keeps (action c).0 after (action c).1 kept_after (kept.at c h);
  }

pub Keeps-require_affected :
    {P : Tables → Type 0} (m : Db ℕ) (e : Error) → Keeps P m → Keeps P (require_affected m e)
unfolding require_affected
Keeps-require_affected m e k = Keeps-bind _ _ k λ n.
    Keeps-bind _ _ (Keeps-rows_affected n) λ a. Keeps-branch _ _ _ (Keeps-raise e) (Keeps-pure tt)

pub ruleset keeps_rules = (
  Keeps-pure, Keeps-raise, Keeps-branch, Keeps-query, Keeps-or_raise, Keeps-transaction, Keeps-exec,
  Keeps-rows_affected, Keeps-bind, Keeps-require_affected,
)
