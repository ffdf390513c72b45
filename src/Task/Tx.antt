-- ===== src/Task/Tx.antt =====
-- pgx: a transaction as a chain of calls of the database, each of which may fail.
pub mod Steady
use pi_bully.Prelude.{ℕ, Bool, true, false, List, [], ◌∷◌}
use pi_bully.Task.Model.{TaskState, Db}

-- What becomes of one call of the database: it is answered, it fails, or it takes effect and its
-- answer is lost, which the caller sees as a failure. Past the end of a list of replies calls are
-- answered.
pub data Reply : Type 0 where
  answered failed lost : Reply

pub data Error : Type 0 where
  unavailable scan_failed no_rows no_task not_leased negative_limit : Error
  invalid_status : TaskState → Error

pub data Result (A : Type 0) : Type 0 where
  ok : A → Result A
  err : Error → Result A

abbrev pub Tx : Type 0 → Type 0
Tx A = Db → List Reply → Result (A × Db × List Reply)

abbrev pub pure : {A : Type 0} → A → Tx A
pure a db replies = ok (a, db, replies)

infixl 5 ◌>>=◌ ◌>>◌
abbrev pub ◌>>=◌ : {A B : Type 0} → Tx A → (A → Tx B) → Tx B
◌>>=◌ m f db replies = elim (m db replies) [
  | ok (a, db', replies') ↦ f a db' replies'
  | err e ↦ err e
]

abbrev pub ◌>>◌ : {B : Type 0} → Tx (Unit {0}) → Tx B → Tx B
m >> k = m >>= λ _. k

abbrev pub fail : {A : Type 0} → Error → Tx A
fail e db replies = err e

abbrev pub guard : Bool → Error → Tx (Unit {0})
guard true e db replies = ok (tt, db, replies)
guard false e db replies = err e

-- One call of the database inside a transaction, where a lost answer is a failure too.
unfoldable pub call : Tx (Unit {0})
call db [] = ok (tt, db, [])
call db (answered ∷ replies) = ok (tt, db, replies)
call db (failed ∷ replies) = err unavailable
call db (lost ∷ replies) = err unavailable

abbrev pub read : {A : Type 0} → (Db → A) → Tx A
read f db replies = ok (f db, db, replies)

abbrev pub modify : (Db → Db) → Tx (Unit {0})
modify f db replies = ok (tt, f db, replies)

-- A query.
unfoldable pub query : {A : Type 0} → (Db → A) → Tx A
unfolding call
query f = do call; read f

-- A statement that changes the database.
unfoldable pub exec : (Db → Db) → Tx (Unit {0})
unfolding call
exec f = do call; modify f

-- A method either commits, or returns with nothing to commit and rolls back.
pub data Exit (A : Type 0) : Type 0 where
  commit : A → Exit A
  leave : A → Exit A

abbrev pub close : {A : Type 0} → Db → Exit A → Db → List Reply → Db × Result A
close before (leave a) db replies = (before, ok a)
close before (commit a) db [] = (db, ok a)
close before (commit a) db (answered ∷ replies) = (db, ok a)
close before (commit a) db (failed ∷ replies) = (before, err unavailable)
close before (commit a) db (lost ∷ replies) = (db, err unavailable)

-- `pool.Begin`, the body, and `Commit` or the deferred `Rollback`.
unfoldable pub transaction : {A : Type 0} → Tx (Exit A) → Db → List Reply → Db × Result A
unfolding call
transaction body db replies = elim ((call >> body) db replies) [
  | ok (exit, db', replies') ↦ close db exit db' replies'
  | err e ↦ (db, err e)
]
