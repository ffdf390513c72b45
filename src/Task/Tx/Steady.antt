-- ===== src/Task/Tx/Steady.antt =====
-- Chains of calls whose successful runs do not depend on which calls could have failed.
use pi_bully.Prelude.{◌≡◌, refl, ◌⊎◌, inl, inr, Bool, true, false, List, [], ◌∷◌}
use pi_bully.Task.Model.{Db}
use pi_bully.Task.Tx.{
  Reply, Error, ok, err, Tx, pure, ◌>>=◌, ◌>>◌, fail, guard, call, read, modify, query, exec, Exit,
  commit, leave, close, transaction,
}

-- A run that gets through did what the run without a failing call does.
pub data Steady {A : Type 0} (m : Tx A) (db : Db) (replies : List Reply) : Type 0 where
  fails : (e : Error) → m db replies ≡ err e → Steady m db replies
  agrees :
      (a : A) (db' : Db) (rest : List Reply)
      → m db replies ≡ ok (a, db', rest)
      → m db [] ≡ ok (a, db', [])
      → Steady m db replies

abbrev pub IsSteady : {A : Type 0} → Tx A → Type 0
IsSteady m = (db : Db) (replies : List Reply) → Steady m db replies

pub IsSteady-pure : {A : Type 0} (a : A) → IsSteady (pure a)
IsSteady-pure a db replies = agrees a db replies refl refl

pub IsSteady-fail : {A : Type 0} (e : Error) → IsSteady (fail {A = A} e)
IsSteady-fail e db replies = fails e refl

pub IsSteady-guard : (b : Bool) (e : Error) → IsSteady (guard b e)
IsSteady-guard true e db replies = agrees tt db replies refl refl
IsSteady-guard false e db replies = fails e refl

pub IsSteady-call : IsSteady call
unfolding call
IsSteady-call db [] = agrees tt db [] refl refl
IsSteady-call db (Reply.answered ∷ replies) = agrees tt db replies refl refl
IsSteady-call db (Reply.failed ∷ replies) = fails Error.unavailable refl
IsSteady-call db (Reply.lost ∷ replies) = fails Error.unavailable refl

pub IsSteady-read : {A : Type 0} (f : Db → A) → IsSteady (read f)
IsSteady-read f db replies = agrees (f db) db replies refl refl

pub IsSteady-modify : (f : Db → Db) → IsSteady (modify f)
IsSteady-modify f db replies = agrees tt (f db) replies refl refl

pub IsSteady-bind :
    {A B : Type 0} (m : Tx A) (f : A → Tx B)
    → IsSteady m
    → ((a : A) → IsSteady (f a))
    → IsSteady (m >>= f)
IsSteady-bind {A} m f sm sf db replies = go (sm db replies)
  where
    next :
        (a : A) (db' : Db) (rest : List Reply)
        → m db replies ≡ ok (a, db', rest)
        → m db [] ≡ ok (a, db', [])
        → Steady (f a) db' rest
        → Steady (m >>= f) db replies
    next a db' rest p q (fails e r) = fails e (rw (p, ◌>>=◌) r)
    next a db' rest p q (agrees b db'' rest' r r') =
        agrees b db'' rest' (rw (p, ◌>>=◌) r) (rw (q, ◌>>=◌) r')

    go : Steady m db replies → Steady (m >>= f) db replies
    go (fails e p) = fails e (rw (p, ◌>>=◌))
    go (agrees a db' rest p q) = next a db' rest p q (sf a db' rest)

pub IsSteady-then :
    {B : Type 0} (m : Tx (Unit {0})) (k : Tx B) → IsSteady m → IsSteady k → IsSteady (m >> k)
IsSteady-then m k sm sk = IsSteady-bind m (λ _. k) sm (λ _. sk)

pub IsSteady-query : {A : Type 0} (f : Db → A) → IsSteady (query f)
unfolding query
IsSteady-query f = IsSteady-then call (read f) IsSteady-call (IsSteady-read f)

pub IsSteady-exec : (f : Db → Db) → IsSteady (exec f)
unfolding exec
IsSteady-exec f = IsSteady-then call (modify f) IsSteady-call (IsSteady-modify f)

-- What a transaction leaves is what was there or what it leaves when no call fails; and if it
-- answers with a value, it has done all that it does when no call fails.
abbrev pub IsAtomic : {A : Type 0} → Tx (Exit A) → Db → List Reply → Type 0
IsAtomic {A} body db replies =
    (((transaction body db replies).0 ≡ db)
      ⊎ ((transaction body db replies).0 ≡ (transaction body db []).0))
    × ((a : A)
        → (transaction body db replies).1 ≡ ok a
        → transaction body db replies ≡ transaction body db [])

transaction_failed :
    {A : Type 0} (body : Tx (Exit A)) (db : Db) (replies : List Reply) (e : Error)
    → (call >> body) db replies ≡ err e
    → transaction body db replies ≡ (db, err e)
unfolding transaction
transaction_failed body db replies e p = rw (p, transaction)

transaction_closed :
    {A : Type 0} (body : Tx (Exit A)) (db : Db) (replies : List Reply) (exit : Exit A) (db' : Db)
    (rest : List Reply)
    → (call >> body) db replies ≡ ok (exit, db', rest)
    → transaction body db replies ≡ close db exit db' rest
unfolding transaction
transaction_closed body db replies exit db' rest p = rw (p, transaction)

close_atomic :
    {A : Type 0} (db : Db) (exit : Exit A) (db' : Db) (rest : List Reply)
    → (((close db exit db' rest).0 ≡ db) ⊎ ((close db exit db' rest).0 ≡ (close db exit db' []).0))
      × ((a : A)
          → (close db exit db' rest).1 ≡ ok a
          → close db exit db' rest ≡ close db exit db' [])
close_atomic db (leave a) db' rest = (inl refl, λ b e. refl)
close_atomic db (commit a) db' [] = (inr refl, λ b e. refl)
close_atomic db (commit a) db' (Reply.answered ∷ rest) = (inr refl, λ b e. refl)
close_atomic db (commit a) db' (Reply.failed ∷ rest) = (inl refl, λ b e. cc)
close_atomic db (commit a) db' (Reply.lost ∷ rest) = (inr refl, λ b e. cc)

pub steady_transaction :
    {A : Type 0} (body : Tx (Exit A)) (db : Db) (replies : List Reply)
    → IsSteady body
    → IsAtomic body db replies
steady_transaction {A} body db replies s = go (IsSteady-then call body IsSteady-call s db replies)
  where
    go : Steady (call >> body) db replies → IsAtomic body db replies
    go (fails e p) = rw (transaction_failed body db replies e p) (inl refl, λ a q. cc)
    go (agrees exit db' rest p q) =
        rw
          (
            transaction_closed body db replies exit db' rest p,
            transaction_closed body db [] exit db' [] q,
          )
          (close_atomic db exit db' rest)
