-- ===== src/Task/Store/Claim.antt =====
-- task/store.go: how many tasks `ClaimQueued` answers.
use mathlib.Core.Option
use pi_bully.Prelude.{
  ℕ, zero, suc, ◌≤◌, ◌≡◌, ◌≢◌, refl, ◌∙◌, ap, sym, String, Option, none, some, List, [], ◌∷◌,
  length, arith, Option-cases, inl, inr, pos, negsuc,
}
use pi_bully.Task.Model.{Task, Db}
use pi_bully.Task.Query.{limit, claim_queued}
use pi_bully.Task.Tx.{
  Reply, Result, ok, err, Exit, commit, leave, transaction, close, answered, failed, lost,
  negative_limit, query, call,
}
use pi_bully.Task.Store.{
  Store, Answer, claim, claimed, perform, scan_all, scan_task, claim_scanned, mark_scheduling,
  claim_queued_tx, body_of,
}
use pi_bully.Task.Store.Atomic.{perform_atomic}

length-limit {ℓ} : {A : Type ℓ} (n : ℕ) (xs : List A) → length (limit n xs) ≤ n
unfolding limit
length-limit zero xs = omega arith
length-limit (suc n) [] = omega arith
length-limit (suc n) (x ∷ xs) = omega (arith, length-limit n xs)

length-scan_all :
    {A B : Type 0} (scan : A → Option B) (xs : List A) (ys : List B)
    → scan_all scan xs ≡ some ys
    → length ys ≡ length xs
unfolding scan_all Option.bind
length-scan_all scan [] ys e = ground arith
length-scan_all scan (x ∷ xs) ys e = elim (Option-cases (scan x)) [
  | inl p ↦ absurd (ground arith)
  | inr (y, p) ↦ elim (Option-cases (scan_all scan xs)) [
    | inl q ↦ absurd (ground arith)
    | inr (zs, q) ↦ ground (arith, length-scan_all scan xs zs q)
  ]
]

abbrev exit_value : {A : Type 0} → Exit A → A
exit_value (commit a) = a
exit_value (leave a) = a

claim_queued-length : (db : Db) (n : ℕ) → length (claim_queued db n) ≤ n
unfolding claim_queued
claim_queued-length db n = length-limit n _

claim_scanned-value :
    (id : ℕ) (ts : List Task) (db db' : Db) (replies rest : List Reply) (exit : Exit (List Task))
    → claim_scanned id ts db replies ≡ ok (exit, db', rest)
    → exit_value exit ≡ ts
unfolding claim_scanned
claim_scanned-value id [] db db' replies rest exit e = ground arith
claim_scanned-value id (t ∷ ts) db db' replies rest exit e =
    go (mark_scheduling id (t ∷ ts) db replies) refl
  where
    go :
        (r : Result (Unit {0} × Db × List Reply))
        → mark_scheduling id (t ∷ ts) db replies ≡ r
        → exit_value exit ≡ t ∷ ts
    go (err x) p = absurd (ground arith)
    go (ok (u, d, rs)) p = ground arith

-- The answers of the transaction's body, when no call fails.
claim_queued_tx-length :
    (scan_text : Option String → Option String) (id n : ℕ) (db db' : Db) (rest : List Reply)
    (exit : Exit (List Task))
    → claim_queued_tx scan_text id (pos n) db [] ≡ ok (exit, db', rest)
    → length (exit_value exit) ≤ n
unfolding claim_queued_tx query call
claim_queued_tx-length scan_text id n db db' rest exit e =
    go (scan_all (scan_task scan_text) (claim_queued db n)) refl
  where
    go :
        (o : Option (List Task))
        → scan_all (scan_task scan_text) (claim_queued db n) ≡ o
        → length (exit_value exit) ≤ n
    go none p = absurd (ground arith)
    go (some ts) p =
        let scanned : claim_scanned id ts db [] ≡ ok (exit, db', rest) = ground arith in
        let same = claim_scanned-value id ts db db' [] rest exit scanned in
        omega (
          arith,
          ap (λ (l : List Task). length l) same,
          length-scan_all (scan_task scan_text) (claim_queued db n) ts p,
          claim_queued-length db n,
        )

close-claimed :
    (db d : Db) (replies : List Reply) (a ts : List Task)
    → (close db (commit (claimed a)) d replies).1 ≡ ok (claimed ts)
    → a ≡ ts
close-claimed db d [] a ts h = cc
close-claimed db d (answered ∷ replies) a ts h = cc
close-claimed db d (failed ∷ replies) a ts h = cc
close-claimed db d (lost ∷ replies) a ts h = cc

perform_negative :
    (s : Store) (now : ℕ) (scan_text : Option String → Option String) (id n : ℕ) (db : Db)
    → (perform s now (claim scan_text id (negsuc n)) db []).1 ≡ err negative_limit
unfolding perform transaction body_of call claim_queued_tx
perform_negative s now scan_text id n db = refl

perform_claim :
    (s : Store) (now : ℕ) (scan_text : Option String → Option String) (id n : ℕ) (db : Db)
    (ts : List Task)
    → (perform s now (claim scan_text id (pos n)) db []).1 ≡ ok (claimed ts)
    → length ts ≤ n
unfolding perform transaction body_of call
perform_claim s now scan_text id n db ts h = go (claim_queued_tx scan_text id (pos n) db []) refl
  where
    go :
        (r : Result (Exit (List Task) × Db × List Reply))
        → claim_queued_tx scan_text id (pos n) db [] ≡ r
        → length ts ≤ n
    go (err x) p = absurd (ground arith)
    go (ok (commit a, d, rs)) p =
        let end : (close db (commit (claimed a)) d rs).1 ≡ ok (claimed ts) = ground arith in
        let same = close-claimed db d rs a ts end in
        omega (
          arith,
          ap (λ (l : List Task). length l) same,
          claim_queued_tx-length scan_text id n db d rs (commit a) p,
        )
    go (ok (leave a, d, rs)) p =
        let same : a ≡ ts = ground arith in
        omega (
          arith,
          ap (λ (l : List Task). length l) same,
          claim_queued_tx-length scan_text id n db d rs (leave a) p,
        )

-- A claim answers no more tasks than it is asked for, whichever calls of the database fail.
pub claim-length :
    (s : Store) (now : ℕ) (scan_text : Option String → Option String) (id n : ℕ) (db : Db)
    (replies : List Reply) (ts : List Task)
    → (perform s now (claim scan_text id (pos n)) db replies).1 ≡ ok (claimed ts)
    → length ts ≤ n
claim-length s now scan_text id n db replies ts h = perform_claim s now scan_text id n db ts (
    ap (λ r. r.1)
      (sym ((perform_atomic s now (claim scan_text id (pos n)) db replies).1 (claimed ts) h))
    ∙ h)

-- Below 0 the database refuses the limit.
pub claim_negative :
    (s : Store) (now : ℕ) (scan_text : Option String → Option String) (id n : ℕ) (db : Db)
    (replies : List Reply) (a : Answer)
    → (perform s now (claim scan_text id (negsuc n)) db replies).1 ≢ ok a
claim_negative s now scan_text id n db replies a h =
    let whole = (perform_atomic s now (claim scan_text id (negsuc n)) db replies).1 a h in
    let same : err negative_limit ≡ ok a =
      sym (perform_negative s now scan_text id n db) ∙ (ap (λ r. r.1) (sym whole) ∙ h) in
    cc same
