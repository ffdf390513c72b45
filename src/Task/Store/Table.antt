-- ===== src/Task/Store/Table.antt =====
-- migrations/000001_init.up.sql: what holds of the table of leases, and what each statement keeps.
use pi_bully.Prelude.{
  ℕ, ◌≡◌, refl, sym, ◌≢◌, none, some, List, [], ◌∷◌, arith, ℤ, to_int64, of_int64, All, Apart,
}
use pi_bully.Task.Model.{LeaseRow, TaskRow}
use pi_bully.Task.Query.{task_of, delete_lease, upsert_lease}
use pi_bully.Task.Query.Leases.{holder_of, IsKey}

-- The int64 of a uint64.
abbrev pub IsWord : ℤ → Type 0
IsWord z = to_int64 (of_int64 z) ≡ z

-- `task_id` is the primary key, and `worker_id` is written as the int64 of a uint64.
pub record IsTable (rows : List LeaseRow) : Type 0 where
  pub keys : Apart (λ l. l.task_id) rows
  pub words : All (λ l. IsWord l.worker_id) rows

pub holder_of-absent :
    (t : ℕ) (rows : List LeaseRow) → All (λ l. l.task_id ≢ t) rows → holder_of t rows ≡ none
unfolding holder_of
holder_of-absent t [] h = refl
holder_of-absent t (l ∷ rows) h = ground (arith, holder_of-absent t rows h.1)

pub Apart-IsKey : (t : ℕ) (rows : List LeaseRow) → Apart (λ l. l.task_id) rows → IsKey t rows
Apart-IsKey t [] h = tt
Apart-IsKey t (l ∷ rows) h = (λ e. holder_of-absent t rows (rw (sym e) h.0), Apart-IsKey t rows h.1)

module _ (P : LeaseRow → Type 0) where
  All-delete : (t : ℕ) (w : ℤ) (rows : List LeaseRow) → All P rows → All P (delete_lease t w rows)
  unfolding delete_lease
  All-delete t w [] h = h
  All-delete t w (l ∷ rows) h = ground (arith, All-delete t w rows h.1)

Apart-delete :
    (t : ℕ) (w : ℤ) (rows : List LeaseRow)
    → Apart (λ l. l.task_id) rows
    → Apart (λ l. l.task_id) (delete_lease t w rows)
unfolding delete_lease
Apart-delete t w [] h = h
Apart-delete t w (l ∷ rows) h =
    ground (arith, Apart-delete t w rows h.1, All-delete (λ y. y.task_id ≢ l.task_id) t w rows h.0)

pub delete-IsTable :
    (t : ℕ) (w : ℤ) (rows : List LeaseRow) → IsTable rows → IsTable (delete_lease t w rows)
delete-IsTable t w rows h = record {
  keys = Apart-delete t w rows h.keys;
  words = All-delete (λ l. IsWord l.worker_id) t w rows h.words;
}

Absent-upsert :
    (d t : ℕ) (w : ℤ) (expires_at : ℕ) (rows : List LeaseRow)
    → t ≢ d
    → All (λ l. l.task_id ≢ d) rows
    → All (λ l. l.task_id ≢ d) (upsert_lease t w expires_at rows)
unfolding upsert_lease
Absent-upsert d t w expires_at [] n h = (n, tt)
Absent-upsert d t w expires_at (l ∷ rows) n h =
    ground (arith, Absent-upsert d t w expires_at rows n h.1)

Apart-upsert :
    (t : ℕ) (w : ℤ) (expires_at : ℕ) (rows : List LeaseRow)
    → Apart (λ l. l.task_id) rows
    → Apart (λ l. l.task_id) (upsert_lease t w expires_at rows)
unfolding upsert_lease
Apart-upsert t w expires_at [] h = (tt, tt)
Apart-upsert t w expires_at (l ∷ rows) h =
    ground
      (arith, Apart-upsert t w expires_at rows h.1, Absent-upsert l.task_id t w expires_at rows)

words-upsert :
    (t : ℕ) (w : ℤ) (expires_at : ℕ) (rows : List LeaseRow)
    → IsWord w
    → All (λ l. IsWord l.worker_id) rows
    → All (λ l. IsWord l.worker_id) (upsert_lease t w expires_at rows)
unfolding upsert_lease
words-upsert t w expires_at [] p h = (p, tt)
words-upsert t w expires_at (l ∷ rows) p h = ground (arith, words-upsert t w expires_at rows p h.1)

pub upsert-IsTable :
    (t : ℕ) (w : ℤ) (expires_at : ℕ) (rows : List LeaseRow)
    → IsWord w
    → IsTable rows
    → IsTable (upsert_lease t w expires_at rows)
upsert-IsTable t w expires_at rows p h = record {
  keys = Apart-upsert t w expires_at rows h.keys;
  words = words-upsert t w expires_at rows p h.words;
}

All-holds_later :
    (l : LeaseRow) (rows ys : List LeaseRow)
    → All (λ y. y.task_id ≢ l.task_id) ys
    → All (λ y. holder_of y.task_id rows ≡ some y.worker_id) ys
    → All (λ y. holder_of y.task_id (l ∷ rows) ≡ some y.worker_id) ys
unfolding holder_of
All-holds_later l rows [] n h = h
All-holds_later l rows (y ∷ ys) n h = ground (arith, All-holds_later l rows ys n.1 h.1)

-- A row of the table says who holds its task.
pub All-holds :
    (rows : List LeaseRow)
    → Apart (λ l. l.task_id) rows
    → All (λ l. holder_of l.task_id rows ≡ some l.worker_id) rows
unfolding holder_of
All-holds [] h = tt
All-holds (l ∷ rows) h = (ground arith, All-holds_later l rows rows h.0 (All-holds rows h.1))

-- A row of `task` is the one that its number finds.
All-task_later :
    (r : TaskRow) (rows ys : List TaskRow)
    → All (λ y. y.id ≢ r.id) ys
    → All (λ y. task_of y.id rows ≡ some y) ys
    → All (λ y. task_of y.id (r ∷ rows) ≡ some y) ys
unfolding task_of
All-task_later r rows [] n h = h
All-task_later r rows (y ∷ ys) n h = ground (arith, All-task_later r rows ys n.1 h.1)

pub All-task_of :
    (rows : List TaskRow) → Apart (λ r. r.id) rows → All (λ r. task_of r.id rows ≡ some r) rows
unfolding task_of
All-task_of [] h = tt
All-task_of (r ∷ rows) h = (ground arith, All-task_later r rows rows h.0 (All-task_of rows h.1))

pub task_of-All :
    (P : TaskRow → Type 0) (t : ℕ) (q : TaskRow) (rows : List TaskRow)
    → task_of t rows ≡ some q
    → All P rows
    → P q × (q.id ≡ t)
unfolding task_of
task_of-All P t q [] e h = absurd (ground arith)
task_of-All P t q (r ∷ rows) e h = ground (arith, task_of-All P t q rows, h.0, h.1)
