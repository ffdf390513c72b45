-- ===== src/Task/Query/Leases.antt =====
-- task/sql/: the lease of a task, before and after a change. `task_id` is the table's primary key.
use pi_bully.Prelude.{
  ℕ, ◌≡◌, refl, ◌≢◌, true, Option, none, some, List, [], ◌∷◌, arith, ◌==◌, if◌then◌else◌, ℤ,
  int_eq_refl, int_eq_sound,
}
use pi_bully.Task.Model.{LeaseRow}
use pi_bully.Task.Query.{owns_lease, delete_lease, upsert_lease}

-- The worker that holds the lease.
unfoldable pub holder_of : ℕ → List LeaseRow → Option ℤ
holder_of t [] = none
holder_of t (l ∷ rows) = if l.task_id == t then some l.worker_id else holder_of t rows

-- A task has one row at most.
abbrev pub IsKey : ℕ → List LeaseRow → Type 0
IsKey t [] = Unit {0}
IsKey t (l ∷ rows) = (l.task_id ≡ t → holder_of t rows ≡ none) × IsKey t rows

pub owns_lease-holder_of :
    (t : ℕ) (w : ℤ) (rows : List LeaseRow)
    → IsKey t rows
    → owns_lease t w rows ≡ true
    → holder_of t rows ≡ some w
unfolding owns_lease holder_of
owns_lease-holder_of t w [] k h = cc
owns_lease-holder_of t w (l ∷ rows) k h =
    ground (arith, owns_lease-holder_of t w rows k.1, int_eq_sound l.worker_id w)

pub holder_of-delete_none :
    (t d : ℕ) (w : ℤ) (rows : List LeaseRow)
    → holder_of t rows ≡ none
    → holder_of t (delete_lease d w rows) ≡ none
unfolding delete_lease holder_of
holder_of-delete_none t d w [] h = refl
holder_of-delete_none t d w (l ∷ rows) h = ground (arith, holder_of-delete_none t d w rows)

pub holder_of-delete_self :
    (t : ℕ) (w : ℤ) (rows : List LeaseRow)
    → IsKey t rows
    → holder_of t rows ≡ some w
    → holder_of t (delete_lease t w rows) ≡ none
unfolding delete_lease holder_of
holder_of-delete_self t w [] k h = refl
holder_of-delete_self t w (l ∷ rows) k h =
    ground
      (arith, holder_of-delete_self t w rows k.1, holder_of-delete_none t t w rows, int_eq_refl w)

pub holder_of-delete_ne :
    (t d : ℕ) (w : ℤ) (rows : List LeaseRow)
    → d ≢ t
    → holder_of t (delete_lease d w rows) ≡ holder_of t rows
unfolding delete_lease holder_of
holder_of-delete_ne t d w [] n = refl
holder_of-delete_ne t d w (l ∷ rows) n = ground (arith, holder_of-delete_ne t d w rows n)

pub holder_of-upsert :
    (t d : ℕ) (w : ℤ) (expires_at : ℕ) (rows : List LeaseRow)
    → holder_of t (upsert_lease d w expires_at rows) ≡ (if d == t then some w else holder_of t rows)
unfolding upsert_lease holder_of
holder_of-upsert t d w expires_at [] = refl
holder_of-upsert t d w expires_at (l ∷ rows) =
    ground (arith, holder_of-upsert t d w expires_at rows)

pub delete-IsKey :
    (t d : ℕ) (w : ℤ) (rows : List LeaseRow) → IsKey t rows → IsKey t (delete_lease d w rows)
unfolding delete_lease
delete-IsKey t d w [] k = k
delete-IsKey t d w (l ∷ rows) k =
    ground (arith, delete-IsKey t d w rows k.1, holder_of-delete_none t d w rows)

pub upsert-IsKey :
    (t d : ℕ) (w : ℤ) (expires_at : ℕ) (rows : List LeaseRow)
    → IsKey t rows
    → IsKey t (upsert_lease d w expires_at rows)
unfolding upsert_lease holder_of
upsert-IsKey t d w expires_at [] k = (λ e. refl, tt)
upsert-IsKey t d w expires_at (l ∷ rows) k =
    ground (arith, upsert-IsKey t d w expires_at rows k.1, holder_of-upsert t d w expires_at rows)
