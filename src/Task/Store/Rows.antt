-- ===== src/Task/Store/Rows.antt =====
-- task/store.go: the rows over which the loops of `ClaimQueued` and of the recoveries go.
use pi_bully.Prelude.{
  ℕ, ◌≡◌, sym, subst, ap, ◌∙◌, ◌≢◌, some, Option, List, [], ◌∷◌, arith, ℤ, pos, to_int64, of_int64,
  Apart, All, All-map, All-select, All-order_by, Apart-select, Apart-order_by,
}
use pi_bully.Cluster.Members.{Members}
use pi_bully.Task.Model.{Db, LeaseRow}
use pi_bully.Task.Query.{expires_first, select_expired_leases}
use pi_bully.Task.Query.Leases.{holder_of}
use pi_bully.Task.Store.{scan_all, scan_lease, dead_leases}
use pi_bully.Task.Store.Scan.{scan_all-All, scan_all-Apart, All-both}
use pi_bully.Task.Store.Table.{IsWord, All-holds}
use pi_bully.Task.Store.Advance.{IsSound, task_of-IsOrderly}
use pi_bully.Task.Store.Loops.{IsHeld}

-- The leases of workers that are not alive.
module _ (P : ℕ × ℕ → Type 0) (alive : Members) where
  All-dead :
      (rows : List LeaseRow)
      → All (λ l. P (l.task_id, of_int64 l.worker_id)) rows
      → All P (dead_leases alive rows)
  unfolding dead_leases
  All-dead [] h = tt
  All-dead (l ∷ rows) h = ground (arith, All-dead rows h.1)

Apart-dead :
    (alive : Members) (rows : List LeaseRow)
    → Apart (λ l. l.task_id) rows
    → Apart (λ (l : ℕ × ℕ). l.0) (dead_leases alive rows)
unfolding dead_leases
Apart-dead alive [] h = tt
Apart-dead alive (l ∷ rows) h =
    ground (arith, Apart-dead alive rows h.1, All-dead (λ d. d.0 ≢ l.task_id) alive rows h.0)

module _ (db : Db) (sound : IsSound db) where
  leases_held :
      All (λ l. (holder_of l.task_id db.leases ≡ some l.worker_id) × IsWord l.worker_id) db.leases
  leases_held =
      All-both (λ l. holder_of l.task_id db.leases ≡ some l.worker_id) (λ l. IsWord l.worker_id)
        db.leases (All-holds db.leases sound.table.keys) sound.table.words

  lease-IsHeld :
      (l : LeaseRow) (w : ℕ)
      → holder_of l.task_id db.leases ≡ some l.worker_id
      → to_int64 w ≡ l.worker_id
      → IsHeld db (l.task_id, w)
  lease-IsHeld l w held e = (
    held ∙ ap some (sym e),
    λ q row. (task_of-IsOrderly sound l.task_id q row).held (λ n. cc (held, n)),
  )

  pub dead-IsHeld : (alive : Members) → All (IsHeld db) (dead_leases alive db.leases)
  dead-IsHeld alive = All-dead (IsHeld db) alive db.leases (
      All-map _ (λ l. IsHeld db (l.task_id, of_int64 l.worker_id))
        (λ l h. lease-IsHeld l (of_int64 l.worker_id) h.0 h.1) db.leases leases_held)

  pub dead-Apart : (alive : Members) → Apart (λ (l : ℕ × ℕ). l.0) (dead_leases alive db.leases)
  dead-Apart alive = Apart-dead alive db.leases sound.table.keys

  -- The driver reads a number that is not negative as itself.
  module _ (scan_uint64 : ℤ → Option ℕ)
      (driver : (z : ℤ) (w : ℕ) → scan_uint64 z ≡ some w → z ≡ pos w) where
    scan_lease_key :
        (l : LeaseRow) (d : ℕ × ℕ) → scan_lease scan_uint64 l ≡ some d → d.0 ≡ l.task_id
    scan_lease_key l d e = ground arith

    scan_lease_worker :
        (l : LeaseRow) (d : ℕ × ℕ)
        → scan_lease scan_uint64 l ≡ some d
        → scan_uint64 l.worker_id ≡ some d.1
    scan_lease_worker l d e = ground arith

    scanned-IsHeld :
        (l : LeaseRow) (d : ℕ × ℕ)
        → scan_lease scan_uint64 l ≡ some d
        → (holder_of l.task_id db.leases ≡ some l.worker_id) × IsWord l.worker_id
        → IsHeld db d
    scanned-IsHeld l d e h =
        let z : l.worker_id ≡ pos d.1 = driver l.worker_id d.1 (scan_lease_worker l d e) in
        let word : to_int64 d.1 ≡ l.worker_id = ap (λ x. to_int64 (of_int64 x)) (sym z) ∙ h.1 in
        subst (λ t. IsHeld db (t, d.1)) (sym (scan_lease_key l d e)) (lease-IsHeld l d.1 h.0 word)

    module _ (now : ℕ) (rows : List (ℕ × ℕ))
        (read : scan_all (scan_lease scan_uint64) (select_expired_leases db now) ≡ some rows) where
      pub expired-IsHeld : All (IsHeld db) rows
      unfolding select_expired_leases
      expired-IsHeld =
          scan_all-All
            (λ l. (holder_of l.task_id db.leases ≡ some l.worker_id) × IsWord l.worker_id)
            (IsHeld db) (scan_lease scan_uint64) scanned-IsHeld _ rows read
            (All-order_by _ expires_first _ (All-select _ _ db.leases leases_held))

      pub expired-Apart : Apart (λ (l : ℕ × ℕ). l.0) rows
      unfolding select_expired_leases
      expired-Apart =
          scan_all-Apart (λ (l : LeaseRow). l.task_id) (λ (l : ℕ × ℕ). l.0) (scan_lease scan_uint64)
            scan_lease_key _ rows read
            (Apart-order_by _ expires_first _ (Apart-select _ _ db.leases sound.table.keys))
