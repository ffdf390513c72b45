-- ===== src/Cluster/Members.antt =====
-- cluster/event.go, cluster/cluster.go: the map from node identifiers to members. The map is an
-- association list with one entry for a key; an assignment puts the entry in its place.
use pi_bully.Prelude.{
  ℕ, ◌≡◌, refl, String, Option, none, some, List, [], ◌∷◌, arith, ◌==◌, if◌then◌else◌, Absent,
  Distinct, ◌≢◌, Bool-cases, inl, inr, subst,
}

pub record Member : Type 0 where
  pub id : ℕ
  pub grpc_addr : String

abbrev pub Members : Type 0
Members = List (ℕ × Member)

-- `members[id]`
unfoldable pub lookup : ℕ → Members → Option Member
lookup id [] = none
lookup id ((k, m) ∷ ms) = if k == id then some m else lookup id ms

-- `members[id] = m`
unfoldable pub insert : ℕ → Member → Members → Members
insert id m [] = (id, m) ∷ []
insert id m ((k, n) ∷ ms) = if k == id then (id, m) ∷ ms else (k, n) ∷ insert id m ms

-- `delete(members, id)`
unfoldable pub delete : ℕ → Members → Members
delete id [] = []
delete id ((k, n) ∷ ms) = if k == id then delete id ms else (k, n) ∷ delete id ms

-- The members over which a `range` loop goes.
abbrev pub values : Members → List Member
values [] = []
values ((k, m) ∷ ms) = m ∷ values ms

abbrev pub keys : Members → List ℕ
keys [] = []
keys ((k, m) ∷ ms) = k ∷ keys ms

-- A map keeps a member under its own identifier.
abbrev pub IsKeyed : Members → Type 0
IsKeyed [] = Unit {0}
IsKeyed ((k, m) ∷ ms) = (m.id ≡ k) × IsKeyed ms

pub insert-IsKeyed :
    (id : ℕ) (m : Member) (ms : Members) → m.id ≡ id → IsKeyed ms → IsKeyed (insert id m ms)
unfolding insert
insert-IsKeyed id m [] e k = (e, tt)
insert-IsKeyed id m ((j, n) ∷ ms) e k = ground (arith, insert-IsKeyed id m ms e k.1)

pub delete-IsKeyed : (id : ℕ) (ms : Members) → IsKeyed ms → IsKeyed (delete id ms)
unfolding delete
delete-IsKeyed id [] k = k
delete-IsKeyed id ((j, n) ∷ ms) k = ground (arith, delete-IsKeyed id ms k.1)

insert-Absent :
    (a id : ℕ) (m : Member) (ms : Members)
    → id ≢ a
    → Absent a (keys ms)
    → Absent a (keys (insert id m ms))
unfolding insert
insert-Absent a id m [] n h = (n, tt)
insert-Absent a id m ((j, x) ∷ ms) n h = ground (arith, insert-Absent a id m ms n h.1)

pub insert-Distinct :
    (id : ℕ) (m : Member) (ms : Members) → Distinct (keys ms) → Distinct (keys (insert id m ms))
unfolding insert
insert-Distinct id m [] d = (tt, tt)
insert-Distinct id m ((j, x) ∷ ms) d = elim (Bool-cases (j == id)) [
  | inl e ↦ let p : j ≡ id = ground arith in rw e (subst (λ a. Absent a (keys ms)) p d.0, d.1)
  | inr e ↦ rw e (insert-Absent j id m ms (λ p. ground arith) d.0, insert-Distinct id m ms d.1)
]

delete-Absent : (a id : ℕ) (ms : Members) → Absent a (keys ms) → Absent a (keys (delete id ms))
unfolding delete
delete-Absent a id [] h = h
delete-Absent a id ((j, x) ∷ ms) h = ground (arith, delete-Absent a id ms h.1)

pub delete-Distinct : (id : ℕ) (ms : Members) → Distinct (keys ms) → Distinct (keys (delete id ms))
unfolding delete
delete-Distinct id [] d = d
delete-Distinct id ((j, x) ∷ ms) d =
    ground (arith, delete-Distinct id ms d.1, delete-Absent j id ms d.0)

pub lookup-insert :
    (j id : ℕ) (m : Member) (ms : Members)
    → lookup j (insert id m ms) ≡ (if id == j then some m else lookup j ms)
unfolding lookup insert
lookup-insert j id m [] = refl
lookup-insert j id m ((k, n) ∷ ms) = ground (arith, lookup-insert j id m ms)

pub lookup-delete :
    (j id : ℕ) (ms : Members) → lookup j (delete id ms) ≡ (if id == j then none else lookup j ms)
unfolding lookup delete
lookup-delete j id [] = ground arith
lookup-delete j id ((k, n) ∷ ms) = ground (arith, lookup-delete j id ms)
