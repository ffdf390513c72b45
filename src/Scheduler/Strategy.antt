-- ===== src/Scheduler/Strategy.antt =====
-- scheduler/strategy/roundrobin.go: `RoundRobin.Pick`. The state is the counter, a uint64.
pub mod Fair
pub mod Order
use pi_bully.Prelude.{
  ℕ, ◌+◌, ◌%◌, Option, none, some, List, [], ◌∷◌, length, get_elem?, order_by, ltb, u64_mod,
}
use pi_bully.Cluster.Members.{Member, Members, keys, lookup}

-- The identifiers in ascending order.
unfoldable pub sorted_ids : Members → List ℕ
unfolding order_by
sorted_ids members = order_by ltb (keys members)

-- `ids[idx]`, and then the member under that key.
unfoldable pub member_at : Members → ℕ → Option Member
unfolding sorted_ids lookup
member_at members idx = elim (get_elem? (sorted_ids members) idx) [
  | none ↦ none
  | some id ↦ lookup id members
]

-- The new counter, and the member if there is one.
unfoldable pub pick : ℕ → Members → ℕ × Option Member
unfolding member_at
pick counter [] = (counter, none)
pick counter (m ∷ members) =
    ((counter + 1) % u64_mod, member_at (m ∷ members) (counter % length (sorted_ids (m ∷ members))))
