-- ===== src/Scheduler/Strategy/Fair.antt =====
-- scheduler/strategy/roundrobin.go: whom successive calls pick.
use pi_bully.Prelude.{
  ℕ, suc, ◌+◌, ◌%◌, ◌<◌, ◌≡◌, ◌≢◌, refl, inl, inr, ◌∙◌, sym, ap, none, some, [], ◌∷◌, length,
  get_elem?, ltb, u64_mod, arith, Distinct, Absent, Distinct-order_by, length-order_by,
  Distinct-get_elem?, get_elem?_total, Absent-get_elem?, Absent-order_by, Option-cases,
}
use pi_bully.Cluster.Members.{Member, Members, keys, lookup, IsKeyed}
use pi_bully.Scheduler.Strategy.{sorted_ids, member_at, pick}

lookup-Absent : (id : ℕ) (ms : Members) → lookup id ms ≡ none → Absent id (keys ms)
unfolding lookup
lookup-Absent id [] e = tt
lookup-Absent id ((j, n) ∷ ms) e = ground (arith, lookup-Absent id ms)

lookup-id : (id : ℕ) (ms : Members) (m : Member) → IsKeyed ms → lookup id ms ≡ some m → m.id ≡ id
unfolding lookup
lookup-id id [] m k e = cc
lookup-id id ((j, n) ∷ ms) m k e = ground (arith, lookup-id id ms m k.1)

length-keys : (ms : Members) → length (keys ms) ≡ length ms
length-keys [] = refl
length-keys ((j, n) ∷ ms) = ap suc (length-keys ms)

length-sorted_ids : (ms : Members) → length (sorted_ids ms) ≡ length ms
unfolding sorted_ids
length-sorted_ids ms = length-order_by ltb (keys ms) ∙ length-keys ms

-- The member at a place below the number of members: the one with the identifier that stands there.
member_at_lem :
    (ms : Members) (i : ℕ)
    → IsKeyed ms
    → i < length ms
    → (m : Member) × (member_at ms i ≡ some m)
      × (get_elem? (sorted_ids ms) i ≡ some m.id)
      × (lookup m.id ms ≡ some m)
unfolding sorted_ids member_at
member_at_lem ms i k h =
    go (get_elem?_total (sorted_ids ms) i (omega (arith, length-sorted_ids ms)))
  where
    found :
        (id : ℕ) (m : Member)
        → get_elem? (sorted_ids ms) i ≡ some id
        → lookup id ms ≡ some m
        → m.id ≡ id
        → (m : Member) × (member_at ms i ≡ some m)
          × (get_elem? (sorted_ids ms) i ≡ some m.id)
          × (lookup m.id ms ≡ some m)
    found id m e l same = (m, rw (e, member_at) l, cc, cc)

    go :
        (id : ℕ) × (get_elem? (sorted_ids ms) i ≡ some id)
        → (m : Member) × (member_at ms i ≡ some m)
          × (get_elem? (sorted_ids ms) i ≡ some m.id)
          × (lookup m.id ms ≡ some m)
    go (id, e) = elim (Option-cases (lookup id ms)) [
      | inl l ↦ absurd (
          Absent-get_elem? id i (sorted_ids ms)
            (Absent-order_by ltb id (keys ms) (lookup-Absent id ms l)) e)
      | inr (m, l) ↦ found id m e l (lookup-id id ms m k l)
    ]

-- A call over at least one member picks one of them, the one whose turn it is in the order of the
-- identifiers, and counts up.
pub pick_lem :
    (counter : ℕ) (ms : Members)
    → IsKeyed ms
    → 0 < length ms
    → (m : Member) × (pick counter ms ≡ ((counter + 1) % u64_mod, some m))
      × (get_elem? (sorted_ids ms) (counter % length ms) ≡ some m.id)
      × (lookup m.id ms ≡ some m)
unfolding pick
pick_lem counter [] k h = elim h [ ]
pick_lem counter ((j, n) ∷ ms) k h =
    let (m, at, turn, known) =
      member_at_lem ((j, n) ∷ ms) (counter % length ((j, n) ∷ ms)) k (grind arith) in
    (m, rw (length-sorted_ids ((j, n) ∷ ms)) (rw at), turn, known)

pub same_turn : (c d n : ℕ) → c < d → d < c + n → c % n ≡ d % n → ⊥
same_turn c d n h k e = grind arith

turn_of :
    (c : ℕ) (ms : Members) {m : Member}
    → IsKeyed ms
    → 0 < length ms
    → (pick c ms).1 ≡ some m
    → get_elem? (sorted_ids ms) (c % length ms) ≡ some m.id
turn_of c ms {m} keyed nonempty p =
    let (m', picked, turn, known) = pick_lem c ms keyed nonempty in
    let same : some m ≡ some m' = sym p ∙ ap (λ r. r.1) picked in
    let same_id : m.id ≡ m'.id = cc in turn ∙ ap some (sym same_id)

-- Calls whose counters differ, by less than the number of members, pick different members.
pub pick-Distinct :
    (c d : ℕ) (ms : Members) {m k : Member}
    → IsKeyed ms
    → Distinct (keys ms)
    → c < d
    → d < c + length ms
    → (pick c ms).1 ≡ some m
    → (pick d ms).1 ≡ some k
    → m.id ≢ k.id
unfolding sorted_ids
pick-Distinct c d ms {m} {k} keyed distinct h l p q e = same_turn c d (length ms) h l (
    Distinct-get_elem? (sorted_ids ms) (c % length ms) (d % length ms) m.id
      (Distinct-order_by ltb (keys ms) distinct) (turn_of c ms keyed nonempty p)
      (turn_of d ms keyed nonempty q ∙ ap some (sym e)))
  where
    nonempty : 0 < length ms
    nonempty = omega arith
