-- ===== src/Scheduler/Strategy/Order.antt =====
-- scheduler/strategy/roundrobin.go: the range over a Go map has no order that a program may rely on.
use mathlib.Core.List.{Perm, Permᴰ}
use mathlib.Core.Logic.{∥∥₁_elim}
use mathlib.Core.Path.{ap₂}
use text.Mathlib.TextEquality.{IsScalar-prop}
use pi_bully.Prelude.{
  ℕ, ◌+◌, ◌%◌, ◌≡◌, refl, sym, ap, ◌∙◌, subst, ◌≢◌, Option, none, some, List, [], ◌∷◌, length,
  get_elem?, order_by, insert_by, ltb, u64_mod, Absent, Distinct, arith,
}
use pi_bully.Cluster.Members.{Member, Members, keys, lookup}
use pi_bully.Scheduler.Strategy.{pick, sorted_ids, member_at}

-- The order of two insertions does not matter.
insert_by_comm :
    (x y : ℕ) (zs : List ℕ)
    → insert_by ltb x (insert_by ltb y zs) ≡ insert_by ltb y (insert_by ltb x zs)
unfolding insert_by
insert_by_comm x y [] = ground arith
insert_by_comm x y (z ∷ zs) = ground (arith, insert_by_comm x y zs)

sorted_ids-permᴰ : {xs ys : Members} → Permᴰ xs ys → sorted_ids xs ≡ sorted_ids ys
unfolding sorted_ids order_by
sorted_ids-permᴰ Permᴰ.nil = refl
sorted_ids-permᴰ (Permᴰ.cons {a} {b} {l₁} {l₂} e p) =
    ap₂ (λ (x : ℕ × Member) l. insert_by ltb x.0 l) e (sorted_ids-permᴰ p)
sorted_ids-permᴰ (Permᴰ.swap {a} {b} {a'} {b'} {l} e f) =
    insert_by_comm a.0 b.0 (order_by ltb (keys l))
    ∙ ap₂ (λ (x y : ℕ × Member). insert_by ltb x.0 (insert_by ltb y.0 (order_by ltb (keys l)))) f e
sorted_ids-permᴰ (Permᴰ.trans p q) = sorted_ids-permᴰ p ∙ sorted_ids-permᴰ q

Absent-permᴰ : {xs ys : Members} (a : ℕ) → Permᴰ xs ys → Absent a (keys xs) → Absent a (keys ys)
Absent-permᴰ a Permᴰ.nil h = h
Absent-permᴰ a (Permᴰ.cons e p) h =
    (subst (λ (x : ℕ × Member). x.0 ≢ a) e h.0, Absent-permᴰ a p h.1)
Absent-permᴰ a (Permᴰ.swap e f) h = (
  subst (λ (x : ℕ × Member). x.0 ≢ a) f h.1.0,
  (subst (λ (x : ℕ × Member). x.0 ≢ a) e h.0, h.1.1),
)
Absent-permᴰ a (Permᴰ.trans p q) h = Absent-permᴰ a q (Absent-permᴰ a p h)

Distinct-permᴰ : {xs ys : Members} → Permᴰ xs ys → Distinct (keys xs) → Distinct (keys ys)
Distinct-permᴰ Permᴰ.nil d = d
Distinct-permᴰ (Permᴰ.cons {a} {b} {l₁} {l₂} e p) d = (
  subst (λ (x : ℕ × Member). Absent x.0 (keys l₂)) e (Absent-permᴰ a.0 p d.0),
  Distinct-permᴰ p d.1,
)
Distinct-permᴰ (Permᴰ.swap {a} {b} {a'} {b'} {l} e f) d =
    let swapped : Distinct (b.0 ∷ a.0 ∷ keys l) = ((λ p. d.0.0 (sym p), d.1.0), (d.0.1, d.1.1)) in
    subst (λ (x : ℕ × Member). Distinct (x.0 ∷ b'.0 ∷ keys l)) f
      (subst (λ (y : ℕ × Member). Distinct (b.0 ∷ y.0 ∷ keys l)) e swapped)
Distinct-permᴰ (Permᴰ.trans p q) d = Distinct-permᴰ q (Distinct-permᴰ p d)

lookup-swap :
    (id : ℕ) (a b : ℕ × Member) (l : Members)
    → b.0 ≢ a.0
    → lookup id (a ∷ b ∷ l) ≡ lookup id (b ∷ a ∷ l)
unfolding lookup
lookup-swap id a b l n = ground arith

lookup-permᴰ :
    {xs ys : Members} (id : ℕ) → Permᴰ xs ys → Distinct (keys xs) → lookup id xs ≡ lookup id ys
unfolding lookup
lookup-permᴰ id Permᴰ.nil d = refl
lookup-permᴰ id (Permᴰ.cons {a} {b} {l₁} {l₂} e p) d =
    subst (λ (x : ℕ × Member). lookup id (a ∷ l₁) ≡ lookup id (x ∷ l₂)) e
      (ground (arith, lookup-permᴰ id p d.1))
lookup-permᴰ id (Permᴰ.swap {a} {b} {a'} {b'} {l} e f) d =
    lookup-swap id a b l d.0.0 ∙ ap₂ (λ (x y : ℕ × Member). lookup id (x ∷ y ∷ l)) f e
lookup-permᴰ id (Permᴰ.trans p q) d = lookup-permᴰ id p d ∙ lookup-permᴰ id q (Distinct-permᴰ p d)

member_at-permᴰ :
    {xs ys : Members} (i : ℕ) → Permᴰ xs ys → Distinct (keys xs) → member_at xs i ≡ member_at ys i
unfolding member_at
member_at-permᴰ {xs} {ys} i p d = go (get_elem? (sorted_ids xs) i) refl
  where
    go : (o : Option ℕ) → get_elem? (sorted_ids xs) i ≡ o → member_at xs i ≡ member_at ys i
    go none e =
        let same : get_elem? (sorted_ids ys) i ≡ none =
          ap (λ l. get_elem? l i) (sym (sorted_ids-permᴰ p)) ∙ e in
        ground arith
    go (some id) e =
        let same : get_elem? (sorted_ids ys) i ≡ some id =
          ap (λ l. get_elem? l i) (sym (sorted_ids-permᴰ p)) ∙ e in
        let found : lookup id xs ≡ lookup id ys = lookup-permᴰ id p d in ground arith

-- The pick of a map that is not empty.
abbrev picked : ℕ → Members → ℕ × Option Member
picked c ms = ((c + 1) % u64_mod, member_at ms (c % length (sorted_ids ms)))

picked-permᴰ :
    {xs ys : Members} (c : ℕ) → Permᴰ xs ys → Distinct (keys xs) → picked c xs ≡ picked c ys
picked-permᴰ {xs} {ys} c p d =
    ap (λ o. ((c + 1) % u64_mod, o))
      (member_at-permᴰ (c % length (sorted_ids xs)) p d
        ∙ ap (λ l. member_at ys (c % length l)) (sorted_ids-permᴰ p))

pick-permᴰ : {xs ys : Members} (c : ℕ) → Permᴰ xs ys → Distinct (keys xs) → pick c xs ≡ pick c ys
unfolding pick
pick-permᴰ c Permᴰ.nil d = refl
pick-permᴰ c (Permᴰ.cons e p) d = picked-permᴰ c (Permᴰ.cons e p) d
pick-permᴰ c (Permᴰ.swap e f) d = picked-permᴰ c (Permᴰ.swap e f) d
pick-permᴰ c (Permᴰ.trans p q) d = pick-permᴰ c p d ∙ pick-permᴰ c q (Distinct-permᴰ p d)

picks-IsSet : IsSet (ℕ × Option Member)
picks-IsSet = hlevel (IsScalar-prop)

-- `Pick` answers by what the map holds and not by the order in which it is ranged over: two listings
-- of the same map, which has one entry for a key, give the same worker and the same counter.
pub pick-perm : (c : ℕ) {xs ys : Members} → Distinct (keys xs) → Perm xs ys → pick c xs ≡ pick c ys
pick-perm c d p = ∥∥₁_elim p (picks-IsSet _ _) (λ q. pick-permᴰ c q d)
