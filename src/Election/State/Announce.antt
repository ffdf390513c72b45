-- ===== src/Election/State/Announce.antt =====
-- election/state.go: what a node makes of the announcements that reach it, in whatever order.
use mathlib.Core.List.{Perm, Permᴰ}
use mathlib.Core.Path.{ap₂}
use mathlib.Core.Logic.{∥∥₁_elim}
use pi_bully.Prelude.{
  ℕ, ◌≤◌, ◌<◌, ◌≡◌, refl, ◌⊎◌, ◌∙◌, inl, inr, List, [], ◌∷◌, arith, All, Any, ap, sym, subst,
}
use pi_bully.Election.State.{State, Phase, leading, set_leader}

-- An announced leader with its term.
pub record Announcement : Type 0 where
  pub leader_id : ℕ
  pub term : ℕ

unfoldable pub learn : State → Announcement → State
learn s a = (set_leader s a.leader_id a.term).0

unfoldable pub deliver : State → List Announcement → State
deliver s [] = s
deliver s (a ∷ rest) = deliver (learn s a) rest

Phase-discrete : Discrete Phase
Phase-discrete = hlevel

State-set : IsSet State
State-set = hlevel

learn_comm : (s : State) (a b : Announcement) → learn (learn s a) b ≡ learn (learn s b) a
unfolding learn set_leader
learn_comm s a b = ground arith

deliver-permᴰ : {xs ys : List Announcement} (s : State) → Permᴰ xs ys → deliver s xs ≡ deliver s ys
unfolding deliver
deliver-permᴰ s Permᴰ.nil = refl
deliver-permᴰ s (Permᴰ.cons {a} {l₁} {l₂} e p) =
    deliver-permᴰ (learn s a) p ∙ ap (λ x. deliver (learn s x) l₂) e
deliver-permᴰ s (Permᴰ.swap {a} {b} {l} e f) =
    ap (λ t. deliver t l) (learn_comm s a b) ∙ ap₂ (λ x y. deliver (learn (learn s x) y) l) f e
deliver-permᴰ s (Permᴰ.trans p q) = deliver-permᴰ s p ∙ deliver-permᴰ s q

learn_above :
    (s t : State) (a : Announcement) → s.term < a.term → t.term < a.term → learn s a ≡ learn t a
unfolding learn set_leader
learn_above s t a h k = ground arith

-- The announcement is of a later term than the two nodes have seen.
abbrev pub IsNews : State → State → Announcement → Type 0
IsNews s t a = (s.term < a.term) × (t.term < a.term)

-- An announcement in between either is the news itself or leaves it news.
learn-IsNews :
    (s t : State) (a b : Announcement)
    → IsNews s t b
    → (learn s a ≡ learn t a) ⊎ IsNews (learn s a) (learn t a) b
unfolding learn set_leader
learn-IsNews s t a b h = ground arith

learn-Any-IsNews :
    (s t : State) (a : Announcement) (xs : List Announcement)
    → Any (IsNews s t) xs
    → (learn s a ≡ learn t a) ⊎ Any (IsNews (learn s a) (learn t a)) xs
learn-Any-IsNews s t a [] h = absurd h
learn-Any-IsNews s t a (b ∷ xs) (inl h) = elim (learn-IsNews s t a b h) [
  | inl e ↦ inl e
  | inr k ↦ inr (inl k)
]
learn-Any-IsNews s t a (b ∷ xs) (inr h) = elim (learn-Any-IsNews s t a xs h) [
  | inl e ↦ inl e
  | inr k ↦ inr (inr k)
]

deliver_agree :
    (s t : State) (xs : List Announcement) → Any (IsNews s t) xs → deliver s xs ≡ deliver t xs
unfolding deliver
deliver_agree s t [] h = absurd h
deliver_agree s t (a ∷ xs) (inl h) = ap (λ u. deliver u xs) (learn_above s t a h.0 h.1)
deliver_agree s t (a ∷ xs) (inr h) = elim (learn-Any-IsNews s t a xs h) [
  | inl e ↦ ap (λ u. deliver u xs) e
  | inr k ↦ deliver_agree (learn s a) (learn t a) xs k
]

deliver-perm : (s : State) {xs ys : List Announcement} → Perm xs ys → deliver s xs ≡ deliver s ys
deliver-perm s p = ∥∥₁_elim p (State-set _ _) (deliver-permᴰ s)

-- Two nodes that receive the same announcements, each in an order of its own, end in the same state:
-- the same leader, term and phase. One of the announcements must be of a later term than both nodes
-- have seen.
pub announcements_agree :
    (s t : State) {xs ys : List Announcement}
    → Any (IsNews s t) xs
    → Perm xs ys
    → deliver s xs ≡ deliver t ys
announcements_agree s t {xs} news p = deliver_agree s t xs news ∙ deliver-perm t p

-- The state is at least as recent as the announcement: its term is later, or it is the same and its
-- leader's identifier is not smaller.
abbrev pub Covers : State → Announcement → Type 0
Covers s a = (a.term < s.term) ⊎ ((a.term ≡ s.term) × (a.leader_id ≤ s.leader_id))

-- The state holds what the announcement says.
abbrev pub Holds : State → Announcement → Type 0
Holds s a = (s.leader_id ≡ a.leader_id) × (s.term ≡ a.term) × (s.phase ≡ leading)

learn-Covers_self : (s : State) (a : Announcement) → Covers (learn s a) a
unfolding learn set_leader
learn-Covers_self s a = ground arith

learn-Covers : (s : State) (a b : Announcement) → Covers s b → Covers (learn s a) b
unfolding learn set_leader
learn-Covers s a b h = ground arith

deliver-Covers_one :
    (s : State) (b : Announcement) (xs : List Announcement) → Covers s b → Covers (deliver s xs) b
unfolding deliver
deliver-Covers_one s b [] h = h
deliver-Covers_one s b (a ∷ xs) h = deliver-Covers_one (learn s a) b xs (learn-Covers s a b h)

deliver-Covers : (s : State) (xs : List Announcement) → All (Covers (deliver s xs)) xs
unfolding deliver
deliver-Covers s [] = tt
deliver-Covers s (a ∷ xs) =
    (deliver-Covers_one (learn s a) a xs (learn-Covers_self s a), deliver-Covers (learn s a) xs)

learn-Holds : (s : State) (a : Announcement) → (learn s a ≡ s) ⊎ Holds (learn s a) a
unfolding learn set_leader
learn-Holds s a = ground arith

deliver-Holds :
    (s : State) (a : Announcement) (xs : List Announcement)
    → Holds s a
    → Any (Holds (deliver s xs)) (a ∷ xs)
unfolding deliver
deliver-Holds s a [] h = inl h
deliver-Holds s a (b ∷ xs) h = elim (learn-Holds s b) [
  | inl e ↦ elim (deliver-Holds (learn s b) a xs (subst (λ t. Holds t a) (sym e) h)) [
    | inl k ↦ inl k
    | inr k ↦ inr (inr k)
  ]
  | inr k ↦ inr (deliver-Holds (learn s b) b xs k)
]

deliver_origin :
    (s : State) (xs : List Announcement) → (deliver s xs ≡ s) ⊎ Any (Holds (deliver s xs)) xs
unfolding deliver
deliver_origin s [] = inl refl
deliver_origin s (a ∷ xs) = elim (learn-Holds s a) [
  | inl e ↦ elim (deliver_origin (learn s a) xs) [ inl k ↦ inl (k ∙ e) | inr k ↦ inr (inr k) ]
  | inr h ↦ inr (deliver-Holds (learn s a) a xs h)
]

-- After any announcements the node follows the most recent one: it is at least as recent as each of
-- them, by term and then by identifier, and it either is where it was or holds one of them.
pub deliver_latest :
    (s : State) (xs : List Announcement)
    → All (Covers (deliver s xs)) xs × ((deliver s xs ≡ s) ⊎ Any (Holds (deliver s xs)) xs)
deliver_latest s xs = (deliver-Covers s xs, deliver_origin s xs)
