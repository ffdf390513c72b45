-- ===== src/Prelude/Sort.antt =====
-- Sorting by a test, for `slices.Sort` and ORDER BY, and lists without repetition.
use Prim.Native.Nat.{ℕ, zero, suc, ◌<◌}
use mathlib.Core.Path.{◌≡◌, refl, sym, ap, ◌∙◌}
use mathlib.Core.Logic.{◌≢◌}
use mathlib.Core.Bool.{Bool}
use mathlib.Core.Option.{some}
use mathlib.Core.List.{List, [], ◌∷◌}
use native.Mathlib.Omega.{arith}
use pi_bully.Prelude.Tests.{if◌then◌else◌}
use pi_bully.Prelude.Lists.{length, get_elem?}

-- `before x y` says whether `x` stands before `y`.
unfoldable pub insert_by {ℓ} : {A : Type ℓ} → (A → A → Bool) → A → List A → List A
insert_by before x [] = x ∷ []
insert_by before x (y ∷ ys) = if before y x then y ∷ insert_by before x ys else x ∷ y ∷ ys

unfoldable pub order_by {ℓ} : {A : Type ℓ} → (A → A → Bool) → List A → List A
unfolding insert_by
order_by before [] = []
order_by before (x ∷ xs) = insert_by before x (order_by before xs)

length-insert_by {ℓ} :
    {A : Type ℓ} (before : A → A → Bool) (x : A) (xs : List A)
    → length (insert_by before x xs) ≡ suc (length xs)
unfolding insert_by
length-insert_by before x [] = refl
length-insert_by before x (y ∷ ys) = ground (arith, length-insert_by before x ys)

pub length-order_by {ℓ} :
    {A : Type ℓ} (before : A → A → Bool) (xs : List A) → length (order_by before xs) ≡ length xs
unfolding order_by
length-order_by before [] = refl
length-order_by before (x ∷ xs) =
    length-insert_by before x (order_by before xs) ∙ ap suc (length-order_by before xs)

-- A number that stands nowhere in a list, and a list of different numbers.
abbrev pub Absent : ℕ → List ℕ → Type 0
Absent a [] = Unit {0}
Absent a (x ∷ xs) = (x ≢ a) × Absent a xs

abbrev pub Distinct : List ℕ → Type 0
Distinct [] = Unit {0}
Distinct (x ∷ xs) = Absent x xs × Distinct xs

Absent-insert_by :
    (before : ℕ → ℕ → Bool) (a x : ℕ) (xs : List ℕ)
    → x ≢ a
    → Absent a xs
    → Absent a (insert_by before x xs)
unfolding insert_by
Absent-insert_by before a x [] n h = (n, tt)
Absent-insert_by before a x (y ∷ ys) n h = ground (arith, Absent-insert_by before a x ys n h.1)

pub Absent-order_by :
    (before : ℕ → ℕ → Bool) (a : ℕ) (xs : List ℕ) → Absent a xs → Absent a (order_by before xs)
unfolding order_by
Absent-order_by before a [] h = h
Absent-order_by before a (x ∷ xs) h =
    Absent-insert_by before a x (order_by before xs) h.0 (Absent-order_by before a xs h.1)

Distinct-insert_by :
    (before : ℕ → ℕ → Bool) (x : ℕ) (xs : List ℕ)
    → Absent x xs
    → Distinct xs
    → Distinct (insert_by before x xs)
unfolding insert_by
Distinct-insert_by before x [] h d = (tt, tt)
Distinct-insert_by before x (y ∷ ys) h d = ground (
  arith,
  Distinct-insert_by before x ys h.1 d.1,
  Absent-insert_by before y x ys (λ e. h.0 (sym e)) d.0,
)

pub Distinct-order_by :
    (before : ℕ → ℕ → Bool) (xs : List ℕ) → Distinct xs → Distinct (order_by before xs)
unfolding order_by
Distinct-order_by before [] d = d
Distinct-order_by before (x ∷ xs) d =
    Distinct-insert_by before x (order_by before xs) (Absent-order_by before x xs d.0)
      (Distinct-order_by before xs d.1)

pub Absent-get_elem? : (a i : ℕ) (xs : List ℕ) → Absent a xs → get_elem? xs i ≢ some a
Absent-get_elem? a i [] h e = cc
Absent-get_elem? a zero (x ∷ xs) h e = h.0 (cc)
Absent-get_elem? a (suc i) (x ∷ xs) h e = Absent-get_elem? a i xs h.1 e

-- Different places of a list of different numbers hold different numbers.
pub Distinct-get_elem? :
    (xs : List ℕ) (i j a : ℕ)
    → Distinct xs
    → get_elem? xs i ≡ some a
    → get_elem? xs j ≡ some a
    → i ≡ j
Distinct-get_elem? [] i j a d p q = cc
Distinct-get_elem? (x ∷ xs) zero zero a d p q = refl
Distinct-get_elem? (x ∷ xs) zero (suc j) a d p q = absurd (Absent-get_elem? x j xs d.0 (cc))
Distinct-get_elem? (x ∷ xs) (suc i) zero a d p q = absurd (Absent-get_elem? x i xs d.0 (cc))
Distinct-get_elem? (x ∷ xs) (suc i) (suc j) a d p q = ap suc (Distinct-get_elem? xs i j a d.1 p q)

pub get_elem?_total {ℓ} :
    {A : Type ℓ} (xs : List A) (i : ℕ) → i < length xs → (a : A) × (get_elem? xs i ≡ some a)
get_elem?_total [] i h = elim h [ ]
get_elem?_total (x ∷ xs) zero h = (x, refl)
get_elem?_total (x ∷ xs) (suc i) h = get_elem?_total xs i (omega arith)
