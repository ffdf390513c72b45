-- ===== src/Prelude/Keys.antt =====
-- Lists whose elements have different keys, and predicates on the lists that the queries make.
use Prim.Native.Nat.{ℕ}
use mathlib.Core.Path.{sym}
use mathlib.Core.Logic.{◌≢◌}
use mathlib.Core.Bool.{Bool}
use mathlib.Core.List.{List, [], ◌∷◌}
use native.Mathlib.Omega.{arith}
use pi_bully.Prelude.Lists.{select, All}
use pi_bully.Prelude.Sort.{insert_by, order_by}

-- Different elements have different keys.
abbrev pub Apart {ℓ} : {A : Type ℓ} → (A → ℕ) → List A → Type 0
Apart key [] = Unit {0}
Apart key (x ∷ xs) = All (λ y. key y ≢ key x) xs × Apart key xs

pub All-map {ℓ} :
    {A : Type ℓ} (P Q : A → Type 0) (f : (x : A) → P x → Q x) (xs : List A) → All P xs → All Q xs
All-map P Q f [] h = h
All-map P Q f (x ∷ xs) h = (f x h.0, All-map P Q f xs h.1)

module _ {ℓ} {A : Type ℓ} (P : A → Type 0) where
  pub All-select : (p : A → Bool) (xs : List A) → All P xs → All P (select p xs)
  All-select p [] h = h
  All-select p (x ∷ xs) h = ground (arith, All-select p xs h.1)

  All-insert_by :
      (before : A → A → Bool) (x : A) (xs : List A) → P x → All P xs → All P (insert_by before x xs)
  unfolding insert_by
  All-insert_by before x [] p h = (p, tt)
  All-insert_by before x (y ∷ ys) p h = ground (arith, All-insert_by before x ys p h.1)

  pub All-order_by : (before : A → A → Bool) (xs : List A) → All P xs → All P (order_by before xs)
  unfolding order_by
  All-order_by before [] h = h
  All-order_by before (x ∷ xs) h =
      All-insert_by before x (order_by before xs) h.0 (All-order_by before xs h.1)

module _ {ℓ} {A : Type ℓ} (key : A → ℕ) where
  pub Apart-select : (p : A → Bool) (xs : List A) → Apart key xs → Apart key (select p xs)
  Apart-select p [] h = h
  Apart-select p (x ∷ xs) h =
      ground (arith, Apart-select p xs h.1, All-select (λ y. key y ≢ key x) p xs h.0)

  Apart-insert_by :
      (before : A → A → Bool) (x : A) (xs : List A)
      → All (λ y. key y ≢ key x) xs
      → Apart key xs
      → Apart key (insert_by before x xs)
  unfolding insert_by
  Apart-insert_by before x [] n h = (tt, tt)
  Apart-insert_by before x (y ∷ ys) n h = ground (
    arith,
    Apart-insert_by before x ys n.1 h.1,
    All-insert_by (λ z. key z ≢ key y) before x ys (λ e. n.0 (sym e)) h.0,
  )

  pub Apart-order_by :
      (before : A → A → Bool) (xs : List A) → Apart key xs → Apart key (order_by before xs)
  unfolding order_by
  Apart-order_by before [] h = h
  Apart-order_by before (x ∷ xs) h =
      Apart-insert_by before x (order_by before xs)
        (All-order_by (λ y. key y ≢ key x) before xs h.0) (Apart-order_by before xs h.1)
