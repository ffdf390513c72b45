-- ===== src/Task/Store/Scan.antt =====
-- task/store.go: what the rows of a query share survives their scanning.
use mathlib.Core.Option
use pi_bully.Prelude.{
  ℕ, zero, suc, ◌≡◌, sym, subst, ◌∙◌, ◌≢◌, inl, inr, some, Option, List, [], ◌∷◌, map, arith,
  Option-cases, Apart, All,
}
use pi_bully.Task.Query.{limit}
use pi_bully.Task.Store.{scan_all}

-- Lists that are read from the rows.
module _ {A B : Type 0} (P : A → Type 0) (Q : B → Type 0) (scan : A → Option B)
    (sound : (x : A) (y : B) → scan x ≡ some y → P x → Q y) where
  pub scan_all-All : (xs : List A) (ys : List B) → scan_all scan xs ≡ some ys → All P xs → All Q ys
  unfolding scan_all Option.bind
  scan_all-All [] [] e h = tt
  scan_all-All [] (y ∷ ys) e h = absurd (ground arith)
  scan_all-All (x ∷ xs) ys e h = elim (Option-cases (scan x)) [
    | inl p ↦ absurd (ground arith)
    | inr (y, p) ↦ elim (Option-cases (scan_all scan xs)) [
      | inl q ↦ absurd (ground arith)
      | inr (zs, q) ↦
          let same : y ∷ zs ≡ ys = ground arith in
          subst (λ l. All Q l) same (sound x y p h.0, scan_all-All xs zs q h.1)
    ]
  ]

pub scan_all-Apart :
    {A B : Type 0} (key : A → ℕ) (named : B → ℕ) (scan : A → Option B)
    (same : (x : A) (y : B) → scan x ≡ some y → named y ≡ key x) (xs : List A) (ys : List B)
    → scan_all scan xs ≡ some ys
    → Apart key xs
    → Apart named ys
unfolding scan_all Option.bind
scan_all-Apart key named scan same [] [] e h = tt
scan_all-Apart key named scan same [] (y ∷ ys) e h = absurd (ground arith)
scan_all-Apart key named scan same (x ∷ xs) ys e h = elim (Option-cases (scan x)) [
  | inl p ↦ absurd (ground arith)
  | inr (y, p) ↦ elim (Option-cases (scan_all scan xs)) [
    | inl q ↦ absurd (ground arith)
    | inr (zs, q) ↦
        let whole : y ∷ zs ≡ ys = ground arith in
        subst (λ l. Apart named l) whole
          (
            scan_all-All (λ a. key a ≢ key x) (λ b. named b ≢ named y) scan
                (λ a b s n m. n (sym (same a b s) ∙ (m ∙ same x y p))) xs zs q h.0,
            scan_all-Apart key named scan same xs zs q h.1,
          )
  ]
]

pub All-mapped :
    {A : Type 0} (P : ℕ → Type 0) (f : A → ℕ) (xs : List A)
    → All (λ x. P (f x)) xs
    → All P (map f xs)
All-mapped P f [] h = tt
All-mapped P f (x ∷ xs) h = (h.0, All-mapped P f xs h.1)

pub Apart-mapped : {A : Type 0} (f : A → ℕ) (xs : List A) → Apart f xs → Apart (λ n. n) (map f xs)
Apart-mapped f [] h = tt
Apart-mapped f (x ∷ xs) h = (All-mapped (λ n. n ≢ f x) f xs h.0, Apart-mapped f xs h.1)

pub All-limit {ℓ} :
    {A : Type ℓ} (P : A → Type 0) (n : ℕ) (xs : List A) → All P xs → All P (limit n xs)
unfolding limit
All-limit P zero xs h = tt
All-limit P (suc n) [] h = tt
All-limit P (suc n) (x ∷ xs) h = (h.0, All-limit P n xs h.1)

pub Apart-limit {ℓ} :
    {A : Type ℓ} (key : A → ℕ) (n : ℕ) (xs : List A) → Apart key xs → Apart key (limit n xs)
unfolding limit
Apart-limit key zero xs h = tt
Apart-limit key (suc n) [] h = tt
Apart-limit key (suc n) (x ∷ xs) h = (All-limit _ n xs h.0, Apart-limit key n xs h.1)

pub All-both {ℓ} :
    {A : Type ℓ} (P Q : A → Type 0) (xs : List A) → All P xs → All Q xs → All (λ x. P x × Q x) xs
All-both P Q [] p q = tt
All-both P Q (x ∷ xs) p q = ((p.0, q.0), All-both P Q xs p.1 q.1)
