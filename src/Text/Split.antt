-- ===== src/Text/Split.antt =====
-- strings.SplitSeq at one separator, and the second part of strings.SplitN with at most two parts.
use pi_bully.Prelude.{
  ℕ, ◌≡◌, ◌≢◌, refl, true, false, Option, none, some, List, [], ◌∷◌, ◌++◌, ◌==◌, if◌then◌else◌,
  arith, All, Bool-cases, inl, inr, ap,
}
use pi_bully.Text.{Text, Lacks}

abbrev push : ℕ → List Text → List Text
push c [] = (c ∷ []) ∷ []
push c (p ∷ parts) = (c ∷ p) ∷ parts

-- `strings.SplitSeq(s, sep)`
unfoldable pub split : ℕ → Text → List Text
split sep [] = [] ∷ []
split sep (c ∷ s) =
    let parts = split sep s in elim (c == sep) [ true ↦ [] ∷ parts | false ↦ push c parts ]

-- `strings.Join(parts, sep)`
unfoldable pub join : ℕ → List Text → Text
join sep [] = []
join sep (p ∷ []) = p
join sep (p ∷ q ∷ parts) = p ++ sep ∷ join sep (q ∷ parts)

-- `strings.SplitN(s, sep, 2)[1]`, if there are two parts.
unfoldable pub after_first : ℕ → Text → Option Text
after_first sep [] = none
after_first sep (c ∷ s) = if c == sep then some s else after_first sep s

push-append : (c : ℕ) (p : Text) (parts : List Text) → push c (p ∷ parts) ≡ (c ∷ p) ∷ parts
push-append c p parts = refl

split_one : (sep : ℕ) (p : Text) → Lacks sep p → split sep p ≡ p ∷ []
unfolding split
split_one sep [] h = refl
split_one sep (c ∷ p) (hc, hp) = ground (arith, split_one sep p hp)

split-append : (sep : ℕ) (p s : Text) → Lacks sep p → split sep (p ++ sep ∷ s) ≡ p ∷ split sep s
unfolding split
split-append sep [] s h = ground arith
split-append sep (c ∷ p) s (hc, hp) = ground (arith, split-append sep p s hp)

-- Splitting a join gives the parts back.
pub split-join :
    (sep : ℕ) (p : Text) (parts : List Text)
    → All (Lacks sep) (p ∷ parts)
    → split sep (join sep (p ∷ parts)) ≡ p ∷ parts
unfolding join
split-join sep p [] (h, _) = split_one sep p h
split-join sep p (q ∷ parts) (h, hs) =
    rw (split-append sep p (join sep (q ∷ parts)) h) (ap (λ r. p ∷ r) (split-join sep q parts hs))

pub split-Lacks : (sep : ℕ) (s : Text) → All (Lacks sep) (split sep s)
unfolding split
split-Lacks sep [] = (tt, tt)
split-Lacks sep (c ∷ s) = elim (Bool-cases (c == sep)) [
  | inl e ↦ rw (e, split) (tt, split-Lacks sep s)
  | inr e ↦ rw (e, split) (push-Lacks (λ p. ground arith) (split sep s) (split-Lacks sep s))
]
  where
    push-Lacks :
        c ≢ sep → (parts : List Text) → All (Lacks sep) parts → All (Lacks sep) (push c parts)
    push-Lacks n [] h = ((n, tt), tt)
    push-Lacks n (p ∷ parts) (h, hs) = ((n, h), hs)

pub after_first-append :
    (sep : ℕ) (p s : Text) → Lacks sep p → after_first sep (p ++ sep ∷ s) ≡ some s
unfolding after_first
after_first-append sep [] s h = ground arith
after_first-append sep (c ∷ p) s (hc, hp) = ground (arith, after_first-append sep p s hp)

-- Where there is a separator, the text is cut at the first one.
pub after_first-some :
    (sep : ℕ) (s rest : Text)
    → after_first sep s ≡ some rest
    → (p : Text) × Lacks sep p × (s ≡ p ++ sep ∷ rest)
unfolding after_first
after_first-some sep [] rest h = cc
after_first-some sep (c ∷ s) rest h = elim (Bool-cases (c == sep)) [
  | inl e ↦ ([], tt, ground arith)
  | inr e ↦
      let (p, lacks, eq) = after_first-some sep s rest (ground arith) in
      (c ∷ p, (λ q. ground arith, lacks), ap (λ t. c ∷ t) eq)
]
