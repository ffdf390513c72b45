-- ===== src/Config/Seeds.antt =====
-- config/memberlist.go: `parseSeeds`.
use mathlib.Core.List.{reverse, reverse-append}
use pi_bully.Prelude.{
  ◌≡◌, refl, true, false, List, [], ◌∷◌, ◌++◌, map, All, arith, ap, ◌∙◌, sym, subst, ◌⊎◌, inl, inr,
  if◌then◌else◌, Bool-cases,
}
use pi_bully.Text.{Text, is_empty, is_space, trim_left, trim_space, Lacks}
use pi_bully.Text.Split.{split, join, split-join}

-- The loop over the parts: each is trimmed, and an empty one is passed over.
unfoldable pub kept_seeds : List Text → List Text
unfolding trim_space
kept_seeds [] = []
kept_seeds (s ∷ parts) =
    let rest = kept_seeds parts in
    let trimmed = trim_space s in elim (is_empty trimmed) [ true ↦ rest | false ↦ trimmed ∷ rest ]

unfoldable pub parse_seeds : Text → List Text
unfolding kept_seeds split
parse_seeds v = kept_seeds (split b',' v)

-- One part of the variable: a seed, and what stands before and after it.
pub record Part : Type 0 where
  pub left : Text
  pub seed : Text
  pub right : Text

abbrev pub text_of : Part → Text
text_of p = p.left ++ (p.seed ++ p.right)

abbrev pub IsBlank : Text → Type 0
IsBlank = All (λ c. is_space c ≡ true)

-- The seed has no space around it (it may be empty), only spaces stand around it, and there is no comma.
abbrev pub IsPadded : Part → Type 0
IsPadded p =
    IsBlank p.left × IsBlank p.right × (trim_space p.seed ≡ p.seed) × Lacks b',' (text_of p)

-- The seeds that are not empty.
abbrev pub given_seeds : List Part → List Text
given_seeds [] = []
given_seeds (p ∷ parts) =
    let rest = given_seeds parts in if is_empty p.seed then rest else p.seed ∷ rest

trim_left-blank : (l s : Text) → IsBlank l → trim_left (l ++ s) ≡ trim_left s
unfolding trim_left
trim_left-blank [] s h = refl
trim_left-blank (c ∷ l) s (h, hs) = rw h (trim_left-blank l s hs)

trim_left-nil : (r : Text) → IsBlank r → trim_left r ≡ []
unfolding trim_left
trim_left-nil [] h = refl
trim_left-nil (c ∷ r) (h, hs) = rw h (trim_left-nil r hs)

trim_left-append :
    (s r : Text)
    → IsBlank r
    → (trim_left (s ++ r) ≡ trim_left s ++ r) ⊎ ((trim_left (s ++ r) ≡ []) × (trim_left s ≡ []))
unfolding trim_left
trim_left-append [] r h = inr (trim_left-nil r h, refl)
trim_left-append (c ∷ s) r h = elim (Bool-cases (is_space c)) [
  | inl e ↦ rw e (trim_left-append s r h)
  | inr e ↦ rw e (inl refl)
]

IsBlank-append : (l r : Text) → IsBlank l → IsBlank r → IsBlank (l ++ r)
IsBlank-append [] r h k = k
IsBlank-append (c ∷ l) r (h, hs) k = (h, IsBlank-append l r hs k)

IsBlank-reverse : (r : Text) → IsBlank r → IsBlank (reverse r)
IsBlank-reverse [] h = tt
IsBlank-reverse (c ∷ r) (h, hs) =
    subst IsBlank (sym (reverse-append (c ∷ []) r))
      (IsBlank-append (reverse r) (c ∷ []) (IsBlank-reverse r hs) (h, tt))

-- Spaces around a text make no difference to what is left of it.
trim_space-blank :
    (l s r : Text) → IsBlank l → IsBlank r → trim_space (l ++ (s ++ r)) ≡ trim_space s
unfolding trim_space
trim_space-blank l s r hl hr = rw (trim_left-blank l (s ++ r) hl) (elim (trim_left-append s r hr) [
  | inl e ↦
      rw (e, reverse-append (trim_left s) r)
        (ap reverse (trim_left-blank (reverse r) (reverse (trim_left s)) (IsBlank-reverse r hr)))
  | inr (e, f) ↦ rw (e, f) refl
])

kept_seeds-given :
    (parts : List Part) → All IsPadded parts → kept_seeds (map text_of parts) ≡ given_seeds parts
unfolding kept_seeds
kept_seeds-given [] h = refl
kept_seeds-given (p ∷ parts) ((l, r, t, n), hs) =
    ground (arith, trim_space-blank p.left p.seed p.right l r, t, kept_seeds-given parts hs)

-- The parts of a list without commas, written with commas between them, give their seeds, in order:
-- the spaces around a seed are dropped, and so are the seeds that are empty.
pub parse_seeds-join :
    (p : Part) (parts : List Part)
    → All IsPadded (p ∷ parts)
    → parse_seeds (join b',' (map text_of (p ∷ parts))) ≡ given_seeds (p ∷ parts)
unfolding parse_seeds
parse_seeds-join p parts padded =
    ap kept_seeds (split-join b',' (text_of p) (map text_of parts) (lacks (p ∷ parts) padded))
    ∙ kept_seeds-given (p ∷ parts) padded
  where
    lacks : (ps : List Part) → All IsPadded ps → All (Lacks b',') (map text_of ps)
    lacks [] h = tt
    lacks (q ∷ ps) ((l, r, t, n), hs) = (n, lacks ps hs)
