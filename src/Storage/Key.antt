-- ===== src/Storage/Key.antt =====
-- storage/client.go: which key `parseKey` finds.
use pi_bully.Prelude.{
  ◌≡◌, refl, ◌⊎◌, inl, inr, Option, none, some, [], ◌∷◌, ◌++◌, arith, Option-cases, ap, ◌∙◌, sym,
}
use mathlib.Core.Option
use pi_bully.Text.{Text, Lacks}
use pi_bully.Text.Split.{after_first, after_first-append, after_first-some}
use pi_bully.Storage.{strip_prefix, scheme, parse_key}

pub strip_prefix-append : (p s : Text) → strip_prefix p (p ++ s) ≡ some s
unfolding strip_prefix
strip_prefix-append [] s = refl
strip_prefix-append (c ∷ p) s = ground (arith, strip_prefix-append p s)

strip_prefix-some : (p s rest : Text) → strip_prefix p s ≡ some rest → s ≡ p ++ rest
unfolding strip_prefix
strip_prefix-some [] s rest e = cc
strip_prefix-some (c ∷ p) [] rest e = cc
strip_prefix-some (c ∷ p) (d ∷ s) rest e = ground (arith, strip_prefix-some p s rest)

-- A URI of a bucket, whose name has no slash, and a key.
abbrev pub IsUri : Text → Text → Text → Type 0
IsUri bucket key uri = Lacks b'/' bucket × (uri ≡ scheme ++ (bucket ++ b'/' ∷ key))

after_scheme : Text → Option Text
unfolding strip_prefix after_first Option.bind
after_scheme uri = Option.bind (strip_prefix scheme uri) (after_first b'/')

parse_key-after_scheme : (uri : Text) → parse_key uri ≡ Option.get_or (after_scheme uri) uri
unfolding parse_key after_scheme
parse_key-after_scheme uri = refl

after_scheme-IsUri : (bucket key uri : Text) → IsUri bucket key uri → after_scheme uri ≡ some key
unfolding after_scheme
after_scheme-IsUri bucket key uri (lacks, e) =
    let found : strip_prefix scheme uri ≡ some (bucket ++ b'/' ∷ key) =
      ap (strip_prefix scheme) e ∙ strip_prefix-append scheme (bucket ++ b'/' ∷ key) in
    ap (λ o. Option.bind o (after_first b'/')) found ∙ after_first-append b'/' bucket key lacks

after_scheme-some :
    (uri key : Text) → after_scheme uri ≡ some key → (bucket : Text) × IsUri bucket key uri
unfolding after_scheme
after_scheme-some uri key e = go (strip_prefix scheme uri) refl e
  where
    go :
        (o : Option Text)
        → strip_prefix scheme uri ≡ o
        → Option.bind o (after_first b'/') ≡ some key
        → (bucket : Text) × IsUri bucket key uri
    go none p q = cc
    go (some rest) p q =
        let (bucket, lacks, cut) = after_first-some b'/' rest key q in
        (bucket, (lacks, strip_prefix-some scheme uri rest p ∙ ap (λ t. scheme ++ t) cut))

-- A URI of the form s3://bucket/key, with no slash in the bucket, gives the key, which is all that
-- follows the bucket's slash; every other text is its own key.
pub parse_key_lem :
    (uri : Text)
    → ((bucket key : Text) × IsUri bucket key uri × (parse_key uri ≡ key))
      ⊎ (((bucket key : Text) → ¬ IsUri bucket key uri) × (parse_key uri ≡ uri))
parse_key_lem uri = elim (Option-cases (after_scheme uri)) [
  | inr (key, e) ↦
      let (bucket, h) = after_scheme-some uri key e in
      inl (bucket, key, h, parse_key-after_scheme uri ∙ ap (λ o. Option.get_or o uri) e)
  | inl e ↦ inr (
    λ bucket key h. never key (sym e ∙ after_scheme-IsUri bucket key uri h),
    parse_key-after_scheme uri ∙ ap (λ o. Option.get_or o uri) e,
  )
]
  where
    never : (key : Text) → ◌≡◌ {A = Option Text} none (some key) → ⊥
    never key p = cc p
