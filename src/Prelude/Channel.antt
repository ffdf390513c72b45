-- ===== src/Prelude/Channel.antt =====
-- Buffered Go channels, as the list of the values that wait in them.
use Prim.Native.Nat.{ℕ, ◌≤◌}
use mathlib.Core.Path.{◌≡◌}
use mathlib.Core.List.{List, [], ◌∷◌, ◌++◌}
use native.Mathlib.Omega.{arith}
use pi_bully.Prelude.Tests.{ltb, if◌then◌else◌}
use pi_bully.Prelude.Lists.{length, length-append}

module _ {ℓ} {A : Type ℓ} where
  -- `select { case c <- x: default: }`: a value for which there is no room is dropped.
  unfoldable pub offer : ℕ → List A → A → List A
  offer capacity c x = if ltb (length c) capacity then c ++ x ∷ [] else c

  pub length-offer :
      (capacity : ℕ) (c : List A) (x : A)
      → length c ≤ capacity
      → length (offer capacity c x) ≤ capacity
  unfolding offer
  length-offer capacity c x h = ground (arith, length-append c (x ∷ []))

  pub offer-full :
      (capacity : ℕ) (c : List A) (x : A) → length c ≡ capacity → offer capacity c x ≡ c
  unfolding offer
  offer-full capacity c x h = ground arith
