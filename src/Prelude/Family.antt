-- ===== src/Prelude/Family.antt =====
-- Families over the natural numbers: a write at one index, and a sum over the first indices.
use Prim.Native.Nat.{ℕ, zero, suc, ◌+◌, ◌≤◌, ◌<◌}
use mathlib.Core.Path.{◌≡◌, refl, subst}
use mathlib.Core.Logic.{ite, if_pos, if_neg}
use native.Mathlib.Decide.{dec_lt, ℕ_discrete}
use native.Mathlib.Omega.{arith}

module _ {ℓ} {A : Type ℓ} where
  abbrev pub update : (ℕ → A) → ℕ → A → ℕ → A
  update f i a j = ite (ℕ_discrete i j) a (f j)

  pub update_same : (f : ℕ → A) (i : ℕ) (a : A) → update f i a i ≡ a
  update_same f i a = if_pos (ℕ_discrete i i) refl a (f i)

  pub update_other : (f : ℕ → A) (i j : ℕ) (a : A) → ¬ (i ≡ j) → update f i a j ≡ f j
  update_other f i j a n = if_neg (ℕ_discrete i j) n a (f j)

  -- What holds at the other indices, and of the new entry at its index, holds after a write.
  pub update_all {κ} :
      (P : ℕ → A → Type κ) (f : ℕ → A) (i : ℕ) (a : A)
      → ((j : ℕ) → ¬ (i ≡ j) → P j (f j))
      → P i a
      → (j : ℕ) → P j (update f i a j)
  update_all P f i a old new j = elim (ℕ_discrete i j) [
    | yes e ↦ subst (λ k. P k (update f i a k)) e (rw (update_same f i a) new)
    | no n ↦ rw (update_other f i j a n) (old j n)
  ]

  -- the sum of the weights of the first `n` entries
  pub tally : (A → ℕ) → ℕ → (ℕ → A) → ℕ
  tally weight zero f = 0
  tally weight (suc n) f = tally weight n f + weight (f n)

  tally-update_above :
      (weight : A → ℕ) (n : ℕ) (f : ℕ → A) (i : ℕ) (a : A)
      → n ≤ i
      → tally weight n (update f i a) ≡ tally weight n f
  unfolding tally
  tally-update_above weight zero f i a h = refl
  tally-update_above weight (suc n) f i a h = ground (arith, tally-update_above weight n f i a)

  pub tally-update :
      (weight : A → ℕ) (n : ℕ) (f : ℕ → A) (i : ℕ) (a : A)
      → i < n
      → tally weight n (update f i a) + weight (f i) ≡ tally weight n f + weight a
  unfolding tally
  tally-update weight zero f i a h = absurd (omega arith)
  tally-update weight (suc n) f i a h = elim (dec_lt i n) [
    | yes below ↦ ground (arith, tally-update weight n f i a below)
    | no last ↦ ground (arith, tally-update_above weight n f i a)
  ]

  pub tally_next :
      (weight : A → ℕ) (n : ℕ) (f : ℕ → A) (a : A)
      → tally weight (suc n) (update f n a) ≡ tally weight n f + weight a
  unfolding tally
  tally_next weight n f a = ground (arith, tally-update_above weight n f n a)

  -- A sum that is zero has no entry with a weight.
  pub tally_zero :
      (weight : A → ℕ) (n : ℕ) (f : ℕ → A)
      → tally weight n f ≡ 0
      → (i : ℕ) → i < n
      → weight (f i) ≡ 0
  unfolding tally
  tally_zero weight zero f h i below = absurd (omega arith)
  tally_zero weight (suc n) f h i below = elim (dec_lt i n) [
    | yes less ↦ tally_zero weight n f (omega (arith, h)) i less
    | no last ↦ let e : n ≡ i = omega arith in subst (λ k. weight (f k) ≡ 0) e (omega (arith, h))
  ]

  -- Entries without a weight have the sum zero.
  pub tally_none :
      (weight : A → ℕ) (n : ℕ) (f : ℕ → A)
      → ((i : ℕ) → i < n → weight (f i) ≡ 0)
      → tally weight n f ≡ 0
  unfolding tally
  tally_none weight zero f h = refl
  tally_none weight (suc n) f h =
      omega
        (arith, tally_none weight n f (λ i below. h i (omega (arith, below))), h n (omega arith))
