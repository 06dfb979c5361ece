-- ===== src/Disk/Fill.antt =====
-- `ZeroFill` ends, and what it wrote.
use go_virtualbox.Prelude.{
  ℕ, zero, suc, ◌+◌, ◌-◌, ◌≤◌, ◌<◌, Option, none, some, ◌≡◌, refl, ◌∙◌, ap, arith,
}
use go_virtualbox.Go.Outcome.{Error}
use go_virtualbox.Disk.{Writer, block_of, fill_rest, zero_fill}

-- What package io asks of a writer, with the number of bytes it has taken: a write without an error
-- takes all bytes.
pub record IsWriter {W : Type 0} (writer : Writer W) (taken : W → ℕ) : Type 0 where
  pub takes_all :
      (w v : W) (m k : ℕ) → writer.write w m ≡ (v, k, none) → (k ≡ m) × (taken v ≡ taken w + m)

-- a block is not empty and no longer than what is left
block_of-bounds : (n : ℕ) → (0 < block_of (suc n)) × (block_of (suc n) ≤ suc n)
block_of-bounds n = ground arith

module _ {W : Type 0} (writer : Writer W) (taken : W → ℕ) (is : IsWriter writer taken) where
  -- the loop ended, and without an error the bytes are taken
  abbrev Done : W → ℕ → Option (W × Option Error) → Type 0
  Done w n r = (v : W) × (e : Option Error) × (r ≡ some (v, e)) × (e ≡ none → taken v ≡ taken w + n)

  fill_rest-Done :
      (again : W → ℕ → Option (W × Option Error)) (n : ℕ) (w : W) (r : W × ℕ × Option Error)
      → writer.write w (block_of (suc n)) ≡ r
      → ((v : W) → Done v (suc n - block_of (suc n)) (again v (suc n - block_of (suc n))))
      → Done w (suc n) (fill_rest again (suc n) r)
  unfolding fill_rest
  fill_rest-Done again n w (v, k, some e) written later = (v, some e, refl, λ h. absurd (cc h))
  fill_rest-Done again n w (v, k, none) written later =
      let (all, more) = is.takes_all w v (block_of (suc n)) k written in
      let (u, e, ended, total) = later v in
      let (positive, bounded) = block_of-bounds n in
      (u, e, ap (λ j. again v (suc n - j)) all ∙ ended, λ h. let t = total h in omega arith)

  zero_fill-Done : (fuel n : ℕ) (w : W) → n ≤ fuel → Done w n (zero_fill writer fuel w n)
  unfolding zero_fill
  zero_fill-Done fuel zero w h = (w, none, refl, λ e. omega arith)
  zero_fill-Done zero (suc n) w h = absurd (omega arith)
  zero_fill-Done (suc fuel) (suc n) w h =
      let (positive, bounded) = block_of-bounds n in
      fill_rest-Done (zero_fill writer fuel) n w _ refl
        (λ v. zero_fill-Done fuel (suc n - block_of (suc n)) v (omega arith))

-- On a writer that takes all bytes of a write without an error, `ZeroFill` of n bytes ends with fuel
-- n, and when it returns no error the writer has taken n bytes more.
pub zero_fill-ends :
    {W : Type 0} (writer : Writer W) (taken : W → ℕ) (n : ℕ) (w : W)
    → IsWriter writer taken
    → (v : W) × (e : Option Error) × (zero_fill writer n w n ≡ some (v, e))
      × (e ≡ none → taken v ≡ taken w + n)
zero_fill-ends writer taken n w is = zero_fill-Done writer taken is n n w (omega arith)
