-- ===== src/Prelude/Decimal/Enough.antt =====
-- The fuel of a printed number.
use opencode_workspaces.Prelude.{
  ℕ, suc, zero, ◌<◌, ◌/◌, ◌≡◌, refl, ltb, arith, Bool-cases, inl, inr,
}
use opencode_workspaces.Prelude.Decimal.{decimal_within}

-- Any fuel above the number prints the same digits.
pub enough_fuel : (f g n : ℕ) → n < f → n < g → decimal_within f n ≡ decimal_within g n
unfolding decimal_within
enough_fuel zero g n h k = absurd (omega arith)
enough_fuel (suc f) zero n h k = absurd (omega arith)
enough_fuel (suc f) (suc g) n h k = elim (Bool-cases (ltb n 10)) [
  | inl small ↦ rw small refl
  | inr large ↦ rw (large, enough_fuel f g (n / 10) (ground arith) (ground arith)) refl
]
