-- ===== src/Jit/Optimizer/Rotation.antt =====
-- src/jit/optimizer.rs, `fold_shift`, on 32-bit rotations.
use native.Mathlib.Nat.{mul_assoc, div-le_self, one-le-pow}
use armx.Base.{
  ℕ, ◌+◌, ◌-◌, ◌*◌, ◌/◌, ◌%◌, ◌^◌, ◌≤◌, ◌<◌, ◌≡◌, ◌≢◌, sym, ap, ◌∙◌, arith, u32, rotate_right,
}
use armx.Base.Bits.{two-pow-add}
use armx.Ir.Operand.{w32, lsr, ror}
use armx.Jit.Optimizer.Fold.{fold_shift}
use armx.Jit.Optimizer.Arithmetic.{amount32}
use armx.Meaning.{shift_value}

wide_rotation : (x s : ℕ) → s < 32 → x < 2 ^ 32 → u32 (rotate_right 64 x s) ≡ x / 2 ^ s
wide_rotation x s lt fits =
    let k : ℕ = (x % 2 ^ s) * 2 ^ (32 - s) in
    let power : 2 ^ (64 - s) ≡ 2 ^ (32 - s) * 2 ^ 32 =
      ap (λ (t : ℕ). 2 ^ t) (omega arith) ∙ two-pow-add (32 - s) 32 in
    let high : (x % 2 ^ s) * 2 ^ (64 - s) ≡ k * 2 ^ 32 =
      ap (λ (t : ℕ). (x % 2 ^ s) * t) power ∙ sym (mul_assoc (x % 2 ^ s) (2 ^ (32 - s)) (2 ^ 32)) in
    omega (arith, high, div-le_self x (2 ^ s))

no_overlap : (low p high : ℕ) → low ≢ 0 → 1 ≤ p → high ≡ high + low * p → ⊥
no_overlap low p high set pos e = grind arith

-- Folding a 32-bit rotation to the right whose amount rotates a set bit out gives the logical
-- shift, and not the rotation.
pub fold_shift-ror32 :
    (v a : ℕ)
    → (v % 2 ^ 32) % 2 ^ (a % 32) ≢ 0
    → (fold_shift v a ror w32 ≡ shift_value lsr 32 (v % 2 ^ 32) (a % 32))
      × (fold_shift v a ror w32 ≢ shift_value ror 32 (v % 2 ^ 32) (a % 32))
unfolding fold_shift
fold_shift-ror32 v a set = rw (amount32 a) (folded, λ e. lost (sym folded ∙ e))
  where
    folded : u32 (rotate_right 64 (u32 v) (a % 32)) ≡ u32 v / 2 ^ (a % 32)
    folded = wide_rotation (u32 v) (a % 32) (omega arith) (omega arith)

    lost : u32 v / 2 ^ (a % 32) ≡ rotate_right 32 (u32 v) (a % 32) → ⊥
    lost e =
        no_overlap (u32 v % 2 ^ (a % 32)) (2 ^ (32 - a % 32)) (u32 v / 2 ^ (a % 32)) set
          (one-le-pow (32 - a % 32) 2 (omega arith)) e
