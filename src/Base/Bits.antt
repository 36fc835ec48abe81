-- ===== src/Base/Bits.antt =====
-- Laws of `&`, `|` and `^`: one equation for the lowest digit, and from it the laws that hold at
-- every width.
use Prim.Native.Nat.{digits, bitwise, bit_and-bitwise, bit_or-bitwise, bit_xor-bitwise, differ}
use native.Mathlib.Nat.{
  pow-suc, one-le-pow, mod-lt, mod-eq_of_lt, mod-one, div-add-mod, mul-add-mod_self_left, add-zero,
  mul-one, div-one, div-div-eq-div-mul, div-lt_iff_lt-mul, mul_comm,
}
use Prim.Native.Nat.{
  ℕ, zero, suc, ◌+◌, ◌-◌, ◌*◌, ◌/◌, ◌%◌, ◌^◌, ◌≤◌, ◌<◌, min, max, bit_and, bit_or, bit_xor,
}
use mathlib.Core.Path.{◌≡◌, refl, ap, sym, ◌∙◌}
use armx.Base.Words.{rotate_right}
use native.Mathlib.Omega.{arith}

module _ (z : ℕ → ℕ) (f : ℕ → ℕ → ℕ) where
  same_digits :
      (fuel spare b a : ℕ) → (a ≤ fuel) × (a ≤ spare) → digits z f spare a b ≡ digits z f fuel a b
  same_digits (suc fuel) (suc spare) b (suc a) (le, le') =
      let halved = same_digits fuel spare (b / 2) (suc a / 2) (omega arith, omega arith) in
      rw halved
  same_digits (suc fuel) (suc spare) b zero enough = refl
  same_digits zero zero b a enough = refl
  same_digits zero (suc spare) b zero enough = refl
  same_digits (suc fuel) zero b zero enough = refl
  same_digits zero (suc spare) b (suc a) enough = absurd (omega (arith, enough.0))
  same_digits (suc fuel) zero b (suc a) enough = absurd (omega (arith, enough.1))

  -- One equation for the lowest digit, where `z`, the result past the left operand, agrees with `f`.
  lowest_digit :
      ((b : ℕ) → z b ≡ z (b / 2) * 2 + f 0 (b % 2))
      → (a b : ℕ) → bitwise z f a b ≡ bitwise z f (a / 2) (b / 2) * 2 + f (a % 2) (b % 2)
  lowest_digit rest zero b = rest b
  lowest_digit rest (suc a) b =
      let high = same_digits (suc a / 2) a (b / 2) (suc a / 2) (omega arith, omega arith) in
      omega (arith, high)

differ_digits : (b a : ℕ) → (a < 2) × (b < 2) → differ a b ≡ (a + b) % 2
differ_digits zero zero small = refl
differ_digits zero (suc zero) small = refl
differ_digits (suc zero) zero small = refl
differ_digits (suc zero) (suc zero) small = refl
differ_digits (suc (suc b)) a small = absurd (omega (arith, small.1))
differ_digits b (suc (suc a)) small = absurd (omega (arith, small.0))

pub bit_xor_step : (a b : ℕ) → bit_xor a b ≡ bit_xor (a / 2) (b / 2) * 2 + (a % 2 + b % 2) % 2
bit_xor_step a b =
    let digit = differ_digits (b % 2) (a % 2) (omega arith, omega arith) in
    simp bit_xor-bitwise (omega (arith, digit, lowest_digit (λ y. y) differ beyond a b))
  where
    beyond : (b : ℕ) → b ≡ b / 2 * 2 + differ 0 (b % 2)
    beyond b = omega (arith, differ_digits (b % 2) 0 (omega arith, omega arith))

pub bit_or_step : (a b : ℕ) → bit_or a b ≡ bit_or (a / 2) (b / 2) * 2 + max (a % 2) (b % 2)
bit_or_step a b = simp bit_or-bitwise (lowest_digit (λ y. y) max (λ y. omega arith) a b)

pub bit_and_step : (a b : ℕ) → bit_and a b ≡ bit_and (a / 2) (b / 2) * 2 + min (a % 2) (b % 2)
bit_and_step a b = simp bit_and-bitwise (lowest_digit (λ y. 0) min (λ y. omega arith) a b)

-- The remainder by `2 ^ (k + 1)`, and the laws below, go from `a / 2` to `a`.
pub mod-two-pow-suc : (k a : ℕ) → a % 2 ^ suc k ≡ (a / 2) % 2 ^ k * 2 + a % 2
mod-two-pow-suc k a =
    let p = 2 ^ k in
    let c : ℕ = (a / 2) % p * 2 + a % 2 in
    let small : c < 2 * p = omega (arith, mod-lt (a / 2) (one-le-pow k 2 (omega arith))) in
    let whole : a ≡ 2 * p * (a / 2 / p) + c = omega (arith, div-add-mod (a / 2) p) in
    let double : 2 ^ suc k ≡ 2 * p = omega (arith, pow-suc 2 k) in
    rw double (
      ap (λ (t : ℕ). t % (2 * p)) whole
      ∙ (mul-add-mod_self_left (2 * p) (a / 2 / p) c ∙ mod-eq_of_lt small))

module _ (op : ℕ → ℕ → ℕ) (f : ℕ → ℕ → ℕ)
    (step : (a b : ℕ) → op a b ≡ op (a / 2) (b / 2) * 2 + f (a % 2) (b % 2))
    (digit : (a b : ℕ) → a < 2 → b < 2 → f a b < 2) (none : op 0 0 ≡ 0) where
  -- An operation on digits keeps the low `k` digits apart from the others.
  op-mod : (k a b : ℕ) → op a b % 2 ^ k ≡ op (a % 2 ^ k) (b % 2 ^ k)
  op-mod zero a b =
      omega
        (arith, none, ap (λ (t : ℕ). op t (b % 1)) (mod-one a), ap (λ (t : ℕ). op 0 t) (mod-one b))
  op-mod (suc k) a b =
      let a' : ℕ = a % 2 ^ suc k in
      let b' : ℕ = b % 2 ^ suc k in
      let a_half : a' / 2 ≡ (a / 2) % 2 ^ k = omega (arith, mod-two-pow-suc k a) in
      let b_half : b' / 2 ≡ (b / 2) % 2 ^ k = omega (arith, mod-two-pow-suc k b) in
      let a_low : a' % 2 ≡ a % 2 = omega (arith, mod-two-pow-suc k a) in
      let b_low : b' % 2 ≡ b % 2 = omega (arith, mod-two-pow-suc k b) in
      let bound : f (a % 2) (b % 2) < 2 = digit (a % 2) (b % 2) (omega arith) (omega arith) in
      let high : op a b / 2 ≡ op (a / 2) (b / 2) = omega (arith, step a b) in
      let low : op a b % 2 ≡ f (a % 2) (b % 2) = omega (arith, step a b) in
      mod-two-pow-suc k (op a b)
      ∙ (rw (high, low)
          (rw (op-mod k (a / 2) (b / 2)) (sym (step a' b' ∙ rw (a_half, b_half, a_low, b_low)))))

pub bit_and-mod : (k a b : ℕ) → bit_and a b % 2 ^ k ≡ bit_and (a % 2 ^ k) (b % 2 ^ k)
bit_and-mod = op-mod bit_and min bit_and_step (λ a b p q. omega arith) refl

pub bit_or-mod : (k a b : ℕ) → bit_or a b % 2 ^ k ≡ bit_or (a % 2 ^ k) (b % 2 ^ k)
bit_or-mod = op-mod bit_or max bit_or_step (λ a b p q. omega arith) refl

pub bit_xor-mod : (k a b : ℕ) → bit_xor a b % 2 ^ k ≡ bit_xor (a % 2 ^ k) (b % 2 ^ k)
bit_xor-mod = op-mod bit_xor (λ a b. (a + b) % 2) bit_xor_step (λ a b p q. omega arith) refl

-- Induction on the digits.
module _ (P : ℕ → Type 0) (none : P 0) (digit : (a : ℕ) → P (suc a / 2) → P (suc a)) where
  halving_below : (bound a : ℕ) → a < bound → P a
  halving_below (suc bound) zero below = none
  halving_below (suc bound) (suc a) below = digit a (halving_below bound (suc a / 2) (omega arith))
  halving_below zero a below = absurd (omega arith)

  halving : (a : ℕ) → P a
  halving a = halving_below (a + 1) a (omega arith)

-- The neutral, the absorbing and the inverse operand.
pub bit_and-zero : (a : ℕ) → bit_and a 0 ≡ 0
bit_and-zero = halving (λ a. bit_and a 0 ≡ 0) refl (λ a h. omega (arith, h, bit_and_step (suc a) 0))

pub bit_or-zero : (a : ℕ) → bit_or a 0 ≡ a
bit_or-zero = halving (λ a. bit_or a 0 ≡ a) refl (λ a h. omega (arith, h, bit_or_step (suc a) 0))

pub bit_xor-zero : (a : ℕ) → bit_xor a 0 ≡ a
bit_xor-zero = halving (λ a. bit_xor a 0 ≡ a) refl (λ a h. omega (arith, h, bit_xor_step (suc a) 0))

pub bit_xor_self : (a : ℕ) → bit_xor a a ≡ 0
bit_xor_self =
    halving (λ a. bit_xor a a ≡ 0) refl (λ a h. omega (arith, h, bit_xor_step (suc a) (suc a)))

pub bit_and_self : (a : ℕ) → bit_and a a ≡ a
bit_and_self =
    halving (λ a. bit_and a a ≡ a) refl (λ a h. ground (arith, h, bit_and_step (suc a) (suc a)))

-- A mask of `k` ones, under `|`.
pub bit_or_ones : (k a : ℕ) → a < 2 ^ k → bit_or a (2 ^ k - 1) ≡ 2 ^ k - 1
bit_or_ones zero a h = ground (arith, bit_or-zero a)
bit_or_ones (suc k) a h =
    let ones : (2 ^ suc k - 1) / 2 ≡ 2 ^ k - 1 = omega (arith, pow-suc 2 k) in
    let rest = bit_or_ones k (a / 2) (omega (arith, pow-suc 2 k)) in
    omega (
      arith,
      pow-suc 2 k,
      one-le-pow k 2,
      bit_or_step a (2 ^ suc k - 1),
      ap (λ (t : ℕ). bit_or (a / 2) t) ones,
      rest,
    )

-- A mask of `k` ones is the remainder by `2 ^ k`.
pub bit_and_mask : (k a : ℕ) → bit_and a (2 ^ k - 1) ≡ a % 2 ^ k
bit_and_mask zero a = omega (arith, bit_and-zero a)
bit_and_mask (suc k) a =
    let ones : (2 ^ suc k - 1) / 2 ≡ 2 ^ k - 1 = omega (arith, pow-suc 2 k) in
    omega (
      arith,
      pow-suc 2 k,
      one-le-pow k 2,
      bit_and_step a (2 ^ suc k - 1),
      ap (λ (t : ℕ). bit_and (a / 2) t) ones,
      bit_and_mask k (a / 2),
      mod-two-pow-suc k a,
    )

pub two-pow-add : (a b : ℕ) → 2 ^ (a + b) ≡ 2 ^ a * 2 ^ b
two-pow-add a zero = rw (add-zero a) (omega arith)
two-pow-add a (suc b) =
    let shifted : a + suc b ≡ suc (a + b) = omega arith in
    rw shifted (
      omega (
        arith,
        pow-suc 2 (a + b),
        pow-suc 2 b,
        two-pow-add a b,
        ap (λ (t : ℕ). 2 ^ a * t) (pow-suc 2 b),
      ))

parts_in_range : (r c w h : ℕ) → r < h → c < w → r * w + c < h * w
parts_in_range r c w h p q = grind arith

-- The two parts of a rotated word do not overlap.
pub rotate_right-lt : (n v by : ℕ) → v < 2 ^ n → by ≤ n → rotate_right n v by < 2 ^ n
rotate_right-lt n v by h le =
    let p : ℕ = 2 ^ by in
    let q : ℕ = 2 ^ (n - by) in
    let whole : 2 ^ n ≡ p * q = (ap (λ (t : ℕ). 2 ^ t) (omega arith)) ∙ two-pow-add by (n - by) in
    let low : v % p < p = mod-lt v (one-le-pow by 2 (omega arith)) in
    let high : v / p < q =
      (div-lt_iff_lt-mul (one-le-pow by 2 (omega arith))).1 (omega (arith, whole, mul_comm p q)) in
    rw whole (omega (arith, parts_in_range (v % p) (v / p) q p low high))

mul-two-pow-suc : (k q : ℕ) → q * 2 ^ suc k ≡ 2 * (q * 2 ^ k)
mul-two-pow-suc k q = let doubled = ap (λ (p : ℕ). q * p) (pow-suc 2 k) in omega (arith, doubled)

-- A mask is applied to its high and its low part apart.
pub bit_and_split :
    (k x a b : ℕ)
    → b < 2 ^ k
    → bit_and x (a * 2 ^ k + b) ≡ bit_and (x / 2 ^ k) a * 2 ^ k + bit_and (x % 2 ^ k) b
bit_and_split zero x a b h =
    let none : b ≡ 0 = omega arith in
    rw none (
      omega (
        arith,
        bit_and-zero (x % 1),
        ap (λ (t : ℕ). bit_and t a) (div-one x),
        ap (λ (t : ℕ). bit_and x t) (add-zero (a * 1) ∙ mul-one a),
      ))
bit_and_split (suc k) x a b h =
    let mask_half : (a * 2 ^ suc k + b) / 2 ≡ a * 2 ^ k + b / 2 =
      omega (arith, mul-two-pow-suc k a) in
    let mask_low : (a * 2 ^ suc k + b) % 2 ≡ b % 2 = omega (arith, mul-two-pow-suc k a) in
    let high : x / 2 / 2 ^ k ≡ x / 2 ^ suc k =
      div-div-eq-div-mul x 2 (2 ^ k) ∙ ap (λ (t : ℕ). x / t) (omega (arith, pow-suc 2 k)) in
    let low_half : (x % 2 ^ suc k) / 2 ≡ (x / 2) % 2 ^ k = omega (arith, mod-two-pow-suc k x) in
    let low_low : (x % 2 ^ suc k) % 2 ≡ x % 2 = omega (arith, mod-two-pow-suc k x) in
    omega (
      arith,
      bit_and_step x (a * 2 ^ suc k + b),
      ap (λ (t : ℕ). bit_and (x / 2) t) mask_half,
      bit_and_split k (x / 2) a (b / 2) (omega (arith, pow-suc 2 k)),
      ap (λ (t : ℕ). bit_and t a * 2 ^ k) high,
      bit_and_step (x % 2 ^ suc k) b,
      ap (λ (t : ℕ). bit_and t (b / 2)) low_half,
      mul-two-pow-suc k (bit_and (x / 2 ^ suc k) a),
      ap (λ (t : ℕ). min t (b % 2)) low_low,
      ap (λ (t : ℕ). min (x % 2) t) mask_low,
    )

-- A mask of `n` ones that starts at bit `k`.
pub bit_and_field : (n k x : ℕ) → bit_and x ((2 ^ n - 1) * 2 ^ k) ≡ (x / 2 ^ k) % 2 ^ n * 2 ^ k
bit_and_field n k x =
    ap (λ (t : ℕ). bit_and x t) (sym (add-zero ((2 ^ n - 1) * 2 ^ k)))
    ∙ (bit_and_split k x (2 ^ n - 1) 0 (omega (arith, one-le-pow k 2))
        ∙ omega (
          arith,
          bit_and-zero (x % 2 ^ k),
          ap (λ (t : ℕ). t * 2 ^ k) (bit_and_mask n (x / 2 ^ k)),
        ))
