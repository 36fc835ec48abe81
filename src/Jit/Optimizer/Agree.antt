-- ===== src/Jit/Optimizer/Agree.antt =====
-- src/jit/optimizer.rs: the constants that the pass tracks, against the registers.
use armx.Base.{
  ℕ, ◌<◌, ◌^◌, ◌≡◌, subst, refl, sym, arith, true, List, Option, some, none, get_elem?, set?,
  length, length-set, get_elem?-set, Bool-cases, inl, inr, get_elem?-in_range, saturating_add32,
}
use armx.Ir.Operand.{RegWidth, GuestReg, Operand, reg, imm, shift_reg, is_general, is_zero}
use armx.Runtime.State.{GuestState}
use armx.Jit.Optimizer.{Constants, Optimizer, known, constant_operand, rewrite_operand}
use armx.Meaning.{trunc, read_reg, operand_value}
use armx.Jit.Optimizer.Fold.{mask_width}
use armx.Jit.Optimizer.Arithmetic.{mask_width-eq-trunc, trunc-lt}

-- `constants` describes the registers `gpr`.
pub record Agree (constants : Constants) (gpr : List ℕ) : Type 0 where
  pub tracked : length constants ≡ 31
  pub registers : length gpr ≡ 31
  pub right :
      (i v : ℕ) → get_elem? constants i ≡ some (some v) → (v < 2 ^ 64) × (get_elem? gpr i ≡ some v)

-- A general register has one of the 31 numbers.
abbrev pub RegIsValid : GuestReg → Type 0
RegIsValid r = is_general r.kind ≡ true → r.num < 31

-- The ranges that Rust's types and the encoding of registers give.
abbrev pub OperandIsValid : Operand → Type 0
OperandIsValid (reg r) = RegIsValid r
OperandIsValid (imm v) = v < 2 ^ 64
OperandIsValid (shift_reg v a kind) = RegIsValid v × RegIsValid a
OperandIsValid _ = Unit

-- A write of a register with its new value, and of its entry with that value.
pub Agree-set :
    {constants : Constants} {gpr : List ℕ} (n v : ℕ) {constants' : Constants} {gpr' : List ℕ}
    → Agree constants gpr
    → v < 2 ^ 64
    → set? constants n (some v) ≡ some constants'
    → set? gpr n v ≡ some gpr'
    → Agree constants' gpr'
Agree-set {constants} {gpr} n v h fits p q = record {
  tracked = ground (arith, h.tracked, length-set constants n (some v));
  registers = ground (arith, h.registers, length-set gpr n v);
  right = λ i u e.
      ground (arith, h.right i u, get_elem?-set constants n i (some v), get_elem?-set gpr n i v);
}

-- A write of a register with any value, and its entry cleared.
pub Agree-forget :
    {constants : Constants} {gpr : List ℕ} (n v : ℕ) {constants' : Constants} {gpr' : List ℕ}
    → Agree constants gpr
    → set? constants n none ≡ some constants'
    → set? gpr n v ≡ some gpr'
    → Agree constants' gpr'
Agree-forget {constants} {gpr} n v h p q = record {
  tracked = ground (arith, h.tracked, length-set constants n none);
  registers = ground (arith, h.registers, length-set gpr n v);
  right = λ i u e.
      ground (arith, h.right i u, get_elem?-set constants n i none, get_elem?-set gpr n i v);
}

-- An operand and a constant with its value at every width.
pub record HasValue (s : GuestState) (op : Operand) (v : ℕ) : Type 0 where
  pub fits : v < 2 ^ 64
  pub value_at : (w : RegWidth) → operand_value s w op ≡ some (trunc w v)

pub imm-HasValue : (s : GuestState) (v : ℕ) → v < 2 ^ 64 → HasValue s (imm v) v
unfolding operand_value
imm-HasValue s v h = record { fits = h; value_at = λ w. refl }

pub zero-HasValue : (s : GuestState) (r : GuestReg) → is_zero r.kind ≡ true → HasValue s (reg r) 0
unfolding operand_value read_reg
zero-HasValue s r h = record { fits = omega arith; value_at = λ w. ground arith }

pub general-read_reg :
    (s : GuestState) (r : GuestReg) (v : ℕ)
    → is_general r.kind ≡ true
    → get_elem? s.gpr r.num ≡ some v
    → read_reg s r ≡ some (trunc r.width v)
unfolding read_reg
general-read_reg s r v h e = ground arith

known-HasValue :
    {constants : Constants} (s : GuestState) (r : GuestReg) (v : ℕ)
    → Agree constants s.gpr
    → is_general r.kind ≡ true
    → get_elem? constants r.num ≡ some (some v)
    → HasValue s (reg r) (mask_width v r.width)
unfolding operand_value
known-HasValue s r v h g e =
    let (fits, at) = h.right r.num v e in
    let masked : mask_width v r.width ≡ trunc r.width v = mask_width-eq-trunc r.width v fits in
    record {
      fits = rw masked (trunc-lt r.width v);
      value_at = λ w. rw (general-read_reg s r v g at, masked) refl;
    }

-- The result of a look-up: nothing, or the operand's value.
pub data Found (s : GuestState) (op : Operand) : Option ℕ → Type 0 where
  missing : Found s op none
  found : {v : ℕ} → HasValue s op v → Found s op (some v)

-- The entry of a general register is in range.
pub known-Found :
    {constants : Constants} (s : GuestState) (r : GuestReg)
    → Agree constants s.gpr
    → RegIsValid r
    → is_general r.kind ≡ true
    → (o : Option ℕ) × (known constants r r.width ≡ some o) × Found s (reg r) o
unfolding known
known-Found {constants} s r h valid g = entry (get_elem?-in_range constants r.num in_range)
  where
    in_range : r.num < length constants
    in_range = omega (arith, valid g, h.tracked)

    entry :
        (x : Option ℕ) × (get_elem? constants r.num ≡ some x)
        → (o : Option ℕ) × (known constants r r.width ≡ some o) × Found s (reg r) o
    entry (none, e) = (none, rw e, missing)
    entry (some v, e) = (some (mask_width v r.width), rw e, found (known-HasValue s r v h g e))

-- A look-up of a valid operand does not panic.
pub constant_operand-Found :
    {constants : Constants} (s : GuestState) (op : Operand)
    → Agree constants s.gpr
    → OperandIsValid op
    → (o : Option ℕ) × (constant_operand op constants ≡ some o) × Found s op o
unfolding constant_operand
constant_operand-Found s (imm v) h valid = (some v, refl, found (imm-HasValue s v valid))
constant_operand-Found s (reg r) h valid = elim (Bool-cases (is_zero r.kind)) [
  | inl z ↦ (some 0, rw z, found (zero-HasValue s r z))
  | inr z ↦ elim (Bool-cases (is_general r.kind)) [
    | inl g ↦ let (o, e, f) = known-Found s r h valid g in (o, rw (z, g) e, f)
    | inr g ↦ (none, rw (z, g), missing)
  ]
]
constant_operand-Found s _ h valid = (none, refl, missing)

-- What `rewrite_operand` may do to an operand.
pub data Rewrites (s : GuestState) : Operand → Operand → Type 0 where
  same : {op : Operand} → Rewrites s op op
  replaced : {r : GuestReg} {v : ℕ} → HasValue s (reg r) v → Rewrites s (reg r) (imm v)

rewrite_known :
    (constants : Constants) (s : GuestState) (o : Optimizer) (r : GuestReg)
    → is_general r.kind ≡ true
    → (k : Option ℕ) × (known constants r r.width ≡ some k) × Found s (reg r) k
    → (op' : Operand) × (o' : Optimizer) × (rewrite_operand o (reg r) constants ≡ some (op', o'))
      × Rewrites s (reg r) op'
unfolding rewrite_operand
rewrite_known constants s o r g (none, e, missing) = (reg r, o, rw (g, e), same)
rewrite_known constants s o r g (some v, e, found f) =
    (imm v, record o { propagated = saturating_add32 o.propagated 1 }, rw (g, e), replaced f)

pub rewrite_operand-Rewrites :
    {constants : Constants} (s : GuestState) (o : Optimizer) (op : Operand)
    → Agree constants s.gpr
    → OperandIsValid op
    → (op' : Operand) × (o' : Optimizer) × (rewrite_operand o op constants ≡ some (op', o'))
      × Rewrites s op op'
unfolding rewrite_operand
rewrite_operand-Rewrites {constants} s o (reg r) h valid = elim (Bool-cases (is_general r.kind)) [
  | inl g ↦ rewrite_known constants s o r g (known-Found s r h valid g)
  | inr g ↦ (reg r, o, rw g, same)
]
rewrite_operand-Rewrites s o op h valid = (op, o, refl, same)

pub Rewrites-value :
    {s : GuestState} {op op' : Operand}
    → Rewrites s op op'
    → (w : RegWidth) → operand_value s w op' ≡ operand_value s w op
unfolding operand_value
Rewrites-value same w = refl
Rewrites-value (replaced h) w = sym (h.value_at w)

pub Rewrites-IsValid :
    {s : GuestState} {op op' : Operand} → Rewrites s op op' → OperandIsValid op → OperandIsValid op'
Rewrites-IsValid same h = h
Rewrites-IsValid (replaced f) h = f.fits

-- A register that is left as an operand has no known value.
abbrev pub IsUnknown : Constants → Operand → Type 0
IsUnknown constants (reg r) = is_general r.kind ≡ true → get_elem? constants r.num ≡ some none
IsUnknown constants _ = Unit

pub rewrite_operand-IsUnknown :
    (constants : Constants) (o : Optimizer) (op : Operand) {op' : Operand} {o' : Optimizer}
    → rewrite_operand o op constants ≡ some (op', o')
    → IsUnknown constants op'
unfolding rewrite_operand known
rewrite_operand-IsUnknown constants o (reg r) {op'} {o'} e = elim (Bool-cases (is_general r.kind)) [
  | inr g ↦ let same : reg r ≡ op' = ground arith in subst (IsUnknown constants) same (λ g'. cc)
  | inl g ↦ entry (get_elem? constants r.num) refl g
]
  where
    entry :
        (x : Option (Option ℕ))
        → get_elem? constants r.num ≡ x
        → is_general r.kind ≡ true
        → IsUnknown constants op'
    entry none ex g = ground arith
    entry (some none) ex g =
        let same : reg r ≡ op' = ground arith in subst (IsUnknown constants) same (λ _. ex)
    entry (some (some v)) ex g =
        let new : imm (mask_width v r.width) ≡ op' = ground arith in
        subst (IsUnknown constants) new tt
rewrite_operand-IsUnknown constants o op {op'} e =
    let same : op ≡ op' = cc in subst (IsUnknown constants) same tt
