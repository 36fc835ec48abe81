-- ===== src/Codegen/Conditions/Holds.antt =====
-- src/codegen/x86_64.rs, the tables against the manual's conditions.
use armx.Base.{
  ℕ, zero, suc, ◌*◌, ◌/◌, ◌%◌, ◌^◌, subst, ltb, ◌<◌, ◌≡◌, refl, ap, ◌∙◌, arith, Bool, true, false,
  not, ◌&&◌, ◌==◌, Option, some, none, get_elem?, map_some,
}
use armx.Codegen.Conditions.{build_condition_tables}
use armx.Meaning.{flag, condition_met, condition_base}

same_test : Option Bool → Bool → Bool
same_test (some true) b = b
same_test (some false) b = not b
same_test none b = false

same_test_sound : (o : Option Bool) (b : Bool) → same_test o b ≡ true → o ≡ some b
unfolding same_test
same_test_sound (some true) b h = cc
same_test_sound (some false) true h = cc
same_test_sound (some false) false h = refl
same_test_sound none b h = cc

all_below : ℕ → (ℕ → Bool) → Bool
all_below zero test = true
all_below (suc n) test = test n && all_below n test

all_below-at : (n i : ℕ) (test : ℕ → Bool) → all_below n test ≡ true → i < n → test i ≡ true
unfolding all_below
all_below-at zero i test h lt = absurd (omega arith)
all_below-at (suc n) i test h lt = ground (arith, all_below-at n i test)

-- The bit that the host tests.
abbrev pub tested : ℕ → ℕ → Option Bool
tested cond nibble = map_some (λ table. flag table nibble) (get_elem? build_condition_tables cond)

all_right :
    all_below 15 (λ cond.
      all_below 16
        (λ nibble. same_test (tested cond nibble) (condition_met cond (nibble * 2 ^ 28))))
    ≡ true
unfolding all_below same_test build_condition_tables condition_met
all_right = refl

-- The flags are the upper four bits.
flag_28 : (nzcv : ℕ) → flag (nzcv % 2 ^ 32 / 2 ^ 28 * 2 ^ 28) 28 ≡ flag nzcv 28
flag_28 nzcv = ap (λ (b : ℕ). b == 1) (omega arith)

flag_29 : (nzcv : ℕ) → flag (nzcv % 2 ^ 32 / 2 ^ 28 * 2 ^ 28) 29 ≡ flag nzcv 29
flag_29 nzcv = ap (λ (b : ℕ). b == 1) (omega arith)

flag_30 : (nzcv : ℕ) → flag (nzcv % 2 ^ 32 / 2 ^ 28 * 2 ^ 28) 30 ≡ flag nzcv 30
flag_30 nzcv = ap (λ (b : ℕ). b == 1) (omega arith)

flag_31 : (nzcv : ℕ) → flag (nzcv % 2 ^ 32 / 2 ^ 28 * 2 ^ 28) 31 ≡ flag nzcv 31
flag_31 nzcv = ap (λ (b : ℕ). b == 1) (omega arith)

condition_base-nibble :
    (nzcv k : ℕ) → condition_base (nzcv % 2 ^ 32 / 2 ^ 28 * 2 ^ 28) k ≡ condition_base nzcv k
condition_base-nibble nzcv zero = flag_30 nzcv
condition_base-nibble nzcv (suc zero) = flag_29 nzcv
condition_base-nibble nzcv (suc (suc zero)) = flag_31 nzcv
condition_base-nibble nzcv (suc (suc (suc zero))) = flag_28 nzcv
condition_base-nibble nzcv (suc (suc (suc (suc zero)))) = rw (flag_29 nzcv, flag_30 nzcv)
condition_base-nibble nzcv (suc (suc (suc (suc (suc zero))))) = rw (flag_31 nzcv, flag_28 nzcv)
condition_base-nibble nzcv (suc (suc (suc (suc (suc (suc zero)))))) =
    rw (flag_31 nzcv, flag_28 nzcv, flag_30 nzcv)
condition_base-nibble nzcv (suc (suc (suc (suc (suc (suc (suc k))))))) = refl

condition_met-nibble :
    (cond nzcv : ℕ) → condition_met cond (nzcv % 2 ^ 32 / 2 ^ 28 * 2 ^ 28) ≡ condition_met cond nzcv
unfolding condition_met
condition_met-nibble cond nzcv = rw (condition_base-nibble nzcv (cond / 2))

pub tested_word :
    (cond nzcv : ℕ)
    → cond < 15
    → tested cond (nzcv % 2 ^ 32 / 2 ^ 28) ≡ some (condition_met cond nzcv)
tested_word cond nzcv hc =
    let nibble : ℕ = nzcv % 2 ^ 32 / 2 ^ 28 in
    let row = all_below-at 15 cond _ all_right hc in
    let entry = all_below-at 16 nibble _ row (omega arith) in
    same_test_sound (tested cond nibble) _ entry ∙ ap some (condition_met-nibble cond nzcv)

below_two_pow_16 : Option ℕ → Bool
below_two_pow_16 (some table) = ltb table (2 ^ 16)
below_two_pow_16 none = true

all_small : all_below 15 (λ cond. below_two_pow_16 (get_elem? build_condition_tables cond)) ≡ true
unfolding all_below below_two_pow_16 build_condition_tables
all_small = refl

pub table-lt :
    (cond table : ℕ)
    → cond < 15
    → get_elem? build_condition_tables cond ≡ some table
    → table < 2 ^ 16
unfolding below_two_pow_16
table-lt cond table hc e =
    let small =
      all_below-at 15 cond (λ k. below_two_pow_16 (get_elem? build_condition_tables k)) all_small
        hc in
    let below : ltb table (2 ^ 16) ≡ true = rw e at small in ground arith

-- Entry `cond` of the tables, at the bit of the upper four bits of NZCV, is whether the condition is
-- met; for each condition but 15, which the tables have as never met.
pub build_condition_tables-condition_met :
    (cond nzcv : ℕ)
    → cond < 15
    → nzcv < 2 ^ 32
    → map_some (λ table. flag table (nzcv / 2 ^ 28)) (get_elem? build_condition_tables cond)
      ≡ some (condition_met cond nzcv)
build_condition_tables-condition_met cond nzcv hc hn =
    let word : nzcv % 2 ^ 32 ≡ nzcv = omega arith in
    subst (λ (n : ℕ). tested cond (n / 2 ^ 28) ≡ some (condition_met cond nzcv)) word
      (tested_word cond nzcv hc)
