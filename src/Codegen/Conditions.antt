-- ===== src/Codegen/Conditions.antt =====
-- src/codegen/x86_64.rs: the tables of the conditions. Entry `cond` has bit `nzcv` set when the
-- code takes the condition to hold for these four flags.
use armx.Base.{
  ℕ, zero, suc, ◌+◌, ◌*◌, ◌/◌, ◌%◌, ◌^◌, Bool, true, false, not, ◌&&◌, ◌||◌, bit_and, bit_or, ◌==◌,
  if◌then◌else◌, List, [], ◌∷◌,
}
pub mod Holds

abbrev has : ℕ → ℕ → Bool
has nzcv mask = not (bit_and nzcv mask == 0)

abbrev same : Bool → Bool → Bool
same true b = b
same false b = not b

abbrev holds_for : ℕ → Bool → Bool → Bool → Bool → Bool
holds_for cond n z c v =
    if cond == 0
    then z
    else if cond == 1
    then not z
    else if cond == 2
    then c
    else if cond == 3
    then not c
    else if cond == 4
    then n
    else if cond == 5
    then not n
    else if cond == 6
    then v
    else if cond == 7
    then not v
    else if cond == 8
    then c && not z
    else if cond == 9
    then not c || z
    else if cond == 10
    then same n v
    else if cond == 11
    then not (same n v)
    else if cond == 12
    then not z && same n v
    else if cond == 13
    then z || not (same n v)
    else if cond == 14
    then true
    else false

unfoldable pub condition_holds : ℕ → ℕ → Bool
condition_holds cond nzcv = holds_for cond (has nzcv 8) (has nzcv 4) (has nzcv 2) (has nzcv 1)

-- The loop over the remaining `left` values of `nzcv`.
abbrev pub truth_table_from : ℕ → ℕ → ℕ → ℕ → ℕ
truth_table_from zero cond nzcv table = table
truth_table_from (suc left) cond nzcv table =
    truth_table_from left cond (nzcv + 1)
      (if condition_holds cond nzcv then bit_or table (2 ^ nzcv) else table)

unfoldable pub condition_truth_table : ℕ → ℕ
unfolding condition_holds
condition_truth_table cond = truth_table_from 16 cond 0 0

abbrev tables_from : ℕ → ℕ → List ℕ
tables_from zero cond = []
tables_from (suc left) cond = condition_truth_table cond ∷ tables_from left (cond + 1)

unfoldable pub build_condition_tables : List ℕ
unfolding condition_truth_table
build_condition_tables = tables_from 16 0
