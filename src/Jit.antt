-- ===== src/Jit.antt =====
-- src/jit: the optimizer, instruction selection, their composition `prepare_block`, and the counter
-- of executions.
pub mod Optimizer
pub mod Selection
pub mod Compiler
pub mod Cache
pub mod Hot
use armx.Base.{ℕ, Bool, Option, some, leb, ◌>>=◌, saturating_add32}
use armx.Ir.Block.{Block}
use armx.Jit.Optimizer.{optimize_block}
use armx.Jit.Selection.{select_block}

-- `none` is a panic of the optimizer. Selection reads the block, and its counter is dropped.
unfoldable pub prepare_block : Block → Option Block
prepare_block block = do
  (block', optimizer) ← optimize_block Optimizer.default block
  let selector = select_block Selection.default block'
  some block'

pub record Hotness : Type 0 where
  pub hits : ℕ

-- The new state and the result.
unfoldable pub hit : Hotness → Hotness × ℕ
hit h = let hits = saturating_add32 h.hits 1 in (record h { hits = hits }, hits)

unfoldable pub is_hot : Hotness → ℕ → Bool
is_hot h threshold = leb threshold h.hits
