-- ===== src/Jit/Compiler.antt =====
-- src/jit/compiler.rs: the background compiler. The two channels are queues; a thread's turn is one
-- pass of its loop, and the interleavings of the threads are the sequences of steps. `make_executable`
-- is the mapping of code into the host's memory, as for the dispatcher.
pub mod Traces
pub mod Kept
pub mod Ordered
pub mod Drained
use armx.Base.{
  ℕ, zero, suc, Bool, true, false, List, [], ◌∷◌, ◌++◌, Option, some, none, ◌>>=◌, map_some,
  if◌then◌else◌,
}
use armx.Ir.Block.{Block}
use armx.Jit.{prepare_block}
use armx.Codegen.{Emit, emitted, returned, failed, panicked, emit_block}

pub record CompileRequest : Type 0 where
  pub pc : ℕ
  pub block : Block

pub record CompiledBlock (Code : Type 0) : Type 0 where
  pub pc : ℕ
  pub code : Code

-- The worker is in its loop, has left it, or has panicked.
pub data Worker : Type 0 where
  running ended panicking : Worker

-- `tx` and `result_rx`: whether the sender of requests and the receiver of results are there still.
pub record BackgroundCompiler (Code : Type 0) : Type 0 where
  pub tx : Bool
  pub requests : List CompileRequest
  pub worker : Worker
  pub results : List (CompiledBlock Code)
  pub result_rx : Bool

-- A refused request comes back.
pub data SendResult : Type 0 where
  sent : SendResult
  refused : CompileRequest → SendResult

module _ {Code : Type 0} where
  abbrev pub spawn : BackgroundCompiler Code
  spawn = record { tx = true; requests = []; worker = running; results = []; result_rx = true }

  -- `Sender::send` fails where the receiver is gone.
  abbrev send :
      Worker → BackgroundCompiler Code → CompileRequest → BackgroundCompiler Code × SendResult
  send running s request = (record s { requests = s.requests ++ request ∷ [] }, sent)
  send _ s request = (s, refused request)

  unfoldable pub enqueue :
      BackgroundCompiler Code → CompileRequest → BackgroundCompiler Code × SendResult
  enqueue s request = if s.tx then send s.worker s request else (s, refused request)

  -- The first half of `drop`; the second waits for the worker to end.
  abbrev pub close : BackgroundCompiler Code → BackgroundCompiler Code
  close s = record s { tx = false }

module _ {Code : Type 0} (make_executable : List ℕ → Option Code) where
  abbrev pub attempted : ℕ → Emit → Option (Option (CompiledBlock Code))
  attempted pc (emitted bytes) =
      some (map_some (λ code. record { pc = pc; code = code }) (make_executable bytes))
  attempted pc (returned bytes) =
      some (map_some (λ code. record { pc = pc; code = code }) (make_executable bytes))
  attempted pc (failed e) = some none
  attempted pc panicked = none

  -- The body of the loop up to the result: `none` is a panic, and `some none` a `continue`.
  unfoldable pub compile_request : CompileRequest → Option (Option (CompiledBlock Code))
  compile_request request =
      prepare_block request.block >>= λ block. attempted request.pc (emit_block block)

  -- The end of the body: a result is sent, or the loop left where nobody receives it.
  abbrev pub deliver :
      Option (Option (CompiledBlock Code)) → BackgroundCompiler Code → BackgroundCompiler Code
  deliver none s = record s { worker = panicking }
  deliver (some none) s = s
  deliver (some (some compiled)) s =
      if s.result_rx
      then record s { results = s.results ++ compiled ∷ [] }
      else record s { worker = ended }

  -- One pass; `none` waits for a request.
  abbrev pub work_on :
      List CompileRequest → BackgroundCompiler Code → Option (BackgroundCompiler Code)
  work_on [] s = if s.tx then none else some (record s { worker = ended })
  work_on (request ∷ requests) s =
      some (deliver (compile_request request) (record s { requests = requests }))

  -- The worker's turn.
  unfoldable pub work : BackgroundCompiler Code → Option (BackgroundCompiler Code)
  work s = elim s.worker [ running ↦ work_on s.requests s | ended ↦ none | panicking ↦ none ]
