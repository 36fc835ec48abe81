-- ===== src/Jit/Compiler/Traces.antt =====
-- src/jit/compiler.rs: runs of the threads, and what the requests of a run give.
use armx.Base.{ℕ, ◌≡◌, false, List, [], ◌∷◌, ◌++◌, Option, some, none, ◌>>=◌}
use armx.Jit.Compiler.{
  CompileRequest, CompiledBlock, BackgroundCompiler, sent, spawn, enqueue, close, compile_request,
  work,
}

-- What one request gives, and a list of them in order; `none` where one panics.
abbrev pub followed :
    {Code : Type 0}
    → Option (CompiledBlock Code)
    → List (CompiledBlock Code)
    → List (CompiledBlock Code)
followed (some compiled) rest = compiled ∷ rest
followed none rest = rest

abbrev pub compile_all :
    {Code : Type 0}
    → (List ℕ → Option Code)
    → List CompileRequest
    → Option (List (CompiledBlock Code))
compile_all make_executable [] = some []
compile_all make_executable (request ∷ requests) = do
  first ← compile_request make_executable request
  rest ← compile_all make_executable requests
  some (followed first rest)

-- A run of the guest's thread, the worker and the receiver of results, in any interleaving, with the
-- requests that were accepted and the results that were received.
pub data Runs {Code : Type 0} (make_executable : List ℕ → Option Code)
    : List CompileRequest → List (CompiledBlock Code) → BackgroundCompiler Code → Type 0 where
  spawned : Runs make_executable [] [] spawn
  enqueued :
      {ins : List CompileRequest} {outs : List (CompiledBlock Code)}
      {s s' : BackgroundCompiler Code} (request : CompileRequest)
      → Runs make_executable ins outs s
      → enqueue s request ≡ (s', sent)
      → Runs make_executable (ins ++ request ∷ []) outs s'
  worked :
      {ins : List CompileRequest} {outs : List (CompiledBlock Code)}
      {s s' : BackgroundCompiler Code}
      → Runs make_executable ins outs s
      → work make_executable s ≡ some s'
      → Runs make_executable ins outs s'
  received :
      {ins : List CompileRequest} {outs : List (CompiledBlock Code)} {s : BackgroundCompiler Code}
      (compiled : CompiledBlock Code) (rest : List (CompiledBlock Code))
      → Runs make_executable ins outs s
      → s.results ≡ compiled ∷ rest
      → Runs make_executable ins (outs ++ compiled ∷ []) (record s { results = rest })
  closed :
      {ins : List CompileRequest} {outs : List (CompiledBlock Code)} {s : BackgroundCompiler Code}
      → Runs make_executable ins outs s
      → Runs make_executable ins outs (close s)
  hung_up :
      {ins : List CompileRequest} {outs : List (CompiledBlock Code)} {s : BackgroundCompiler Code}
      → Runs make_executable ins outs s
      → Runs make_executable ins outs (record s { result_rx = false })
