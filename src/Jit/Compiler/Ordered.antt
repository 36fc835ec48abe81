-- ===== src/Jit/Compiler/Ordered.antt =====
-- src/jit/compiler.rs: which results come out, and in what order.
use armx.Base.{ℕ, ◌≡◌, ◌≢◌, refl, sym, ap, ◌∙◌, subst, true, List, [], ◌∷◌, ◌++◌, Option, some}
use mathlib.Core.List.{append_assoc, append-nil}
use armx.Jit.Compiler.{CompileRequest, CompiledBlock, running, ended, panicking, BackgroundCompiler}
use armx.Jit.Compiler.Traces.{
  compile_all, Runs, spawned, enqueued, worked, received, closed, hung_up,
}
use armx.Jit.Compiler.Kept.{Ordered, running-ne-panicking, enqueue-Ordered, work-Ordered}

module _ {Code : Type 0} (make_executable : List ℕ → Option Code) where
  Runs-Ordered :
      {ins : List CompileRequest} {outs : List (CompiledBlock Code)} {s : BackgroundCompiler Code}
      → Runs make_executable ins outs s
      → Ordered make_executable ins outs s
  Runs-Ordered spawned = record {
    done = [];
    left = [];
    split = refl;
    compiled = λ rx fine. refl;
    waiting = λ r. refl;
    finished = λ rx end. refl;
  }
  Runs-Ordered (enqueued {s = s} request runs e) =
      enqueue-Ordered make_executable s request (Runs-Ordered runs) e
  Runs-Ordered (worked {s = s} runs e) = work-Ordered make_executable s (Runs-Ordered runs) e
  Runs-Ordered (received {outs = outs} compiled rest runs e) =
      let before = Runs-Ordered runs in
      record {
        done = before.done;
        left = before.left;
        split = before.split;
        compiled = λ rx fine.
            before.compiled rx fine
            ∙ ap some (ap (λ l. outs ++ l) e ∙ sym (append_assoc outs (compiled ∷ []) rest));
        waiting = before.waiting;
        finished = before.finished;
      }
  Runs-Ordered (closed runs) =
      let before = Runs-Ordered runs in
      record {
        done = before.done;
        left = before.left;
        split = before.split;
        compiled = before.compiled;
        waiting = before.waiting;
        finished = before.finished;
      }
  Runs-Ordered (hung_up runs) =
      let before = Runs-Ordered runs in
      record {
        done = before.done;
        left = before.left;
        split = before.split;
        compiled = λ rx fine. cc rx;
        waiting = before.waiting;
        finished = λ rx end. cc rx;
      }

  -- In every interleaving, while the worker runs and its results have a receiver, the accepted requests
  -- are the ones in the queue behind those that are done, and the results received and still waiting are
  -- those of the requests done, in their order, a failing request giving none.
  pub Runs-running :
      {ins : List CompileRequest} {outs : List (CompiledBlock Code)} {s : BackgroundCompiler Code}
      → Runs make_executable ins outs s
      → s.worker ≡ running
      → s.result_rx ≡ true
      → (done : List CompileRequest) × (ins ≡ done ++ s.requests)
        × (compile_all make_executable done ≡ some (outs ++ s.results))
  Runs-running {s = s} runs r rx =
      let ordered = Runs-Ordered runs in
      (
        ordered.done,
        ordered.split ∙ ap (λ l. ordered.done ++ l) (ordered.waiting r),
        ordered.compiled rx (λ p. running-ne-panicking (sym r ∙ p)),
      )

  -- Once the worker has ended and its results still have a receiver, every accepted request has been
  -- done: the results received and still waiting are those of all of them, in their order.
  pub Runs-ended :
      {ins : List CompileRequest} {outs : List (CompiledBlock Code)} {s : BackgroundCompiler Code}
      → Runs make_executable ins outs s
      → s.worker ≡ ended
      → s.result_rx ≡ true
      → compile_all make_executable ins ≡ some (outs ++ s.results)
  Runs-ended {ins} {outs} {s} runs end rx =
      let ordered = Runs-Ordered runs in
      let all_done : ordered.done ≡ ins = sym (
        ordered.split
        ∙ (ap (λ l. ordered.done ++ l) (ordered.finished rx end) ∙ append-nil ordered.done)) in
      subst (λ l. compile_all make_executable l ≡ some (outs ++ s.results)) all_done
        (ordered.compiled rx (λ p. ended-ne-panicking (sym end ∙ p)))
    where
      ended-ne-panicking : ended ≢ panicking
      ended-ne-panicking e = cc e
