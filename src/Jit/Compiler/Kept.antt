-- ===== src/Jit/Compiler/Kept.antt =====
-- src/jit/compiler.rs: what the steps of the threads keep.
use armx.Base.{
  ℕ, ◌≡◌, ◌≢◌, refl, sym, ap, ◌∙◌, subst, Bool, true, false, List, [], ◌∷◌, ◌++◌, Option, some,
  none, >>=-eq-some, if◌then◌else◌, Bool-cases, inl, inr,
}
use mathlib.Core.List.{append_assoc, append-nil}
use armx.Jit.Compiler.{
  CompileRequest, CompiledBlock, Worker, running, ended, panicking, BackgroundCompiler, SendResult,
  sent, send, enqueue, compile_request, deliver, work, work_on,
}
use armx.Jit.Compiler.Traces.{followed, compile_all}

pub running-ne-ended : running ≢ ended
running-ne-ended e = cc e

pub running-ne-panicking : running ≢ panicking
running-ne-panicking e = cc e

module _ {Code : Type 0} (make_executable : List ℕ → Option Code) where
  compile_all-snoc :
      (requests : List CompileRequest) (request : CompileRequest) {all : List (CompiledBlock Code)}
      {o : Option (CompiledBlock Code)}
      → compile_all make_executable requests ≡ some all
      → compile_request make_executable request ≡ some o
      → compile_all make_executable (requests ++ request ∷ []) ≡ some (all ++ followed o [])
  compile_all-snoc [] request {all} {o} e h = let same : [] ≡ all = cc e in rw (h, ← same) refl
  compile_all-snoc (first ∷ requests) request {all} {o} e h =
      let (o₁, e₁, e₂) = >>=-eq-some (compile_request make_executable first) _ e in
      let (rest, e₃, e₄) = >>=-eq-some (compile_all make_executable requests) _ e₂ in
      let same : followed o₁ rest ≡ all = cc e₄ in
      rw (e₁, compile_all-snoc requests request e₃ h, ← same)
        (followed-append o₁ rest (followed o []))
    where
      followed-append :
          (o : Option (CompiledBlock Code)) (xs ys : List (CompiledBlock Code))
          → some (followed o (xs ++ ys)) ≡ some (followed o xs ++ ys)
      followed-append (some compiled) xs ys = refl
      followed-append none xs ys = refl

  -- The accepted requests are those that the worker has done and those that are left.
  pub record Ordered (ins : List CompileRequest) (outs : List (CompiledBlock Code))
      (s : BackgroundCompiler Code) : Type 0 where
    pub done : List CompileRequest
    pub left : List CompileRequest
    pub split : ins ≡ done ++ left
    pub compiled :
        s.result_rx ≡ true
        → s.worker ≢ panicking
        → compile_all make_executable done ≡ some (outs ++ s.results)
    pub waiting : s.worker ≡ running → left ≡ s.requests
    pub finished : s.result_rx ≡ true → s.worker ≡ ended → left ≡ []

  pub enqueue-Ordered :
      {ins : List CompileRequest} {outs : List (CompiledBlock Code)} (s : BackgroundCompiler Code)
      {s' : BackgroundCompiler Code} (request : CompileRequest)
      → Ordered ins outs s
      → enqueue s request ≡ (s', sent)
      → Ordered (ins ++ request ∷ []) outs s'
  unfolding enqueue
  enqueue-Ordered {ins} {outs} s {s'} request before e = by_tx s.tx e
    where
      go :
          (w : Worker)
          → s.worker ≡ w
          → send w s request ≡ (s', sent)
          → Ordered (ins ++ request ∷ []) outs s'
      go running ew h =
          let same : record s { requests = s.requests ++ request ∷ [] } ≡ s' = ap (λ r. r.0) h in
          subst (Ordered (ins ++ request ∷ []) outs) same (record {
            done = before.done;
            left = before.left ++ request ∷ [];
            split =
                ap (λ l. l ++ request ∷ []) before.split
                ∙ append_assoc before.done before.left (request ∷ []);
            compiled = before.compiled;
            waiting = λ r. ap (λ l. l ++ request ∷ []) (before.waiting r);
            finished = λ rx end. absurd (running-ne-ended (sym ew ∙ end));
          })
      go ended ew h = cc h
      go panicking ew h = cc h

      by_tx :
          (tx : Bool)
          → (if tx then send s.worker s request else (s, SendResult.refused request)) ≡ (s', sent)
          → Ordered (ins ++ request ∷ []) outs s'
      by_tx true h = go s.worker refl h
      by_tx false h = cc h

  -- One pass over a request, whatever it gives.
  deliver-Ordered :
      (o : Option (Option (CompiledBlock Code))) {ins : List CompileRequest}
      {outs : List (CompiledBlock Code)} (s : BackgroundCompiler Code)
      (done rest : List CompileRequest) (request : CompileRequest)
      → compile_request make_executable request ≡ o
      → s.worker ≡ running
      → s.requests ≡ rest
      → ins ≡ done ++ request ∷ rest
      → (s.result_rx ≡ true → compile_all make_executable done ≡ some (outs ++ s.results))
      → Ordered ins outs (deliver make_executable o s)
  deliver-Ordered none s done rest request eo ew er split compiled = record {
    done = done;
    left = request ∷ rest;
    split = split;
    compiled = λ rx fine. absurd (fine refl);
    waiting = λ r. cc r;
    finished = λ rx end. cc end;
  }
  deliver-Ordered (some none) {ins} {outs} s done rest request eo ew er split compiled = record {
    done = done ++ request ∷ [];
    left = rest;
    split = split ∙ sym (append_assoc done (request ∷ []) rest);
    compiled = λ rx fine.
        compile_all-snoc done request (compiled rx) eo ∙ ap some (append-nil (outs ++ s.results));
    waiting = λ r. sym er;
    finished = λ rx end. absurd (running-ne-ended (sym ew ∙ end));
  }
  deliver-Ordered (some (some c)) {ins} {outs} s done rest request eo ew er split compiled =
      elim (Bool-cases s.result_rx) [
        | inl alive ↦ rw alive (record {
          done = done ++ request ∷ [];
          left = rest;
          split = split ∙ sym (append_assoc done (request ∷ []) rest);
          compiled = λ rx fine.
              compile_all-snoc done request (compiled alive) eo
              ∙ ap some (append_assoc outs s.results (c ∷ []));
          waiting = λ r. sym er;
          finished = λ rx end. absurd (running-ne-ended (sym ew ∙ end));
        })
        | inr gone ↦ rw gone (record {
          done = done;
          left = request ∷ rest;
          split = split;
          compiled = λ rx fine. cc (gone, rx);
          waiting = λ r. cc r;
          finished = λ rx end. cc (gone, rx);
        })
      ]

  pub work-Ordered :
      {ins : List CompileRequest} {outs : List (CompiledBlock Code)} (s : BackgroundCompiler Code)
      {s' : BackgroundCompiler Code}
      → Ordered ins outs s
      → work make_executable s ≡ some s'
      → Ordered ins outs s'
  unfolding work
  work-Ordered {ins} {outs} s {s'} before e = by_worker s.worker refl e
    where
      by_requests :
          (requests : List CompileRequest)
          → s.worker ≡ running
          → s.requests ≡ requests
          → work_on make_executable requests s ≡ some s'
          → Ordered ins outs s'
      by_requests [] ew er h = elim (Bool-cases s.tx) [
        | inl alive ↦ cc (rw alive at h)
        | inr gone ↦
            let same : record s { worker = ended } ≡ s' = cc (rw gone at h) in
            subst (Ordered ins outs) same (record {
              done = before.done;
              left = before.left;
              split = before.split;
              compiled = λ rx fine. before.compiled rx (λ p. running-ne-panicking (sym ew ∙ p));
              waiting = λ r. absurd (running-ne-ended (sym r));
              finished = λ rx end. before.waiting ew ∙ er;
            })
      ]
      by_requests (request ∷ requests) ew er h =
          let same : deliver make_executable (compile_request make_executable request)
                (record s { requests = requests })
              ≡ s' =
            cc h in
          subst (Ordered ins outs) same (
            deliver-Ordered (compile_request make_executable request)
              (record s { requests = requests }) before.done requests request refl ew refl
              (before.split ∙ ap (λ l. before.done ++ l) (before.waiting ew ∙ er))
              (λ rx. before.compiled rx (λ p. running-ne-panicking (sym ew ∙ p))))

      by_worker :
          (w : Worker)
          → s.worker ≡ w
          → elim w [
            | running ↦ work_on make_executable s.requests s
            | ended ↦ none
            | panicking ↦ none
          ]
            ≡ some s'
          → Ordered ins outs s'
      by_worker running ew h = by_requests s.requests ew refl h
      by_worker ended ew h = cc h
      by_worker panicking ew h = cc h
