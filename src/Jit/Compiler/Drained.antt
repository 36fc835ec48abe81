-- ===== src/Jit/Compiler/Drained.antt =====
-- src/jit/compiler.rs, `drop`: the wait for the worker.
use armx.Base.{
  ℕ, zero, suc, ◌≡◌, ◌≢◌, refl, false, List, [], ◌∷◌, Option, some, none, length, Bool-cases, inl,
  inr,
}
use armx.Jit.Compiler.{
  CompileRequest, CompiledBlock, Worker, running, ended, panicking, BackgroundCompiler,
  compile_request, deliver, work, work_on,
}

module _ {Code : Type 0} (make_executable : List ℕ → Option Code) where
  -- The worker by itself, for `n` turns at most.
  unfoldable pub work_for : ℕ → BackgroundCompiler Code → BackgroundCompiler Code
  work_for zero s = s
  work_for (suc n) s = elim (work make_executable s) [ none ↦ s | some s' ↦ work_for n s' ]

  stopped :
      (n : ℕ) (s : BackgroundCompiler Code) → s.worker ≢ running → (work_for n s).worker ≢ running
  unfolding work_for work
  stopped zero s h = h
  stopped (suc n) s h = go s.worker refl
    where
      go : (w : Worker) → s.worker ≡ w → (work_for (suc n) s).worker ≢ running
      go running e = absurd (h e)
      go ended e = rw (work_for, work, e) h
      go panicking e = rw (work_for, work, e) h

  delivered :
      (o : Option (Option (CompiledBlock Code))) (s : BackgroundCompiler Code)
      → s.tx ≡ false
      → ((deliver make_executable o s).tx ≡ false)
        × ((deliver make_executable o s).requests ≡ s.requests)
  delivered none s h = (h, refl)
  delivered (some none) s h = (h, refl)
  delivered (some (some compiled)) s h = elim (Bool-cases s.result_rx) [
    | inl alive ↦ rw alive (h, refl)
    | inr gone ↦ rw gone (h, refl)
  ]

  work-request :
      (s : BackgroundCompiler Code) (request : CompileRequest) (requests : List CompileRequest)
      → s.worker ≡ running
      → s.requests ≡ request ∷ requests
      → work make_executable s
        ≡ some (
            deliver make_executable
              (compile_request make_executable request)
              (record s { requests = requests }))
  unfolding work
  work-request s request requests e er = by_worker s.worker e
    where
      after : BackgroundCompiler Code
      after =
          deliver make_executable (compile_request make_executable request)
            (record s { requests = requests })

      by_requests :
          (queue : List CompileRequest)
          → queue ≡ request ∷ requests
          → work_on make_executable queue s ≡ some after
      by_requests queue eq = rw eq refl

      by_worker :
          (w : Worker)
          → w ≡ running
          → elim w [
            | running ↦ work_on make_executable s.requests s
            | ended ↦ none
            | panicking ↦ none
          ]
            ≡ some after
      by_worker running ew = by_requests s.requests er
      by_worker ended ew = cc ew
      by_worker panicking ew = cc ew

  drained :
      (requests : List CompileRequest) (s : BackgroundCompiler Code)
      → s.requests ≡ requests
      → s.tx ≡ false
      → (work_for (suc (length requests)) s).worker ≢ running
  unfolding work_for work
  drained [] s er shut = go s.worker refl
    where
      go : (w : Worker) → s.worker ≡ w → (work_for 1 s).worker ≢ running
      go running e = rw (work_for, work, e, er, shut) (λ r. cc r)
      go ended e = rw (work_for, work, e) (λ r. cc (e, r))
      go panicking e = rw (work_for, work, e) (λ r. cc (e, r))
  drained (request ∷ requests) s er shut =
      let s' : BackgroundCompiler Code =
        deliver make_executable (compile_request make_executable request)
          (record s { requests = requests }) in
      let (shut', er') =
        delivered (compile_request make_executable request) (record s { requests = requests })
          shut in
      go (drained requests s' er' shut') s.worker refl
    where
      go :
          (work_for (suc (length requests)) (
              deliver make_executable
                (compile_request make_executable request)
                (record s { requests = requests }))).worker
            ≢ running
          → (w : Worker) → s.worker ≡ w
          → (work_for (suc (suc (length requests))) s).worker ≢ running
      go rest running e = rw (work_for, work-request s request requests e er) rest
      go rest ended e = stopped (suc (suc (length requests))) s (λ r. cc (e, r))
      go rest panicking e = stopped (suc (suc (length requests))) s (λ r. cc (e, r))

  -- Once the sender of requests is gone, the worker leaves its loop after at most one turn for each
  -- request in the queue and one more: the wait of `drop` ends.
  pub work_for-drained :
      (s : BackgroundCompiler Code)
      → s.tx ≡ false
      → (work_for (suc (length s.requests)) s).worker ≢ running
  work_for-drained s shut = drained s.requests s refl shut
