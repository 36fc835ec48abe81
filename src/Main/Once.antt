-- ===== src/Main/Once.antt =====
-- src/main.rs, the loop: how often a block is executed.
use armx.Base.{
  ℕ, zero, suc, ◌≡◌, ◌≢◌, refl, sym, subst, arith, Bool, false, List, Option, some, none, ◌==◌,
  if◌then◌else◌, Bool-cases, ◌⊎◌, inl, inr,
}
use armx.Arch.{A64Inst, InstDecoder}
use armx.Runtime.Memory.{GuestMemory}
use armx.Runtime.Dispatch.{
  CompiledBlock, Dispatcher, Result, get, insert, is_some, has_block, hit_count, count, run,
  compile_block,
}
use armx.Runtime.Dispatch
use armx.Runtime.Dispatch.Table.{
  get-insert_self, get-insert_ne, Compiled, compiled, not_supported, not_emitted, not_mapped,
  compile_block-Compiled,
}
use armx.Main.{
  MainResult, Turn, breaks, panics, goes_on, fails, is_mapped, turn, after_run, after_compile,
  after_fetch, main_loop, finish, fetch_words, words_per_fetch, host_view,
}
use armx.Meaning.{Machine}

abbrev pub once : Bool → ℕ
once b = if b then 1 else 0

-- Before an iteration: the next address has no block, and every block has been executed once.
pub record OnceEach {Code : Type 0} (d : Dispatcher Code) (pc : ℕ) : Type 0 where
  pub fresh : has_block d pc ≡ false
  pub hits : (a : ℕ) → hit_count d a ≡ once (has_block d a)

module _ {Code : Type 0} (decoder : InstDecoder) (make_executable : List ℕ → Option Code)
    (entry : Code → Machine → Machine) where
  counted-hits :
      (d d₁ : Dispatcher Code) (pc : ℕ) (code : Code)
      → ((a : ℕ) → hit_count d a ≡ once (has_block d a))
      → ((a : ℕ) → (pc ≡ a) ⊎ (get d₁.blocks a ≡ get d.blocks a))
      → (a : ℕ)
      → hit_count (count entry d₁ pc (record { code = code; hit_count = 0 })) a
        ≡ once (has_block (count entry d₁ pc (record { code = code; hit_count = 0 })) a)
  unfolding hit_count has_block
  counted-hits d d₁ pc code hits others a = elim (Bool-cases (pc == a)) [
    | inl e ↦
        let same : pc ≡ a = ground (arith, e) in
        rw (← same, get-insert_self d₁.blocks pc (record { code = code; hit_count = 1 })) refl
    | inr e ↦
        let differs : pc ≢ a = ground (arith, e) in
        rw (get-insert_ne d₁.blocks pc a (record { code = code; hit_count = 1 }) differs)
          (elim (others a) [ inl same ↦ absurd (differs same) | inr kept ↦ rw kept (hits a) ])
  ]

  -- An execution with a bound of one block ends where there is no block.
  run_once :
      (d : Dispatcher Code) (m : Machine) (block : CompiledBlock Code) {d' : Dispatcher Code}
      {m' : Machine}
      → get d.blocks m.regs.pc ≡ some block
      → after_run decoder make_executable entry (run entry 1 d m) ≡ goes_on d' m'
      → (d' ≡ count entry d m.regs.pc block) × (has_block d' m'.regs.pc ≡ false)
  unfolding run
  run_once d m block {d'} {m'} found e =
      elim (Bool-cases (has_block (count entry d m.regs.pc block) (entry block.code m).regs.pc)) [
        | inl again ↦ cc (rw (run, found, again) at e)
        | inr leaves ↦
            let same : goes_on (count entry d m.regs.pc block) (entry block.code m)
                ≡ goes_on d' m' =
              rw (run, found, leaves) at e in
            let machine : entry block.code m ≡ m' = cc same in
            let dispatcher : count entry d m.regs.pc block ≡ d' = cc same in
            (
              sym dispatcher,
              subst (λ (t : Machine). has_block d' t.regs.pc ≡ false) machine
                  (subst (λ (t : Dispatcher Code). has_block t (entry block.code m).regs.pc ≡ false)
                    dispatcher leaves),
            )
      ]

  translated_once :
      (d d₁ : Dispatcher Code) (m : Machine) (words : List A64Inst) {r : Result ℕ}
      {d' : Dispatcher Code} {m' : Machine}
      → OnceEach d m.regs.pc
      → Compiled decoder make_executable d m.regs.pc words d₁ r
      → after_compile decoder make_executable entry m (some (d₁, r)) ≡ goes_on d' m'
      → OnceEach d' m'.regs.pc
  translated_once d d₁ m words each
        (compiled block bytes code supported prepared emits made found others executed) e =
      let (same, leaves) = run_once d₁ m (record { code = code; hit_count = 0 }) found e in
      record { fresh = leaves; hits = rw same (counted-hits d d₁ m.regs.pc code each.hits others) }
  translated_once d d₁ m words each (not_supported u) e = cc e
  translated_once d d₁ m words each (not_emitted block error u prepared emits) e = cc e
  translated_once d d₁ m words each (not_mapped block bytes u prepared emits made) e = cc e

  turn-OnceEach :
      (g : GuestMemory) (d : Dispatcher Code) (m : Machine) {d' : Dispatcher Code} {m' : Machine}
      → OnceEach d m.regs.pc
      → turn decoder make_executable entry g d m ≡ goes_on d' m'
      → OnceEach d' m'.regs.pc
  unfolding turn
  turn-OnceEach g d m {d'} {m'} each e = elim (Bool-cases (m.regs.pc == 0)) [
    | inl z ↦ cc (rw z at e)
    | inr z ↦ elim (Bool-cases (is_mapped g m.regs.pc)) [
      | inl inside ↦
          fetched (fetch_words words_per_fetch 0 m.regs.pc g (host_view g m))
            (rw (z, inside, each.fresh) at e)
      | inr outside ↦ cc (rw (z, outside) at e)
    ]
  ]
    where
      fetched :
          (words : MainResult (List A64Inst))
          → after_fetch decoder make_executable entry d m words ≡ goes_on d' m'
          → OnceEach d' m'.regs.pc
      fetched (MainResult.ok words) h =
          translated (compile_block decoder make_executable d m.regs.pc words) refl h
        where
          translated :
              (c : Option (Dispatcher Code × Result ℕ))
              → compile_block decoder make_executable d m.regs.pc words ≡ c
              → after_compile decoder make_executable entry m c ≡ goes_on d' m'
              → OnceEach d' m'.regs.pc
          translated (some (d₁, r)) ec h =
              translated_once d d₁ m words each
                (compile_block-Compiled decoder make_executable d m.regs.pc words d₁ r ec) h
          translated none ec h = cc h
      fetched (MainResult.err error) h = cc h
      fetched MainResult.panicked h = cc h

  finish-ok :
      (d : Dispatcher Code) (m : Machine) {d' : Dispatcher Code} {m' : Machine}
      → finish decoder make_executable entry d m ≡ MainResult.ok (d', m')
      → (d ≡ d') × (m'.regs.pc ≡ 0)
  finish-ok d m {d'} {m'} e = elim (Bool-cases (m.regs.pc == 0)) [
    | inl z ↦
        let same : ◌≡◌ {A = MainResult (Dispatcher Code × Machine)} (MainResult.ok (d, m))
            (MainResult.ok (d', m')) =
          rw z at e in
        let machine : m ≡ m' = cc same in
        let at_zero : m.regs.pc ≡ 0 = ground (arith, z) in
        (cc same, subst (λ (t : Machine). t.regs.pc ≡ 0) machine at_zero)
    | inr z ↦ cc (rw z at e)
  ]

  finished :
      (g : GuestMemory) (d : Dispatcher Code) (m : Machine) {d' : Dispatcher Code} {m' : Machine}
      → OnceEach d m.regs.pc
      → finish decoder make_executable entry d m ≡ MainResult.ok (d', m')
      → ((a : ℕ) → hit_count d' a ≡ once (has_block d' a)) × (m'.regs.pc ≡ 0)
  finished g d m each e =
      let (same, ends) = finish-ok d m e in
      (
        subst (λ (t : Dispatcher Code). (a : ℕ) → hit_count t a ≡ once (has_block t a)) same
            each.hits,
        ends,
      )

  main_loop-OnceEach :
      (left : ℕ) (g : GuestMemory) (d : Dispatcher Code) (m : Machine) {d' : Dispatcher Code}
      {m' : Machine}
      → OnceEach d m.regs.pc
      → main_loop decoder make_executable entry left g d m ≡ MainResult.ok (d', m')
      → ((a : ℕ) → hit_count d' a ≡ once (has_block d' a)) × (m'.regs.pc ≡ 0)
  unfolding main_loop
  main_loop-OnceEach zero g d m each e = finished g d m each e
  main_loop-OnceEach (suc left) g d m {d'} {m'} each e =
      go (turn decoder make_executable entry g d m) refl
        (λ d₁ m₁ each₁ h. main_loop-OnceEach left g d₁ m₁ each₁ h) e
    where
      go :
          (t : Turn Code)
          → turn decoder make_executable entry g d m ≡ t
          → ((d₁ : Dispatcher Code) (m₁ : Machine)
              → OnceEach d₁ m₁.regs.pc
              → main_loop decoder make_executable entry left g d₁ m₁ ≡ MainResult.ok (d', m')
              → ((a : ℕ) → hit_count d' a ≡ once (has_block d' a)) × (m'.regs.pc ≡ 0))
          → elim t [
            | breaks ↦ finish decoder make_executable entry d m
            | panics ↦ MainResult.panicked
            | goes_on d' m' ↦ main_loop decoder make_executable entry left g d' m'
            | fails e ↦ MainResult.err e
          ]
            ≡ MainResult.ok (d', m')
          → ((a : ℕ) → hit_count d' a ≡ once (has_block d' a)) × (m'.regs.pc ≡ 0)
      go breaks et next h = finished g d m each h
      go panics et next h = cc h
      go (goes_on d₁ m₁) et next h = next d₁ m₁ (turn-OnceEach g d m each et) h
      go (fails error) et next h = cc h

  -- Where the loop from an empty table succeeds, within any number of iterations, the guest is at
  -- address 0 and each translated block has been executed exactly once.
  pub main_loop-executed_once :
      (left : ℕ) (g : GuestMemory) (m : Machine) (d' : Dispatcher Code) (m' : Machine) (a : ℕ)
      → main_loop decoder make_executable entry left g Dispatch.new m ≡ MainResult.ok (d', m')
      → (hit_count d' a ≡ once (has_block d' a)) × (m'.regs.pc ≡ 0)
  unfolding has_block hit_count
  main_loop-executed_once left g m d' m' a e =
      let (hits, ends) =
        main_loop-OnceEach left g Dispatch.new m (record { fresh = refl; hits = λ a. refl }) e in
      (hits a, ends)
