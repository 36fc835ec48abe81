-- ===== src/Main.antt =====
-- src/main.rs: the loop that translates and executes the guest, and the program around it. The
-- printed lines are left out. The parameters are those of the loader and of the dispatcher, and the
-- parsing of a number.
pub mod Once
pub mod Fetch
use armx.Base.{
  ℕ, zero, suc, ◌+◌, ◌-◌, ◌*◌, ◌%◌, ◌^◌, Bool, true, false, ◌||◌, not, List, [], ◌∷◌, Option, some,
  none, if◌then◌else◌, ◌==◌, ltb, leb, bit_and, u64, checked_add64, replicate,
}
use armx.Base.Bytes.{Bytes}
use armx.Arch.{A64Inst, InstDecoder}
use armx.Runtime.State
use armx.Runtime.State.{GuestState, write_x}
use armx.Runtime.Memory.{GuestMemory, read_u32}
use armx.Runtime.Dispatch.{Dispatcher, DispatchError, has_block, compile_block, run}
use armx.Runtime.Dispatch
use armx.Elf.{LoadedElf, ElfLoadError, LoadResult, ObjectFile, load}
use armx.Elf
use armx.Meaning.{Machine}

abbrev pub max_blocks : ℕ
max_blocks = 1_000_000

abbrev pub words_per_fetch : ℕ
words_per_fetch = 32

-- The errors of `try_main`.
pub data MainError : Type 0 where
  usage invalid_number instruction_fetch_overflow : MainError
  load_failed : ElfLoadError → MainError
  outside_mapped_memory budget_exhausted : ℕ → MainError
  translation_failed : ℕ → DispatchError → MainError
  execution_failed : DispatchError → MainError

pub data MainResult (A : Type 0) : Type 0 where
  ok : A → MainResult A
  err : MainError → MainResult A
  panicked : MainResult A

-- The host's memory, where the guest's is mapped.
abbrev pub host_view : GuestMemory → Machine → Bytes
host_view g m address = m.memory (address - g.base)

abbrev with_word : Option ℕ → MainResult (List A64Inst) → MainResult (List A64Inst)
with_word none rest = panicked
with_word (some word) (ok words) = ok (word ∷ words)
with_word (some word) rest = rest

-- The loop over the `left` words from `index` on; the words behind the end of memory stay zero.
unfoldable pub fetch_words : ℕ → ℕ → ℕ → GuestMemory → Bytes → MainResult (List A64Inst)
fetch_words zero index pc g memory = ok []
fetch_words (suc left) index pc g memory =
    let rest = fetch_words left (index + 1) pc g memory in
    elim (checked_add64 pc (index * 4)) [
      | none ↦ err instruction_fetch_overflow
      | some address ↦
          if ltb g.size (u64 (address + 4))
          then ok (replicate (suc left) 0)
          else with_word (read_u32 g address memory) rest
    ]

-- `!checked_add(4).is_none_or(|end| end > size)`.
abbrev ends_inside : GuestMemory → Option ℕ → Bool
ends_inside g none = false
ends_inside g (some end) = leb end g.size

abbrev pub is_mapped : GuestMemory → ℕ → Bool
is_mapped g pc = if leb g.size pc then false else ends_inside g (checked_add64 pc 4)

-- One iteration: it breaks, or goes on with a new dispatcher and machine, or returns an error.
pub data Turn (Code : Type 0) : Type 0 where
  breaks panics : Turn Code
  goes_on : Dispatcher Code → Machine → Turn Code
  fails : MainError → Turn Code

module _ {Code : Type 0} (decoder : InstDecoder) (make_executable : List ℕ → Option Code)
    (entry : Code → Machine → Machine) where
  abbrev after_run : Dispatcher Code × Machine × Dispatch.Result ℕ → Turn Code
  after_run (d, m, Dispatch.ok pc) = goes_on d m
  after_run (d, m, Dispatch.err e) = fails (execution_failed e)

  abbrev after_compile : Machine → Option (Dispatcher Code × Dispatch.Result ℕ) → Turn Code
  after_compile m none = panics
  after_compile m (some (d, Dispatch.ok consumed)) = after_run (run entry 1 d m)
  after_compile m (some (d, Dispatch.err e)) = fails (translation_failed m.regs.pc e)

  abbrev after_fetch : Dispatcher Code → Machine → MainResult (List A64Inst) → Turn Code
  after_fetch d m (ok words) =
      after_compile m (compile_block decoder make_executable d m.regs.pc words)
  after_fetch d m (err e) = fails e
  after_fetch d m panicked = panics

  unfoldable pub turn : GuestMemory → Dispatcher Code → Machine → Turn Code
  turn g d m =
      if m.regs.pc == 0
      then breaks
      else if not (is_mapped g m.regs.pc)
      then fails (outside_mapped_memory m.regs.pc)
      else if has_block d m.regs.pc
      then after_run (run entry 1 d m)
      else after_fetch d m (fetch_words words_per_fetch 0 m.regs.pc g (host_view g m))

  -- After the loop.
  abbrev pub finish : Dispatcher Code → Machine → MainResult (Dispatcher Code × Machine)
  finish d m = if m.regs.pc == 0 then ok (d, m) else err (budget_exhausted m.regs.pc)

  -- The loop, with `left` iterations to go.
  unfoldable pub main_loop :
      ℕ → GuestMemory → Dispatcher Code → Machine → MainResult (Dispatcher Code × Machine)
  main_loop zero g d m = finish d m
  main_loop (suc left) g d m = elim (turn g d m) [
    | breaks ↦ finish d m
    | panics ↦ panicked
    | goes_on d' m' ↦ main_loop left g d' m'
    | fails e ↦ err e
  ]

  abbrev with_x0 : Option ℕ → GuestState → GuestState
  with_x0 (some value) s = write_x s 0 value
  with_x0 none s = s

  -- X30 is zero: a return there ends the guest.
  abbrev pub initial_state : LoadedElf → Option ℕ → GuestState
  initial_state image x0 =
      let s = with_x0 x0 (write_x (record State.new { pc = image.entry }) 30 0) in
      record s { sp = bit_and (image.memory.size - 16) (2 ^ 64 - 16) }

  abbrev after_load :
      Option ℕ → LoadResult (LoadedElf × Bytes) → MainResult (Dispatcher Code × Machine)
  after_load x0 (Elf.ok (image, memory)) =
      main_loop max_blocks image.memory Dispatch.new
        (record { regs = initial_state image x0; memory = λ a. memory (image.memory.base + a) })
  after_load x0 (Elf.err e) = err (load_failed e)

  module _ {Arg : Type 0} (parse_u64 : Arg → Option ℕ) (read_file : Arg → Option (List ℕ))
      (object_parse : List ℕ → Option ObjectFile) (mmap : ℕ → ℕ → Option ℕ) (memory : Bytes) where
    abbrev run_image : Arg → MainResult (Option ℕ) → MainResult (Dispatcher Code × Machine)
    run_image path (ok x0) = after_load x0 (load read_file object_parse mmap path memory)
    run_image path (err e) = err e
    run_image path panicked = panicked

    abbrev parsed : Option ℕ → MainResult (Option ℕ)
    parsed (some value) = ok (some value)
    parsed none = err invalid_number

    -- The arguments after the program's name.
    unfoldable pub try_main : List Arg → MainResult (Dispatcher Code × Machine)
    try_main [] = err usage
    try_main (path ∷ []) = run_image path (ok none)
    try_main (path ∷ x0 ∷ rest) = run_image path (parsed (parse_u64 x0))

pub data ExitCode : Type 0 where
  success failure : ExitCode

-- The exit code for the result of `try_main`; `none` is a panic.
unfoldable pub main : {A : Type 0} → MainResult A → Option ExitCode
main (ok result) = some success
main (err error) = some failure
main panicked = none
