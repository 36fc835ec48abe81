-- ===== src/Runtime/Dispatch/Background.antt =====
-- src/runtime/dispatch.rs, `compile_block`, and src/jit/compiler.rs, the worker: the two ways to compile.
use armx.Base.{ℕ, ◌≡◌, refl, ap, ◌∙◌, List, Option, some}
use armx.Arch.{A64Inst, InstDecoder}
use armx.Ir.Block.{at}
use armx.Lift.Blocks.{lift_block_at}
use armx.Jit.Compiler.{compile_request, attempted}
use armx.Codegen.{Emit, emitted, returned, emit_block, code_of}
use armx.Runtime.Dispatch.{Dispatcher, ok, get, compile_block}
use armx.Runtime.Dispatch.Installed.{compile_block-Installed}

attempted-code_of :
    {Code : Type 0} (make_executable : List ℕ → Option Code) (pc : ℕ) (e : Emit) {bytes' : List ℕ}
    {code : Code}
    → code_of e ≡ some bytes'
    → make_executable bytes' ≡ some code
    → attempted make_executable pc e ≡ some (some (record { pc = pc; code = code }))
attempted-code_of make_executable pc (emitted bytes) {bytes'} {code} h made =
    let same : bytes ≡ bytes' = cc h in
    let maps : make_executable bytes ≡ some code = ap make_executable same ∙ made in rw maps refl
attempted-code_of make_executable pc (returned bytes) {bytes'} {code} h made =
    let same : bytes ≡ bytes' = cc h in
    let maps : make_executable bytes ≡ some code = ap make_executable same ∙ made in rw maps refl
attempted-code_of make_executable pc e h made = cc h

-- The background compiler makes of the lifted block the code that `compile_block`, where it succeeds,
-- installs for the same words.
pub compile_request-compile_block :
    {Code : Type 0} (decoder : InstDecoder) (make_executable : List ℕ → Option Code)
    (d d' : Dispatcher Code) (guest_pc n : ℕ) (words : List A64Inst)
    → compile_block decoder make_executable d guest_pc words ≡ some (d', ok n)
    → (code : Code) × (compile_request make_executable
          (record { pc = guest_pc; block = (lift_block_at decoder words guest_pc (at guest_pc)).0 })
        ≡ some (some (record { pc = guest_pc; code = code })))
      × (get d'.blocks guest_pc ≡ some (record { code = code; hit_count = 0 }))
unfolding compile_request
compile_request-compile_block decoder make_executable d d' guest_pc n words e =
    let (block, prepared, installed) =
      compile_block-Installed decoder make_executable d guest_pc words n d' e in
    (
      installed.code,
      rw prepared (
          attempted-code_of make_executable guest_pc (emit_block block) installed.emits
            installed.made),
      installed.entry,
    )
