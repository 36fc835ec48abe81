-- ===== src/Codegen/Ends/Pieces.antt =====
-- src/codegen/x86_64.rs: how the methods that `emit_block` calls end.
use mathlib.Core.List.{append_assoc, append-nil}
use armx.Base.{ℕ, ◌≡◌, sym, ap, ◌∙◌, List, [], ◌∷◌, ◌++◌, Option, some, none, Bool-cases, inl, inr}
use armx.Ir.Operand.{
  RegWidth, GuestReg, Operand, reg, imm, shifted_imm, shifted_reg, shift_reg, mem, is_zero,
}
use armx.Ir.Inst.{Opcode, IrInst, writes_nzcv}
use armx.Jit.Selection.{InstForm, immediate, select}
use armx.Codegen.Encoding.{X86Scratch, rax, rcx, xor, binop, binop_imm, emit_nzcv_from_x86_flags}
use armx.Codegen.{
  Emit, emitted, returned, failed, panicked, ◌>>◌, prepend, or_panic, load_state, store_state,
  load_operand, emit_guest_address, emit_mov, emit_operation, emit_arithmetic, emit_amount,
  emit_shift, emit_load, emit_store, ending,
}

-- A return is the last byte.
abbrev pub EndsInRet : List ℕ → Type 0
EndsInRet bytes = (before : List ℕ) × (bytes ≡ before ++ 0xC3 ∷ [])

-- Whatever bytes there are at the end end in a return.
abbrev pub Ends : Emit → Type 0
Ends (emitted bytes) = EndsInRet bytes
Ends (returned bytes) = EndsInRet bytes
Ends _ = Unit

pub EndsInRet-++ : (xs ys : List ℕ) → EndsInRet ys → EndsInRet (xs ++ ys)
EndsInRet-++ xs ys (before, e) =
    (xs ++ before, ap (λ (l : List ℕ). xs ++ l) e ∙ sym (append_assoc xs before _))

pub prepend-Ends : (xs : List ℕ) (e : Emit) → Ends e → Ends (prepend xs e)
prepend-Ends xs (emitted ys) h = EndsInRet-++ xs ys h
prepend-Ends xs (returned ys) h = EndsInRet-++ xs ys h
prepend-Ends xs (failed err) h = tt
prepend-Ends xs panicked h = tt

-- An instruction that returns has ended in a return.
abbrev pub ReturnsRet : Emit → Type 0
ReturnsRet (returned bytes) = EndsInRet bytes
ReturnsRet _ = Unit

-- An instruction that cannot return.
abbrev pub GoesOn : Emit → Type 0
GoesOn (returned bytes) = ⊥
GoesOn _ = Unit

pub prepend-GoesOn : (xs : List ℕ) (e : Emit) → GoesOn e → GoesOn (prepend xs e)
prepend-GoesOn xs (emitted ys) h = tt
prepend-GoesOn xs (returned ys) h = absurd h
prepend-GoesOn xs (failed err) h = tt
prepend-GoesOn xs panicked h = tt

pub >>-GoesOn : (e f : Emit) → GoesOn e → GoesOn f → GoesOn (e >> f)
>>-GoesOn (emitted xs) f he hf = prepend-GoesOn xs f hf
>>-GoesOn (returned xs) f he hf = absurd he
>>-GoesOn (failed err) f he hf = tt
>>-GoesOn panicked f he hf = tt

pub GoesOn-ReturnsRet : (e : Emit) → GoesOn e → ReturnsRet e
GoesOn-ReturnsRet (emitted xs) h = tt
GoesOn-ReturnsRet (returned xs) h = absurd h
GoesOn-ReturnsRet (failed err) h = tt
GoesOn-ReturnsRet panicked h = tt

pub >>-Ends : (e f : Emit) → ReturnsRet e → Ends f → Ends (e >> f)
>>-Ends (emitted xs) f he hf = prepend-Ends xs f hf
>>-Ends (returned xs) f he hf = he
>>-Ends (failed err) f he hf = tt
>>-Ends panicked f he hf = tt

pub >>-Ends_before : (e : Emit) → Ends e → Ends (e >> emitted [])
>>-Ends_before (emitted xs) h = (h.0, append-nil xs ∙ h.1)
>>-Ends_before (returned xs) h = h
>>-Ends_before (failed err) h = tt
>>-Ends_before panicked h = tt

pub ending-ReturnsRet : (e : Emit) → Ends e → ReturnsRet (ending e)
ending-ReturnsRet (emitted xs) h = h
ending-ReturnsRet (returned xs) h = h
ending-ReturnsRet (failed err) h = tt
ending-ReturnsRet panicked h = tt

pub or_panic-GoesOn : (o : Option (List ℕ)) → GoesOn (or_panic o)
or_panic-GoesOn (some xs) = tt
or_panic-GoesOn none = tt

pub load_state-GoesOn : (r : X86Scratch) (g : GuestReg) → GoesOn (load_state r g)
unfolding load_state
load_state-GoesOn r g = elim (Bool-cases (is_zero g.kind)) [
  | inl z ↦ rw z (or_panic-GoesOn (xor r r g.width))
  | inr z ↦ rw z tt
]

pub load_operand-GoesOn :
    (op : Operand) (r : X86Scratch) (w : RegWidth) → GoesOn (load_operand op r w)
unfolding load_operand
load_operand-GoesOn (reg g) r w = load_state-GoesOn r g
load_operand-GoesOn (imm v) r w = tt
load_operand-GoesOn (shifted_imm v n) r w = tt
load_operand-GoesOn (shifted_reg g kind n) r w =
    >>-GoesOn (load_state r g) _ (load_state-GoesOn r g) tt
load_operand-GoesOn op r w = tt

pub emit_operation-GoesOn :
    (form : InstForm) (b c : Operand) (op : Opcode) (w : RegWidth)
    → GoesOn (emit_operation form b c op w)
emit_operation-GoesOn immediate (reg lhs) (imm v) op w =
    >>-GoesOn (load_state rax lhs) _ (load_state-GoesOn rax lhs)
      (or_panic-GoesOn (binop_imm op w v))
emit_operation-GoesOn form b c op w =
    >>-GoesOn (load_operand b rax w) _ (load_operand-GoesOn b rax w) (
      >>-GoesOn (load_operand c rcx w) _ (load_operand-GoesOn c rcx w)
        (or_panic-GoesOn (binop op w)))

pub emit_arithmetic-GoesOn : (a : Operand) (inst : IrInst) → GoesOn (emit_arithmetic a inst)
emit_arithmetic-GoesOn (reg d) inst =
    >>-GoesOn (emit_operation (select inst).form inst.b inst.c inst.opcode d.width) _
      (emit_operation-GoesOn (select inst).form inst.b inst.c inst.opcode d.width)
      (prepend-GoesOn (store_state d rax) _ (elim (Bool-cases (writes_nzcv inst)) [
        | inl w ↦ rw w (or_panic-GoesOn (emit_nzcv_from_x86_flags inst.opcode))
        | inr w ↦ rw w tt
      ]))
emit_arithmetic-GoesOn a inst = tt

pub emit_mov-GoesOn : (a : Operand) (inst : IrInst) → GoesOn (emit_mov a inst)
emit_mov-GoesOn (reg d) inst =
    >>-GoesOn (load_operand inst.b rax d.width) _ (load_operand-GoesOn inst.b rax d.width) tt
emit_mov-GoesOn a inst = tt

pub emit_amount-GoesOn : (c : Operand) (w : RegWidth) → GoesOn (emit_amount c w)
emit_amount-GoesOn (shift_reg v amount kind) w =
    >>-GoesOn (load_state rcx amount) _ (load_state-GoesOn rcx amount) tt
emit_amount-GoesOn c w = tt

pub emit_shift-GoesOn : (a : Operand) (inst : IrInst) → GoesOn (emit_shift a inst)
emit_shift-GoesOn (reg d) inst =
    >>-GoesOn (load_operand inst.b rax d.width) _ (load_operand-GoesOn inst.b rax d.width)
      (>>-GoesOn (emit_amount inst.c d.width) _ (emit_amount-GoesOn inst.c d.width) tt)
emit_shift-GoesOn a inst = tt

pub emit_guest_address-GoesOn : (g : GuestReg) → GoesOn (emit_guest_address g)
unfolding emit_guest_address
emit_guest_address-GoesOn g = >>-GoesOn (load_state rax g) _ (load_state-GoesOn rax g) tt

pub emit_load-GoesOn : (a b : Operand) → GoesOn (emit_load a b)
emit_load-GoesOn (reg d) (mem m) =
    >>-GoesOn (emit_guest_address m.base) _ (emit_guest_address-GoesOn m.base) tt
emit_load-GoesOn a b = tt

pub emit_store-GoesOn : (a b : Operand) → GoesOn (emit_store a b)
emit_store-GoesOn (mem m) (reg r) =
    >>-GoesOn (load_state rcx r) _ (load_state-GoesOn rcx r)
      (>>-GoesOn (emit_guest_address m.base) _ (emit_guest_address-GoesOn m.base) tt)
emit_store-GoesOn a b = tt
