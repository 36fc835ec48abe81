-- ===== src/Host/Cpu.antt =====
-- The registers, the flags and the memory that emitted code works on. RDI holds the address of the
-- guest's state; the state and the guest's memory, at `host_base`, do not overlap.
use armx.Base.{
  ℕ, ◌+◌, ◌-◌, ◌/◌, ◌%◌, ◌^◌, Bool, false, not, ◌&&◌, Option, some, none, get_elem?, set?, ◌==◌,
  ltb, leb, if◌then◌else◌, map_some, bit_and, bit_or, bit_xor,
}
use armx.Ir.Operand.{RegWidth, w32, x64}
use armx.Runtime.State.{GuestState, sp_offset, nzcv_offset, pc_offset}
use armx.Runtime.Memory.{host_base}
use armx.Codegen.Encoding.{X86Scratch, rax, rcx, rdx, rsi}
use armx.Meaning.{Machine, bits, trunc, negative, bool_eq}

pub record Flags : Type 0 where
  pub sf : Bool
  pub zf : Bool
  pub cf : Bool
  pub vf : Bool

pub record Cpu : Type 0 where
  pub a : ℕ
  pub c : ℕ
  pub d : ℕ
  pub si : ℕ
  pub flags : Flags
  pub machine : Machine

abbrev pub get_reg : X86Scratch → Cpu → ℕ
get_reg rax cpu = cpu.a
get_reg rcx cpu = cpu.c
get_reg rdx cpu = cpu.d
get_reg rsi cpu = cpu.si

abbrev pub put_reg : X86Scratch → ℕ → Cpu → Cpu
put_reg rax v cpu = record cpu { a = v }
put_reg rcx v cpu = record cpu { c = v }
put_reg rdx v cpu = record cpu { d = v }
put_reg rsi v cpu = record cpu { si = v }

-- A read of the state at an offset, and a write; `none` is an access that no field answers.
unfoldable pub read_state : RegWidth → ℕ → GuestState → Option ℕ
read_state w disp s =
    if ltb disp sp_offset
    then if disp % 8 == 0 then map_some (trunc w) (get_elem? s.gpr (disp / 8)) else none
    else if disp == sp_offset
    then some (trunc w s.sp)
    else elim w [
      | w32 ↦ if disp == nzcv_offset then some (trunc w32 s.nzcv) else none
      | x64 ↦ if disp == pc_offset then some (trunc x64 s.pc) else none
    ]

unfoldable pub write_state : RegWidth → ℕ → ℕ → GuestState → Option GuestState
write_state w32 disp v s =
    if disp == nzcv_offset then some (record s { nzcv = trunc w32 v }) else none
write_state x64 disp v s =
    if ltb disp sp_offset
    then if disp % 8 == 0
      then map_some (λ g. record s { gpr = g }) (set? s.gpr (disp / 8) v)
      else none
    else if disp == sp_offset
    then some (record s { sp = v })
    else if disp == pc_offset
    then some (record s { pc = v })
    else none

-- The guest's address of a host address.
abbrev pub guest_address : ℕ → ℕ
guest_address host = (host + 2 ^ 64 - host_base) % 2 ^ 64

-- A displacement of 32 bits is extended by its sign.
abbrev pub displaced : ℕ → ℕ → ℕ
displaced base disp = (base + (if ltb disp (2 ^ 31) then disp else disp + 2 ^ 64 - 2 ^ 32)) % 2 ^ 64

pub data AluOp : Type 0 where
  add or and sub xor : AluOp

unfoldable pub alu_result : AluOp → RegWidth → ℕ → ℕ → ℕ
alu_result add w a b = trunc w (a + b)
alu_result or w a b = trunc w (bit_or a b)
alu_result and w a b = trunc w (bit_and a b)
alu_result sub w a b = trunc w (a + 2 ^ bits w - b)
alu_result xor w a b = trunc w (bit_xor a b)

abbrev pub flags_of : RegWidth → ℕ → Bool → Bool → Flags
flags_of w r carry overflow = record { sf = negative w r; zf = r == 0; cf = carry; vf = overflow }

-- The carry of a subtraction is its borrow.
unfoldable pub alu_flags : AluOp → RegWidth → ℕ → ℕ → ℕ → Flags
alu_flags add w a b r =
    flags_of w r (leb (2 ^ bits w) (a + b))
      (bool_eq (negative w a) (negative w b) && not (bool_eq (negative w a) (negative w r)))
alu_flags sub w a b r =
    flags_of w r (ltb a b)
      (not (bool_eq (negative w a) (negative w b)) && not (bool_eq (negative w a) (negative w r)))
alu_flags op w a b r = flags_of w r false false
