-- ===== src/Runtime/State.antt =====
-- src/runtime/state.rs: the architectural state that translated code works on.
use armx.Base.{
  ℕ, ◌+◌, ◌*◌, List, ◌==◌, ltb, if◌then◌else◌, Option, some, none, get_elem?, set, replicate,
}

pub record GuestState : Type 0 where
  pub gpr : List ℕ
  pub sp : ℕ
  pub nzcv : ℕ
  pub pad : ℕ
  pub pc : ℕ

abbrev pub new : GuestState
new = record { gpr = replicate 31 0; sp = 0; nzcv = 0; pad = 0; pc = 0 }

-- `none` is the panic of `unreachable!()`, or of an index outside `gpr`.
unfoldable pub read_x : GuestState → ℕ → Option ℕ
read_x s r = if ltb r 31 then get_elem? s.gpr r else if r == 31 then some 0 else none

unfoldable pub write_x : GuestState → ℕ → ℕ → GuestState
write_x s r v = if ltb r 31 then record s { gpr = set s.gpr r v } else s

abbrev pub read_sp : GuestState → ℕ
read_sp s = s.sp

abbrev pub write_sp : GuestState → ℕ → GuestState
write_sp s v = record s { sp = v }

-- Offsets in the `repr(C)` layout: 31 words, `sp`, two halves, `pc`.
abbrev pub gpr_base : ℕ
gpr_base = 0

abbrev pub sp_offset : ℕ
sp_offset = gpr_base + 31 * 8

abbrev pub nzcv_offset : ℕ
nzcv_offset = sp_offset + 8

abbrev pub pc_offset : ℕ
pc_offset = nzcv_offset + 4 + 4
