-- ===== src/Cpu/Instr.antt =====
-- source/comm/cpu_instr.h: the instructions that the loader and the kernel use, as what they do to the
-- ports and to the registers of the processor. A port holds the byte that was written last, which is
-- what reading a mask register gives; `writes` records the writes, the last one first. A status
-- register is a list of the bytes that its next reads give.
pub mod Polls
use Prim.Native.Nat.{bit_and}
use start.Base.{
  ℕ, ◌+◌, ◌-◌, ◌*◌, ◌/◌, ◌%◌, ◌^◌, Bool, Option, none, some, List, [], ◌∷◌, if◌then◌else◌, ◌==◌,
  Ptr,
}

pub record Ports : Type 0 where
  pub held : ℕ → ℕ
  pub writes : List (ℕ × ℕ)

unfoldable pub outb : Ports → ℕ → ℕ → Ports
outb io port value = record {
  held = λ p. if p == port then value else io.held p;
  writes = (port, value) ∷ io.writes;
}

abbrev pub inb : Ports → ℕ → ℕ
inb io port = io.held port

-- `while ((inb(port) & mask) != value) {}`: the reads that are left, where one of them ends the loop.
unfoldable pub poll : ℕ → ℕ → List ℕ → Option (List ℕ)
poll mask value [] = none
poll mask value (status ∷ reads) =
    let rest = poll mask value reads in if bit_and status mask == value then some reads else rest

-- The operand of `lgdt` and `lidt`.
pub record TableReg : Type 0 where
  pub limit : ℕ
  pub start15_0 : ℕ
  pub start31_16 : ℕ

unfoldable pub lgdt : Ptr → ℕ → TableReg
lgdt start_of size = record {
  limit = (size + 2 ^ 16 - 1) % 2 ^ 16;
  start15_0 = start_of % 2 ^ 16;
  start31_16 = start_of / 2 ^ 16 % 2 ^ 16;
}

unfoldable pub lidt : Ptr → ℕ → TableReg
lidt start_of size = record {
  limit = (size + 2 ^ 16 - 1) % 2 ^ 16;
  start15_0 = start_of % 2 ^ 16;
  start31_16 = start_of / 2 ^ 16 % 2 ^ 16;
}

-- The address that the processor reads from it.
abbrev pub table_start : TableReg → Ptr
table_start r = r.start15_0 + r.start31_16 * 2 ^ 16
