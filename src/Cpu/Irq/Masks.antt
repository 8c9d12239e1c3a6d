-- ===== src/Cpu/Irq/Masks.antt =====
-- The masks of source/kernel/cpu/irq.c, interrupt by interrupt.
use start.Base.{
  ℕ, ◌+◌, ◌-◌, ◌<◌, ◌≤◌, ◌≡◌, inl, inr, arith, Bool-cases, if◌then◌else◌, ◌==◌, ltb, false, bit_at,
  bit_at-byte_set, bit_at-byte_clear,
}
use start.Cpu.Instr.{outb}
use start.Cpu.Irq.{Irq, irq_pic_start, pic0_imr, pic1_imr, irq_enable, irq_disable}

-- The bit that masks an interrupt of the controllers: 1 keeps it away.
abbrev pub masked : Irq → ℕ → ℕ
masked q irq_num =
    let n = irq_num - irq_pic_start in
    if ltb n 8 then bit_at (q.io.held pic0_imr) n else bit_at (q.io.held pic1_imr) (n - 8)

-- Both mask registers hold bytes.
abbrev pub ByteMasks : Irq → Type 0
ByteMasks q = (q.io.held pic0_imr < 256) × (q.io.held pic1_imr < 256)

abbrev pub IsLine : ℕ → Type 0
IsLine irq_num = (irq_pic_start ≤ irq_num) × (irq_num < irq_pic_start + 16)

module _ (q : Irq) (bytes : ByteMasks q) (i j : ℕ) (hi : IsLine i) (hj : IsLine j) where
  enable_bits : masked (irq_enable q i) j ≡ (if j == i then 0 else masked q j)
  unfolding irq_enable outb
  enable_bits =
      let a = i - irq_pic_start in
      let b = j - irq_pic_start in
      let above : ltb i irq_pic_start ≡ false = ground arith in
      let low = bit_at-byte_clear (q.io.held pic0_imr) a b bytes.0 in
      let high = bit_at-byte_clear (q.io.held pic1_imr) (a - 8) (b - 8) bytes.1 in
      rw above (elim (Bool-cases (ltb a 8)) [
        | inl e ↦ rw e (elim (Bool-cases (ltb b 8)) [
          | inl f ↦ rw f (ground (arith, low))
          | inr f ↦ rw f (ground arith)
        ])
        | inr e ↦ rw e (elim (Bool-cases (ltb b 8)) [
          | inl f ↦ rw f (ground arith)
          | inr f ↦ rw f (ground (arith, high))
        ])
      ])

  disable_bits : masked (irq_disable q i) j ≡ (if j == i then 1 else masked q j)
  unfolding irq_disable outb
  disable_bits =
      let a = i - irq_pic_start in
      let b = j - irq_pic_start in
      let above : ltb i irq_pic_start ≡ false = ground arith in
      let low = bit_at-byte_set (q.io.held pic0_imr) a b bytes.0 in
      let high = bit_at-byte_set (q.io.held pic1_imr) (a - 8) (b - 8) bytes.1 in
      rw above (elim (Bool-cases (ltb a 8)) [
        | inl e ↦ rw e (elim (Bool-cases (ltb b 8)) [
          | inl f ↦ rw f (ground (arith, low))
          | inr f ↦ rw f (ground arith)
        ])
        | inr e ↦ rw e (elim (Bool-cases (ltb b 8)) [
          | inl f ↦ rw f (ground arith)
          | inr f ↦ rw f (ground (arith, high))
        ])
      ])

  -- irq_enable of one of the sixteen lines unmasks it, irq_disable masks it, and neither changes
  -- the mask of another line, where the mask registers hold bytes.
  pub mask_bits :
      (masked (irq_enable q i) j ≡ (if j == i then 0 else masked q j))
      × (masked (irq_disable q i) j ≡ (if j == i then 1 else masked q j))
  mask_bits = (enable_bits, disable_bits)
