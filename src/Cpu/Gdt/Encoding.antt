-- ===== src/Cpu/Gdt/Encoding.antt =====
-- The fields of a segment descriptor of source/kernel/cpu/cpu.c, put back together as the processor
-- does it.
use Prim.Native.Nat.{bit_and, bit_or}
use start.Base.{
  ℕ, ◌+◌, ◌*◌, ◌/◌, ◌%◌, ◌^◌, ◌<◌, ◌≤◌, ◌≡◌, refl, arith, ltb, true, false, bit_or_sum, bit_and_8,
  bit_and_16, bit_and_4,
}
use start.Cpu.Gdt.{SegmentDesc, segment_desc, gate_desc, as_segment}

abbrev pub base_of : SegmentDesc → ℕ
base_of d = d.base15_0 + d.base23_16 * 2 ^ 16 + d.base31_24 * 2 ^ 24

abbrev pub limit_of : SegmentDesc → ℕ
limit_of d = d.limit15_0 + d.attr / 2 ^ 8 % 2 ^ 4 * 2 ^ 16

-- The attribute bits without the four of the limit.
abbrev pub flags_of : SegmentDesc → ℕ
flags_of d = d.attr % 2 ^ 8 + d.attr / 2 ^ 12 * 2 ^ 12

-- Attributes that leave the bits of the limit free.
abbrev pub PlainAttr : ℕ → Type 0
PlainAttr attr = (attr < 2 ^ 16) × (attr / 2 ^ 8 % 2 ^ 4 ≡ 0)

or_limit :
    (attr : ℕ) → PlainAttr attr → (l : ℕ) → l < 2 ^ 4 → bit_or attr (l * 2 ^ 8) ≡ attr + l * 2 ^ 8
or_limit attr plain l h = bit_or_sum 12 attr (l * 2 ^ 8) (
  omega (arith, plain),
  (
    omega (arith, plain),
    (
      omega (arith, plain),
      (
        omega (arith, plain),
        (
          omega (arith, plain),
          (
            omega (arith, plain),
            (
              omega (arith, plain),
              (
                omega (arith, plain),
                (
                  omega (arith, plain),
                  (
                    omega (arith, plain),
                    (omega (arith, plain), (omega (arith, plain), omega (arith, plain))),
                  ),
                ),
              ),
            ),
          ),
        ),
      ),
    ),
  ),
)

module _ (base limit attr : ℕ) (base32 : base < 2 ^ 32) (plain : PlainAttr attr) where
  -- A descriptor for a limit below 2 ^ 20 holds its base below 2 ^ 32, its limit and its
  -- attributes, if these leave the four bits of the limit free.
  pub segment_desc_bytes :
      limit < 2 ^ 20
      → let d = segment_desc base limit attr in
        (base_of d ≡ base) × (limit_of d ≡ limit) × (flags_of d ≡ attr)
  unfolding segment_desc
  segment_desc_bytes h =
      let small : ltb 0xfffff limit ≡ false = ground arith in
      let high = bit_and_4 (limit / 2 ^ 16) in
      let sum = or_limit attr plain (bit_and (limit / 2 ^ 16) 0xf) (omega (arith, high)) in
      rw (small, sum)
        (
          omega (arith, bit_and_16 base, bit_and_8 (base / 2 ^ 16), bit_and_8 (base / 2 ^ 24)),
          omega (arith, bit_and_16 limit, high, plain),
          omega (arith, high, plain),
        )

  -- A larger one counts its limit in pages: the granularity bit is set.
  pub segment_desc_pages :
      2 ^ 20 ≤ limit
      → limit < 2 ^ 32
      → attr < 2 ^ 15
      → let d = segment_desc base limit attr in
        (base_of d ≡ base) × (limit_of d ≡ limit / 2 ^ 12) × (flags_of d ≡ attr + 2 ^ 15)
  unfolding segment_desc
  segment_desc_pages h1 h2 h3 =
      let large : ltb 0xfffff limit ≡ true = ground arith in
      let pages = limit / 0x1000 in
      let high = bit_and_4 (pages / 2 ^ 16) in
      let grain = bit_or_sum 16 attr 0x8000 (
        omega (arith, h3),
        (
          omega (arith, h3),
          (
            omega (arith, h3),
            (
              omega (arith, h3),
              (
                omega (arith, h3),
                (
                  omega (arith, h3),
                  (
                    omega (arith, h3),
                    (
                      omega (arith, h3),
                      (
                        omega (arith, h3),
                        (
                          omega (arith, h3),
                          (
                            omega (arith, h3),
                            (
                              omega (arith, h3),
                              (
                                omega (arith, h3),
                                (
                                  omega (arith, h3),
                                  (omega (arith, h3), (omega (arith, h3), omega (arith, h3))),
                                ),
                              ),
                            ),
                          ),
                        ),
                      ),
                    ),
                  ),
                ),
              ),
            ),
          ),
        ),
      ) in
      let plain' : PlainAttr (attr + 0x8000) = (omega (arith, h3), omega (arith, plain, h3)) in
      let sum =
        or_limit (attr + 0x8000) plain' (bit_and (pages / 2 ^ 16) 0xf) (omega (arith, high)) in
      rw (large, grain)
        (rw sum (
          omega (arith, bit_and_16 base, bit_and_8 (base / 2 ^ 16), bit_and_8 (base / 2 ^ 24)),
          omega (arith, bit_and_16 pages, high, plain, h3),
          omega (arith, high, plain, h3),
        ))

-- A gate in the table holds the offset of its handler, its selector and its attributes.
pub gate_desc-as_segment :
    (selector offset attr : ℕ)
    → offset < 2 ^ 32
    → attr < 2 ^ 16
    → let d = as_segment (gate_desc selector offset attr) in
      (d.limit15_0 + (d.attr / 2 ^ 8 % 2 ^ 8 + d.base31_24 * 2 ^ 8) * 2 ^ 16 ≡ offset)
      × (d.base15_0 ≡ selector)
      × (d.base23_16 + d.attr % 2 ^ 8 * 2 ^ 8 ≡ attr)
unfolding as_segment gate_desc
gate_desc-as_segment selector offset attr h1 h2 =
    rw (bit_and_16 offset, bit_and_16 (offset / 2 ^ 16)) (omega arith, refl, omega arith)
