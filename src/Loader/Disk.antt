-- ===== src/Loader/Disk.antt =====
-- read_disk of source/loader/loader_32.c: sectors of 512 bytes from an ATA disk. The statuses that port
-- 0x1F7 gives, one for each read, are a list; `words` are those that port 0x1F0 gives, in order.
pub mod Sectors
use start.Base.{ℕ, zero, suc, ◌+◌, ◌*◌, ◌/◌, ◌%◌, ◌^◌, Option, none, some, List, Ptr, Mem, poke}
use start.Cpu.Instr.{Ports, outb, poll}

abbrev pub sector_size : ℕ
sector_size = 512

-- A `uint16_t` is stored, the lower byte first.
abbrev pub store16 : Mem → Ptr → ℕ → Mem
store16 m p v = poke (poke m p (v % 256)) (p + 1) (v / 256 % 256)

-- The inner loop, for `left` words, the first of them number `i`.
unfoldable pub read_words : Mem → (ℕ → ℕ) → ℕ → Ptr → ℕ → Mem
read_words m words i data_buf zero = m
read_words m words i data_buf (suc left) =
    read_words (store16 m data_buf (words i)) words (i + 1) (data_buf + 2) left

-- The loop over the sectors.
unfoldable pub read_sectors : ℕ → List ℕ → Mem → (ℕ → ℕ) → ℕ → Ptr → Option (Mem × List ℕ)
unfolding read_words
read_sectors zero reads m words i data_buf = some (m, reads)
read_sectors (suc left) reads m words i data_buf = elim (poll 0x88 0x8 reads) [
  | none ↦ none
  | some rest ↦
      read_sectors left rest (read_words m words i data_buf (sector_size / 2)) words
        (i + sector_size / 2) (data_buf + sector_size)
]

-- The registers of the disk: the upper bytes of the count and the address, the lower ones, the command.
unfoldable pub request : Ports → ℕ → ℕ → Ports
unfolding outb
request io0 sector sector_count =
    let io1 = outb io0 0x1f6 0xe0 in
    let io2 = outb io1 0x1f2 (sector_count / 2 ^ 8 % 256) in
    let io3 = outb io2 0x1f3 (sector / 2 ^ 24 % 256) in
    let io4 = outb io3 0x1f4 0 in
    let io5 = outb io4 0x1f5 0 in
    let io6 = outb io5 0x1f2 (sector_count % 256) in
    let io7 = outb io6 0x1f3 (sector % 256) in
    let io8 = outb io7 0x1f4 (sector / 2 ^ 8 % 256) in
    let io9 = outb io8 0x1f5 (sector / 2 ^ 16 % 256) in outb io9 0x1f7 0x24

unfoldable pub read_disk :
    Ports → List ℕ → Mem → (ℕ → ℕ) → ℕ → ℕ → Ptr → Option (Ports × Mem × List ℕ)
unfolding request read_sectors
read_disk io reads m words sector sector_count buf =
    elim (read_sectors sector_count reads m words 0 buf) [
      | none ↦ none
      | some (m', rest) ↦ some (request io sector sector_count, m', rest)
    ]
