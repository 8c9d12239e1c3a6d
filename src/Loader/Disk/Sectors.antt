-- ===== src/Loader/Disk/Sectors.antt =====
-- What read_disk of source/loader/loader_32.c asks for and stores.
use start.Base.{
  ℕ, zero, suc, ◌+◌, ◌-◌, ◌*◌, ◌/◌, ◌%◌, ◌^◌, ◌≤◌, ◌<◌, ◌≡◌, refl, ◌∙◌, arith, Bool-cases, inl, inr,
  if◌then◌else◌, leb, ◌==◌, some, List, [], ◌∷◌, Ptr, Mem,
}
use start.Tools.Klib.Memory.{within}
use start.Cpu.Instr.Polls.{ready_count, poll-some}
use start.Cpu.Instr.{Ports, outb}
use start.Loader.Disk.{store16, read_words, read_sectors, request, read_disk}

-- Byte `k` of a run of words.
abbrev pub byte_of : (ℕ → ℕ) → ℕ → ℕ
byte_of words k = if k % 2 == 0 then words (k / 2) % 256 else words (k / 2) / 256 % 256

read_words-within :
    (m : Mem) (words : ℕ → ℕ) (i : ℕ) (p : Ptr) (n : ℕ) (a : Ptr)
    → read_words m words i p n a
      ≡ (if within p (2 * n) a then byte_of words (2 * i + (a - p)) else m a)
unfolding read_words
read_words-within m words i p zero a = ground arith
read_words-within m words i p (suc n) a =
    read_words-within (store16 m p (words i)) words (i + 1) (p + 2) n a
    ∙ elim (Bool-cases (leb (p + 2) a)) [
      | inl t ↦
          let e : 2 * (i + 1) + (a - (p + 2)) ≡ 2 * i + (a - p) = ground arith in
          rw e (ground arith)
      | inr t ↦
          let e : a < p + 2 → (2 * i + (a - p)) / 2 ≡ i = λ lt. omega arith in ground (arith, e)
    ]

-- One sector, and then the others.
sector_then :
    (m : Mem) (words : ℕ → ℕ) (i : ℕ) (p : Ptr) (left : ℕ) (a : Ptr) (v : ℕ)
    → v ≡ (
        if within (p + 512) (512 * left) a
        then byte_of words (2 * (i + 256) + (a - (p + 512)))
        else read_words m words i p 256 a)
    → v ≡ (if within p (512 * suc left) a then byte_of words (2 * i + (a - p)) else m a)
sector_then m words i p left a v h = h ∙ elim (Bool-cases (leb (p + 512) a)) [
  | inl t ↦
      let e : 2 * (i + 256) + (a - (p + 512)) ≡ 2 * i + (a - p) = ground arith in
      rw e (ground (arith, read_words-within m words i p 256 a))
  | inr t ↦ ground (arith, read_words-within m words i p 256 a)
]

read_sectors-some :
    (left : ℕ) (reads : List ℕ) (m : Mem) (words : ℕ → ℕ) (i : ℕ) (p : Ptr)
    → left ≤ ready_count 0x88 0x8 reads
    → (m' : Mem) × (rest : List ℕ) × (read_sectors left reads m words i p ≡ some (m', rest))
      × ((a : Ptr)
          → m' a ≡ (if within p (512 * left) a then byte_of words (2 * i + (a - p)) else m a))
unfolding read_sectors
read_sectors-some zero reads m words i p h = (m, reads, refl, λ a. ground arith)
read_sectors-some (suc left) reads m words i p h =
    let (rest, ready, fewer) = poll-some 0x88 0x8 reads (omega arith) in
    let m1 = read_words m words i p 256 in
    let (m', rest', went, holds) =
      read_sectors-some left rest m1 words (i + 256) (p + 512) (omega arith) in
    rw (read_sectors, ready) (m', rest', went, λ a. sector_then m words i p left a (m' a) (holds a))

-- The last value written to a port, and the one before it.
abbrev pub nth_write : ℕ → ℕ → List (ℕ × ℕ) → ℕ
nth_write port k [] = 0
nth_write port zero ((p, v) ∷ writes) = if p == port then v else nth_write port zero writes
nth_write port (suc k) ((p, v) ∷ writes) =
    if p == port then nth_write port k writes else nth_write port (suc k) writes

-- The address and the count that the disk has been given: of each register the last two bytes count.
abbrev pub lba_of : Ports → ℕ
lba_of io =
    nth_write 0x1f3 0 io.writes
    + nth_write 0x1f4 0 io.writes * 2 ^ 8
    + nth_write 0x1f5 0 io.writes * 2 ^ 16
    + nth_write 0x1f3 1 io.writes * 2 ^ 24
    + nth_write 0x1f4 1 io.writes * 2 ^ 32
    + nth_write 0x1f5 1 io.writes * 2 ^ 40

abbrev pub count_of : Ports → ℕ
count_of io = nth_write 0x1f2 0 io.writes + nth_write 0x1f2 1 io.writes * 2 ^ 8

request_lem :
    (io : Ports) (sector count : ℕ)
    → sector < 2 ^ 32
    → count < 2 ^ 16
    → (lba_of (request io sector count) ≡ sector) × (count_of (request io sector count) ≡ count)
unfolding request outb
request_lem io sector count h h' = (omega arith, omega arith)

-- The request is for `count` sectors from `sector` on, and their bytes stand at `buf`.
pub record Loaded (m : Mem) (words : ℕ → ℕ) (sector count : ℕ) (buf : Ptr) (io' : Ports) (m' : Mem)
    : Type 0 where
  pub from_sector : lba_of io' ≡ sector
  pub for_count : count_of io' ≡ count
  pub stored :
      (a : Ptr) → m' a ≡ (if within buf (512 * count) a then byte_of words (a - buf) else m a)

-- read_disk asks the disk for the sector and the count that it is given, and stores the bytes of
-- its words in order from the buffer on, 512 for each sector, and nothing else; for an address
-- below 2 ^ 32 and a count below 2 ^ 16, while the disk has data as often as there are sectors.
pub read_disk-Loaded :
    (io : Ports) (reads : List ℕ) (m : Mem) (words : ℕ → ℕ) (sector count : ℕ) (buf : Ptr)
    → sector < 2 ^ 32
    → count < 2 ^ 16
    → count ≤ ready_count 0x88 0x8 reads
    → (io' : Ports) × (m' : Mem) × (rest : List ℕ) × (read_disk io reads m words sector count buf
        ≡ some (io', m', rest))
      × Loaded m words sector count buf io' m'
unfolding read_disk
read_disk-Loaded io reads m words sector count buf h h' ready =
    let (m', rest, went, holds) = read_sectors-some count reads m words 0 buf ready in
    let (lba, number) = request_lem io sector count h h' in
    rw (read_disk, went)
      (
        request io sector count,
        m',
        rest,
        refl,
        record {
          from_sector = lba;
          for_count = number;
          stored = λ a. let e : 2 * 0 + (a - buf) ≡ a - buf = omega arith in holds a ∙ rw e refl;
        },
      )
