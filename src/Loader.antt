-- ===== src/Loader.antt =====
-- source/loader/loader_32.c and source/comm/elf.h: the loader copies the segments of the kernel's ELF
-- file to their addresses. Fields are read from the bytes of the file at their offsets.
pub mod Segments
pub mod Real
pub mod Disk
pub mod Kernel
use start.Base.{
  ℕ, zero, suc, ◌+◌, ◌*◌, Bool, true, false, ◌&&◌, if◌then◌else◌, ◌==◌, sub32, Ptr, Mem, poke,
  load32,
}

-- `uint16_t` in memory.
abbrev pub load16 : Mem → Ptr → ℕ
load16 m p = m p + m (p + 1) * 256

abbrev pub pt_load : ℕ
pt_load = 1

-- Fields of `Elf32_Ehdr`.
abbrev pub e_entry : Mem → Ptr → ℕ
e_entry m hdr = load32 m (hdr + 24)

abbrev pub e_phoff : Mem → Ptr → ℕ
e_phoff m hdr = load32 m (hdr + 28)

abbrev pub e_phnum : Mem → Ptr → ℕ
e_phnum m hdr = load16 m (hdr + 44)

-- Fields of `Elf32_Phdr`, which has 32 bytes.
abbrev pub phdr_size : ℕ
phdr_size = 32

abbrev pub p_type : Mem → Ptr → ℕ
p_type m phdr = load32 m phdr

abbrev pub p_offset : Mem → Ptr → ℕ
p_offset m phdr = load32 m (phdr + 4)

abbrev pub p_paddr : Mem → Ptr → ℕ
p_paddr m phdr = load32 m (phdr + 12)

abbrev pub p_filesz : Mem → Ptr → ℕ
p_filesz m phdr = load32 m (phdr + 16)

abbrev pub p_memsz : Mem → Ptr → ℕ
p_memsz m phdr = load32 m (phdr + 20)

-- The two inner loops of `reload_elf_file`, for `left` bytes.
unfoldable pub copy_bytes : Mem → Ptr → Ptr → ℕ → Mem
copy_bytes m dest src zero = m
copy_bytes m dest src (suc left) = copy_bytes (poke m dest (m src)) (dest + 1) (src + 1) left

unfoldable pub clear_bytes : Mem → Ptr → ℕ → Mem
clear_bytes m dest zero = m
clear_bytes m dest (suc left) = clear_bytes (poke m dest 0) (dest + 1) left

-- The body of the loop over the program headers, for a segment that is to be loaded. The header is
-- read again after the copy, and its sizes are taken to stay.
unfoldable pub load_segment : Mem → Ptr → Ptr → Mem
unfolding copy_bytes clear_bytes
load_segment m file_buffer phdr =
    let m' = copy_bytes m (p_paddr m phdr) (file_buffer + p_offset m phdr) (p_filesz m phdr) in
    clear_bytes m' (p_paddr m' phdr + p_filesz m' phdr) (sub32 (p_memsz m' phdr) (p_filesz m' phdr))

-- The loop, for `left` headers from number `i` on; their number is read once.
unfoldable pub load_segments : Mem → Ptr → ℕ → ℕ → Mem
unfolding load_segment
load_segments m file_buffer i zero = m
load_segments m file_buffer i (suc left) =
    let phdr = file_buffer + e_phoff m file_buffer + i * phdr_size in
    let m' = if p_type m phdr == pt_load then load_segment m file_buffer phdr else m in
    load_segments m' file_buffer (i + 1) left

abbrev pub is_elf : Mem → Ptr → Bool
is_elf m p = m p == 0x7f && m (p + 1) == 0x45 && m (p + 2) == 0x4c && m (p + 3) == 0x46

-- The memory and the entry, or 0 for a file that is not an ELF file.
unfoldable pub reload_elf_file : Mem → Ptr → Mem × ℕ
unfolding load_segments
reload_elf_file m file_buffer =
    let m' = load_segments m file_buffer 0 (e_phnum m file_buffer) in
    if is_elf m file_buffer then (m', e_entry m' file_buffer) else (m, 0)
