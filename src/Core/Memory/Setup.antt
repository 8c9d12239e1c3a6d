-- ===== src/Core/Memory/Setup.antt =====
-- The start of memory management in source/kernel/core/memory.c: the size of the memory
-- (source/comm/boot_info.h), the page table of the kernel, and memory_init. The addresses that the
-- linker assigns are the fields of Image.
use start.Base.{
  ℕ, ◌+◌, ◌-◌, ◌*◌, ◌/◌, Option, none, some, List, [], ◌∷◌, if◌then◌else◌, ltb, add32, sub32, Ptr,
}
use start.Tools.Klib.{up2, down2, kernel_memset}
use start.Tools.Bitmap.{bitmap_byte_count}
use start.Core.Mmu.{pde_cnt, pte_w}
use start.Core.Memory.{
  Machine, with_mem, mem_ext_start, mem_page_size, addr_alloc_init, memory_create_map,
}

-- `ram_region_cfg` of `boot_info_t`; `ram_region_count` is the length of the list.
pub record RamRegion : Type 0 where
  pub start : ℕ
  pub size : ℕ

-- The loop of `total_mem_size`, from what is counted so far.
unfoldable pub add_regions : ℕ → List RamRegion → ℕ
add_regions mem_size [] = mem_size
add_regions mem_size (region ∷ rest) = add_regions (add32 mem_size region.size) rest

unfoldable pub total_mem_size : List RamRegion → ℕ
unfolding add_regions
total_mem_size regions = add_regions 0 regions

pub record Image : Type 0 where
  pub kernel_base : Ptr
  pub s_text : Ptr
  pub e_text : Ptr
  pub s_data : Ptr
  pub mem_free_start : Ptr
  pub kernel_page_dir : Ptr

-- `memory_map_t`
pub record MemoryMap : Type 0 where
  pub vstart : ℕ
  pub vend : ℕ
  pub pstart : ℕ
  pub perm : ℕ

abbrev pub mem_ebda_start : ℕ
mem_ebda_start = 0x80000

abbrev pub mem_ext_end : ℕ
mem_ext_end = 128 * 1024 * 1024 - 1

abbrev pub console_video_base : ℕ
console_video_base = 0xb8000

abbrev pub console_disp_addr : ℕ
console_disp_addr = 0xb8000

abbrev pub console_disp_end : ℕ
console_disp_end = 0xb8000 + 32 * 1024

abbrev pub kernel_map : Image → List MemoryMap
kernel_map image =
    record { vstart = image.kernel_base; vend = image.s_text; pstart = 0; perm = pte_w }
    ∷ record { vstart = image.s_text; vend = image.e_text; pstart = image.s_text; perm = 0 }
    ∷ record {
      vstart = image.s_data;
      vend = mem_ebda_start - 1;
      pstart = image.s_data;
      perm = pte_w;
    }
    ∷ record {
      vstart = console_disp_addr;
      vend = console_disp_end - 1;
      pstart = console_video_base;
      perm = pte_w;
    }
    ∷ record { vstart = mem_ext_start; vend = mem_ext_end; pstart = mem_ext_start; perm = pte_w }
    ∷ []

-- The body of the loop of `create_kernel_table`; the returned code is not looked at.
unfoldable pub map_region : Ptr → Machine → MemoryMap → Option Machine
map_region kernel_page_dir s map =
    let vstart = down2 map.vstart mem_page_size in
    let vend = up2 map.vend mem_page_size in
    let paddr = down2 map.pstart mem_page_size in
    let page_count = sub32 vend vstart / mem_page_size in
    elim (memory_create_map s kernel_page_dir vstart paddr page_count map.perm) [
      | none ↦ none
      | some (s', err) ↦ some s'
    ]

unfoldable pub map_regions : Ptr → Machine → List MemoryMap → Option Machine
unfolding map_region
map_regions kernel_page_dir s [] = some s
map_regions kernel_page_dir s (map ∷ rest) = elim (map_region kernel_page_dir s map) [
  | none ↦ none
  | some s' ↦ map_regions kernel_page_dir s' rest
]

unfoldable pub create_kernel_table : Image → Machine → Option Machine
unfolding map_regions
create_kernel_table image s =
    let cleared = with_mem s (kernel_memset s.mem image.kernel_page_dir 0 (pde_cnt * 4)) in
    map_regions image.kernel_page_dir cleared (kernel_map image)

-- `mmu_set_page_dir`
abbrev pub mmu_set_page_dir : Machine → ℕ → Machine
mmu_set_page_dir s paddr = record s { page_dir_register = paddr }

unfoldable pub memory_init : Image → List RamRegion → Machine → Option Machine
unfolding total_mem_size create_kernel_table
memory_init image regions s =
    let mem_up1mb_free = down2 (sub32 (total_mem_size regions) mem_ext_start) mem_page_size in
    let (m, alloc) =
      addr_alloc_init s.mem image.mem_free_start mem_ext_start mem_up1mb_free mem_page_size in
    let mem_free = image.mem_free_start + bitmap_byte_count (alloc.size / mem_page_size) in
    if ltb mem_free mem_ebda_start
    then elim (create_kernel_table image (record s { mem = m; paddr_alloc = alloc })) [
      | none ↦ none
      | some s' ↦ some (mmu_set_page_dir s' image.kernel_page_dir)
    ]
    else none
