-- ===== src/Loader/Segments.antt =====
-- What source/loader/loader_32.c writes for one segment.
use start.Base.{◌+◌, ◌≤◌, ◌⊎◌, Ptr, Mem}
use start.Loader.{copy_bytes, p_paddr, p_offset, p_filesz}

-- Neither the header nor the bytes that are still to be copied are overwritten.
pub record Apart (m : Mem) (file phdr : Ptr) : Type 0 where
  pub header : (phdr + 32 ≤ p_paddr m phdr) ⊎ (p_paddr m phdr + p_filesz m phdr ≤ phdr)
  pub source :
      (p_paddr m phdr ≤ file + p_offset m phdr)
      ⊎ (file + p_offset m phdr + p_filesz m phdr ≤ p_paddr m phdr)

module _ (m : Mem) (file phdr : Ptr) (apart : Apart m file phdr) where
  abbrev copied : Mem
  copied = copy_bytes m (p_paddr m phdr) (file + p_offset m phdr) (p_filesz m phdr)
