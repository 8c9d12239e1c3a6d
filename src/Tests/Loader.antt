-- ===== src/Tests/Loader.antt =====
-- The theorem on source/loader/loader_32.c at a program header with a segment of four bytes, which
-- takes eight in memory.
use start.Base.{◌%◌, Mem, store32}

abbrev image : Mem
image =
    store32 (store32 (store32 (store32 (λ a. a % 256) 0x1038 0x100) 0x1040 0x500) 0x1044 4) 0x1048 8
