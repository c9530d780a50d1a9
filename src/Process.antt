-- ===== src/Process.antt =====
-- The loader of programs, src/kernel/process.c with src/kernel/elf.h: the file's header, the
-- segments, and the whole of `process_exec`.
pub mod Elf
pub mod Segments
pub mod Exec
pub mod Pages
pub mod Stack
pub mod Rejects
mod Tests
