-- ===== src/Lisp.antt =====
-- The LISP interpreter, src/tools/lisp.c: its nodes and pool, the numbers, the reader, the
-- environments, the evaluator and the program.
pub mod Machine
pub mod Rules
pub mod Number
pub mod Reader
pub mod Environment
pub mod Evaluator
pub mod Program
mod Tests
