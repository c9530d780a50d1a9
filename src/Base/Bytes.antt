-- ===== src/Base/Bytes.antt =====
-- Little-endian fields of packed structures.
use Prim.Native.Nat.{ℕ, ◌+◌, ◌*◌, ◌/◌, ◌%◌, ◌^◌, ◌<◌}
use mathlib.Core.Path.{◌≡◌}
use native.Mathlib.Omega.{arith}
use lisp_dos.Base.Arrays.{Memory, update}

abbrev pub le16 : Memory → ℕ → ℕ
le16 m at = m at + 256 * m (at + 1)

abbrev pub le32 : Memory → ℕ → ℕ
le32 m at = le16 m at + 65536 * le16 m (at + 2)

abbrev pub put16 : Memory → ℕ → ℕ → Memory
put16 m at v = update (update m at (v % 256)) (at + 1) (v / 256 % 256)

abbrev pub put32 : Memory → ℕ → ℕ → Memory
put32 m at v = put16 (put16 m at (v % 65536)) (at + 2) (v / 65536 % 65536)

pub le16-put16 : (m : Memory) (at v : ℕ) → v < 65536 → le16 (put16 m at v) at ≡ v
le16-put16 m at v h = ground arith

pub le32-put32 : (m : Memory) (at v : ℕ) → v < 2 ^ 32 → le32 (put32 m at v) at ≡ v
le32-put32 m at v h = ground arith
