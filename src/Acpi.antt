-- ===== src/Acpi.antt =====
-- The search for the power-off registers in the ACPI tables, src/hal/acpi.c. Memory is by physical
-- address: `phystokv` adds the base of the direct map, which is not 0.
pub mod Sleep
mod Tests
use lisp_dos.Base.{
  ℕ, zero, suc, ◌+◌, ◌-◌, ◌*◌, ◌/◌, ◌%◌, ◌^◌, bit_or, Bool, not, ◌&&◌, ◌||◌, Option, none, some,
  List, [], ◌∷◌, ltb, leb, ◌==◌, if◌then◌else◌, Memory, u16, u32, sub64, le32, codes,
}

-- The fields of the packed structures that the code reads.
abbrev pub rsdt_address : Memory → ℕ → ℕ
rsdt_address ram rsdp = le32 ram (rsdp + 16)

abbrev pub table_length : Memory → ℕ → ℕ
table_length ram table = le32 ram (table + 4)

abbrev pub header_size : ℕ
header_size = 36

abbrev pub dsdt_address : Memory → ℕ → ℕ
dsdt_address ram fadt = le32 ram (fadt + 40)

abbrev pub smi_command_port : Memory → ℕ → ℕ
smi_command_port ram fadt = le32 ram (fadt + 48)

abbrev pub acpi_enable : Memory → ℕ → ℕ
acpi_enable ram fadt = ram (fadt + 52)

abbrev pub pm1a_control_block : Memory → ℕ → ℕ
pm1a_control_block ram fadt = le32 ram (fadt + 64)

-- A `char` as an `int`, by its 32 bits.
abbrev pub signed_char : ℕ → ℕ
signed_char c = if ltb c 128 then c else 2 ^ 32 - 256 + c

-- Against the characters of a text, as many as it has.
unfoldable pub strncmp : Memory → (s1 : ℕ) → List ℕ → ℕ
strncmp ram s1 [] = 0
strncmp ram s1 (c ∷ s2) =
    let rest = strncmp ram (s1 + 1) s2 in
    if ram s1 == c then rest else u32 (signed_char (ram s1) + 2 ^ 32 - signed_char c)

-- The rounds of a loop below an `int`.
abbrev pub rounds : ℕ → ℕ
rounds n = if leb (2 ^ 31) n then 0 else n

-- The loop over the entries of the table, with those that are left.
unfoldable pub find_fadt : Memory → (ptrs left i : ℕ) → Option ℕ
unfolding strncmp
find_fadt ram ptrs zero i = none
find_fadt ram ptrs (suc left) i =
    let rest = find_fadt ram ptrs left (i + 1) in
    let h = le32 ram (ptrs + 4 * i) in if strncmp ram h (codes "FACP") == 0 then some h else rest

-- The name at index `i` from `s5_addr` on, and what stands before it.
abbrev pub is_s5 : Memory → (s5_addr i : ℕ) → Bool
is_s5 ram s5_addr i =
    ram (s5_addr + i) == b'_'
    && ram (s5_addr + i + 1) == b'S'
    && ram (s5_addr + i + 2) == b'5'
    && ram (s5_addr + i + 3) == b'_'

abbrev pub is_name_object : Memory → (s5_addr i : ℕ) → Bool
is_name_object ram s5_addr i =
    (ltb 0 i && ram (s5_addr + i - 1) == 0x08)
    || (ltb 1 i && ram (s5_addr + i - 2) == 0x08 && ram (s5_addr + i - 1) == 92)

-- What the code takes for the first element of a package, three bytes behind its start; it is the first
-- element if the length of the package is written in one byte.
abbrev pub first_element : Memory → ℕ → ℕ
first_element ram at = if ram (at + 3) == 0x0A then ram (at + 4) else ram (at + 3)

-- The loop over the bytes of the table, with those that are left. `s5Addr` moves on to a name that
-- no package follows, and the index goes on from there.
unfoldable pub s5_loop : Memory → (left i s5_addr : ℕ) → Option ℕ
s5_loop ram zero i s5_addr = none
s5_loop ram (suc left) i s5_addr =
    let at = s5_addr + i + 4 in
    let hit = is_s5 ram s5_addr i && is_name_object ram s5_addr i in
    let rest = s5_loop ram left (i + 1) (if hit then at else s5_addr) in
    if hit && ram at == 0x12 then some (first_element ram at * 2 ^ 10 % 2 ^ 16) else rest

-- `pm1a_cnt_blk` and `slp_typa`, and the writes to ports so far, each with the port first.
pub record Acpi : Type 0 where
  pub pm1a_cnt_blk : ℕ
  pub slp_typa : ℕ
  pub writes : List (ℕ × ℕ)

-- `slp_typa` before and after the search.
unfoldable pub sleep_type : Memory → (fadt slp_typa : ℕ) → ℕ
unfolding s5_loop
sleep_type ram fadt slp_typa =
    let dsdt = dsdt_address ram fadt in
    let found : ℕ = elim (s5_loop ram (rounds (table_length ram dsdt) - 4) 0 dsdt) [
      | some value ↦ value
      | none ↦ slp_typa
    ] in
    if found == 0 then 5 * 2 ^ 10 else found

unfoldable pub enabled : Memory → ℕ → Acpi → Acpi
enabled ram fadt a =
    if not (smi_command_port ram fadt == 0) && not (acpi_enable ram fadt == 0)
    then record a { writes = (u16 (smi_command_port ram fadt), acpi_enable ram fadt) ∷ a.writes }
    else a

-- `rsdp` is the address that the boot loader answers; without one, or without the table, nothing
-- changes.
unfoldable pub acpi_init : Memory → Option ℕ → Acpi → Acpi
unfolding find_fadt sleep_type enabled
acpi_init ram none a = a
acpi_init ram (some rsdp) a =
    let rsdt = rsdt_address ram rsdp in
    let entries = u32 (sub64 (table_length ram rsdt) header_size / 4) in
    elim (find_fadt ram (rsdt + header_size) (rounds entries) 0) [
      | none ↦ a
      | some fadt ↦ record (enabled ram fadt a) {
        pm1a_cnt_blk = pm1a_control_block ram fadt;
        slp_typa = sleep_type ram fadt a.slp_typa;
      }
    ]

unfoldable pub acpi_poweroff : Acpi → Acpi
acpi_poweroff a =
    if a.pm1a_cnt_blk == 0
    then record a { writes = (0xB004, 0x2000) ∷ (0x604, 0x2000) ∷ a.writes }
    else record a { writes = (u16 a.pm1a_cnt_blk, bit_or a.slp_typa 0x2000) ∷ a.writes }
