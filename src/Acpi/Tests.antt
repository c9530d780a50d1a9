-- ===== src/Acpi/Tests.antt =====
-- The search on a small table.
use lisp_dos.Base.{◌-◌, ◌*◌, ◌%◌, ◌^◌, ◌≡◌, refl, inl, arith, ◌==◌, if◌then◌else◌, Memory, codes}
use lisp_dos.Acpi.{dsdt_address, sleep_type, strncmp}
use lisp_dos.Acpi.Sleep.{Package, sleep_type_lem}

-- The fixed table at 0 points to a table at 512 of 60 bytes, with a package at its byte 40.
abbrev tables : Memory
tables i =
    if i == 41
    then 2
    else if i == 516
    then 60
    else if i == 551
    then 8
    else if i == 552
    then b'_'
    else if i == 553
    then b'S'
    else if i == 554
    then b'5'
    else if i == 555
    then b'_'
    else if i == 556
    then 0x12
    else if i == 559
    then 0x0A
    else if i == 560
    then 7
    else 0

tables-Package : Package tables (dsdt_address tables 0) 40 7
tables-Package = record {
  named = (refl, refl, refl, refl, inl (omega arith, refl));
  follows = refl;
  short = omega arith;
  element = inl (refl, refl);
  before = λ i lt (first, second, third, fourth, behind). ground arith;
}

sleep_type_lem_example :
    let value = 7 * 2 ^ 10 % 2 ^ 16 in
    sleep_type tables 0 0 ≡ (if value == 0 then 5 * 2 ^ 10 else value)
sleep_type_lem_example = sleep_type_lem tables 0 0 40 7 tables-Package (omega arith) (omega arith)

sleeps : sleep_type tables 0 0 ≡ 7 * 1024
unfolding sleep_type
sleeps = refl

differs : strncmp tables 552 (codes "_S6_") ≡ 2 ^ 32 - 1
unfolding strncmp
differs = refl
