-- ===== src/Tables/Fields.antt =====
-- The processor's reading of the descriptors gives back what was put in.
use lisp_dos.Base.{
  ℕ, zero, suc, ◌+◌, ◌*◌, ◌/◌, ◌%◌, ◌^◌, ◌<◌, bit_and, bit_or, ◌≡◌, refl, sym, ap, ◌∙◌, ◌≢◌, inl,
  inr, true, ◌&&◌, arith, ltb, leb, ◌==◌, if◌then◌else◌, lt→ltb, eqb→eq, Bool-cases, update_self,
  each_below, each_of, each_below_lem, if_holds, subst,
}
use lisp_dos.Tables.{GdtEntry, gdt_set_gate, IdtEntry, Idt, idt_set_descriptor, set_gates, idt_init}

-- How the processor reads the fields.
pub segment_base : GdtEntry → ℕ
segment_base g = g.base_low + g.base_middle * 2 ^ 16 + g.base_high * 2 ^ 24

pub segment_limit : GdtEntry → ℕ
segment_limit g = g.limit_low + g.granularity % 16 * 2 ^ 16

pub gate_offset : IdtEntry → ℕ
gate_offset e = e.isr_low + e.isr_mid * 2 ^ 16 + e.isr_high * 2 ^ 32

low_table : each_below 256 (λ g. each_below 16 λ n. bit_or n (bit_and g 0xF0) % 16 == n) ≡ true
unfolding each_of
low_table = refl

high_table :
    each_below 256 (λ g. each_below 16 λ n. bit_or n (bit_and g 0xF0) / 16 == g / 16) ≡ true
unfolding each_of
high_table = refl

-- A segment descriptor made from a base of 32 bits, a limit of 20 bits and the flags is read with
-- that base, that limit and the upper four bits of the flags.
pub gdt_set_gate_lem :
    (base limit access gran : ℕ)
    → base < 2 ^ 32
    → limit < 2 ^ 20
    → gran < 256
    → (segment_base (gdt_set_gate base limit access gran) ≡ base)
      × (segment_limit (gdt_set_gate base limit access gran) ≡ limit)
      × ((gdt_set_gate base limit access gran).granularity / 16 ≡ gran / 16)
unfolding segment_base segment_limit gdt_set_gate
gdt_set_gate_lem base limit access gran hb hl hg =
    let n = limit / 2 ^ 16 % 16 in
    let low =
      each_below_lem 16 (λ n. bit_or n (bit_and gran 0xF0) % 16 == n) n
        (each_below_lem 256 (λ g. each_below 16 λ n. bit_or n (bit_and g 0xF0) % 16 == n) gran
          low_table hg)
        (omega arith) in
    let high =
      each_below_lem 16 (λ n. bit_or n (bit_and gran 0xF0) / 16 == gran / 16) n
        (each_below_lem 256 (λ g. each_below 16 λ n. bit_or n (bit_and g 0xF0) / 16 == g / 16) gran
          high_table hg)
        (omega arith) in
    let low' = eqb→eq _ _ low in (omega arith, omega (arith, low'), eqb→eq _ _ high)

set_gates-at :
    (idt : Idt) (isr : ℕ → ℕ) (left vector v : ℕ)
    → set_gates idt isr left vector v ≡ (
        if leb vector v && ltb v (vector + left)
        then idt_set_descriptor idt v (isr v) 0x8E v
        else idt v)
unfolding set_gates idt_set_descriptor
set_gates-at idt isr zero vector v = ground arith
set_gates-at idt isr (suc n) vector v =
    ground
      (arith, set_gates-at (idt_set_descriptor idt vector (isr vector) 0x8E) isr n (vector + 1) v)

-- The handler that a vector below 256 is meant to have.
unfoldable pub handler_of : (ℕ → ℕ) → ℕ → ℕ → ℕ
handler_of isrs isr_keyboard v =
    if v == 33 then isr_keyboard else if ltb v 32 then isrs v else isrs 0

gate : ℕ → IdtEntry
gate isr = record {
  isr_low = isr % 2 ^ 16;
  kernel_cs = 0x08;
  ist = 0;
  attributes = 0x8E;
  isr_mid = isr / 2 ^ 16 % 2 ^ 16;
  isr_high = isr / 2 ^ 32 % 2 ^ 32;
  reserved = 0;
}

gate-at : (idt : Idt) (v isr : ℕ) → idt_set_descriptor idt v isr 0x8E v ≡ gate isr
unfolding idt_set_descriptor gate
gate-at idt v isr = update_self idt (gate isr) v

gate_elsewhere : (idt : Idt) (a v isr : ℕ) → a ≢ v → idt_set_descriptor idt a isr 0x8E v ≡ idt v
unfolding idt_set_descriptor
gate_elsewhere idt a v isr h = ground (arith, h)

gate-idt_init :
    (idt : Idt) (isrs : ℕ → ℕ) (isr_keyboard v : ℕ)
    → v < 256
    → idt_init idt isrs isr_keyboard v ≡ gate (handler_of isrs isr_keyboard v)
unfolding idt_init handler_of
gate-idt_init idt isrs isr_keyboard v hv =
    let low : leb 0 v ≡ true = ground arith in
    let fallback = set_gates idt (λ vector. isrs 0) 256 0 in
    let exceptions = set_gates fallback isrs 32 0 in
    elim (Bool-cases (v == 33)) [
      | inl e ↦
          let here = eqb→eq v 33 e in
          rw e (
            subst (λ w. idt_set_descriptor exceptions 33 isr_keyboard 0x8E w ≡ gate isr_keyboard)
              (sym here) (gate-at exceptions 33 isr_keyboard))
      | inr e ↦ rw e (
          gate_elsewhere exceptions 33 v isr_keyboard (λ same. ground (arith, e))
          ∙ if_holds (λ isr. exceptions v ≡ gate isr) (ltb v 32)
              (λ lt. set_gates-at fallback isrs 32 0 v ∙ rw (low, lt) (gate-at fallback v (isrs v)))
              (λ ge.
                set_gates-at fallback isrs 32 0 v
                ∙ rw (low, ge)
                    (set_gates-at idt (λ vector. isrs 0) 256 0 v
                      ∙ rw (low, lt→ltb v 256 hv) (gate-at idt v (isrs 0)))))
    ]

-- After `idt_init`, the gate of every vector below 256 is a kernel interrupt gate whose address,
-- as the processor reads it, is that of its handler: each of the first 32 has its own, 33 has the
-- keyboard's, and the others have the first; for handlers at addresses of 64 bits.
pub idt_init_lem :
    (idt : Idt) (isrs : ℕ → ℕ) (isr_keyboard v : ℕ)
    → v < 256
    → handler_of isrs isr_keyboard v < 2 ^ 64
    → (gate_offset (idt_init idt isrs isr_keyboard v) ≡ handler_of isrs isr_keyboard v)
      × ((idt_init idt isrs isr_keyboard v).kernel_cs ≡ 0x08)
      × ((idt_init idt isrs isr_keyboard v).attributes ≡ 0x8E)
unfolding gate_offset gate
idt_init_lem idt isrs isr_keyboard v hv small =
    let at = gate-idt_init idt isrs isr_keyboard v hv in
    (
      ap gate_offset at ∙ omega arith,
      ap (λ (e : IdtEntry). e.kernel_cs) at,
      ap (λ (e : IdtEntry). e.attributes) at,
    )
