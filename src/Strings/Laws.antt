-- ===== src/Strings/Laws.antt =====
-- What the functions compute, by the bytes and the strings in memory.
use lisp_dos.Base.{
  ℕ, zero, suc, ◌+◌, ◌-◌, ◌≤◌, ◌<◌, ◌≡◌, refl, sym, ap, ◌∙◌, ◌≢◌, ◌⊎◌, inl, inr, false, ◌&&◌, some,
  List, [], ◌∷◌, arith, ltb, leb, ◌==◌, if◌then◌else◌, eqb→eq, eq→eqb, ne→eqb, Bool-cases, Memory,
  update, u8, length, nth,
}
use mathlib.Core.Logic.{◌↔◌}
use lisp_dos.Strings.{memset, memcpy, memcmp, strlen_loop, strcmp, difference}

-- The string `xs`, of bytes other than 0, and the 0 that ends it are at `s`.
unfoldable pub IsString : Memory → ℕ → List ℕ → Type 0
IsString m s [] = m s ≡ 0
IsString m s (c ∷ xs) = (m s ≡ c) × (c ≢ 0) × (c < 256) × IsString m (s + 1) xs

pub memset-at :
    (m : Memory) (s c n i : ℕ) → memset m s c n i ≡ (if leb s i && ltb i (s + n) then u8 c else m i)
unfolding memset
memset-at m s c zero i = ground arith
memset-at m s c (suc n) i = ground (arith, memset-at (update m s (u8 c)) (s + 1) c n i)

-- Between ranges that do not overlap, or downwards in memory, `memcpy` copies the source as it was
-- before the call, and changes nothing else.
pub memcpy_lem :
    (m : Memory) (dest src n : ℕ)
    → (dest ≤ src) ⊎ (src + n ≤ dest)
    → (i : ℕ)
    → memcpy m dest src n i ≡ (if leb dest i && ltb i (dest + n) then m (src + (i - dest)) else m i)
unfolding memcpy
memcpy_lem m dest src zero apart i = ground arith
memcpy_lem m dest src (suc n) apart i =
    let m1 = update m dest (m src) in
    let later = memcpy_lem m1 (dest + 1) (src + 1) n (omega arith) i in ground (arith, later)

-- `memcmp` on bytes is 0 exactly if the two ranges hold the same bytes in the same order.
pub memcmp_iff :
    (m : Memory) (s1 s2 n : ℕ)
    → ((i : ℕ) → m i < 256)
    → (memcmp m s1 s2 n ≡ 0) ↔ ((i : ℕ) → i < n → m (s1 + i) ≡ m (s2 + i))
unfolding memcmp
memcmp_iff m s1 s2 zero bytes = ((λ e i h. absurd (omega arith)), λ same. refl)
memcmp_iff m s1 s2 (suc n) bytes =
    let (only, back) = memcmp_iff m (s1 + 1) (s2 + 1) n bytes in
    elim (Bool-cases (m s1 == m s2)) [
      | inr e ↦ rw e (
        (λ z. absurd (ground (arith, bytes s1, bytes s2))),
        λ same. absurd (ground (arith, same 0)),
      )
      | inl e ↦ rw e (
        (λ z i h. elim (Bool-cases (i == 0)) [
          | inl first ↦ ground arith
          | inr later ↦ ground (arith, only z (i - 1))
        ]),
        λ same. back λ i h. ground (arith, same (i + 1)),
      )
    ]

-- `strlen` answers the length of the string, given more fuel than it has characters.
strlen_loop_lem :
    (m : Memory) (fuel s len : ℕ) (xs : List ℕ)
    → IsString m s xs
    → length xs < fuel
    → strlen_loop m fuel s len ≡ some (len + length xs)
unfolding strlen_loop IsString
strlen_loop_lem m zero s len xs str enough = absurd (omega arith)
strlen_loop_lem m (suc fuel) s len [] str enough = rw (eq→eqb (m s) 0 str) (ap some (omega arith))
strlen_loop_lem m (suc fuel) s len (c ∷ xs) (first, nz, small, rest) enough =
    let later = strlen_loop_lem m fuel (s + 1) (len + 1) xs rest (omega arith) in
    rw (ne→eqb (m s) 0 (λ z. nz (sym first ∙ z))) (later ∙ ap some (omega arith))

-- `strcmp` of two strings ends, given more fuel than the first has characters, and is 0 exactly if
-- they are the same string.
pub strcmp_lem :
    (m : Memory) (fuel s1 s2 : ℕ) (a b : List ℕ)
    → IsString m s1 a
    → IsString m s2 b
    → length a < fuel
    → (r : ℕ) × (strcmp m fuel s1 s2 ≡ some r) × ((r ≡ 0) ↔ (a ≡ b))
unfolding strcmp IsString
strcmp_lem m zero s1 s2 a b sa sb enough = absurd (omega arith)
strcmp_lem m (suc fuel) s1 s2 [] [] sa sb enough = (
  difference (m s1) (m s2),
  rw (eq→eqb (m s1) 0 sa) refl,
  ((λ z. refl), λ same. ground (arith, sa, sb)),
)
strcmp_lem m (suc fuel) s1 s2 [] (c ∷ b) sa (first, nz, small, rest) enough = (
  difference (m s1) (m s2),
  rw (eq→eqb (m s1) 0 sa) refl,
  ((λ z. absurd (ground (arith, sa, first, nz))), λ same. absurd (omega (arith, ap length same))),
)
strcmp_lem m (suc fuel) s1 s2 (c ∷ a) [] (first, nz, small, rest) sb enough =
    let other : (m s1 == m s2) ≡ false = ne→eqb (m s1) (m s2) (λ e. nz (sym first ∙ e ∙ sb)) in
    (
      difference (m s1) (m s2),
      rw (ne→eqb (m s1) 0 (λ z. nz (sym first ∙ z)), other) refl,
      (
        (λ z. absurd (ground (arith, sb, first, nz))),
        λ same. absurd (omega (arith, ap length same)),
      ),
    )
strcmp_lem m (suc fuel) s1 s2 (c ∷ a) (e ∷ b) (first, nz, small, rest)
      (first_b, nz_b, small_b, rest_b) enough =
    let more = ne→eqb (m s1) 0 (λ z. nz (sym first ∙ z)) in
    elim (Bool-cases (m s1 == m s2)) [
      | inl same ↦
          let (r, answers, (only, back)) =
            strcmp_lem m fuel (s1 + 1) (s2 + 1) a b rest rest_b (omega arith) in
          let heads : c ≡ e = sym first ∙ eqb→eq (m s1) (m s2) same ∙ first_b in
          (
            r,
            rw (more, same) answers,
            ((λ z. ap (λ x. x ∷ a) heads ∙ ap (λ x. e ∷ x) (only z)), λ eq. back (ap tail eq)),
          )
      | inr other ↦ (
        difference (m s1) (m s2),
        rw (more, other) refl,
        (
          (λ z. absurd (ground (arith, first, first_b))),
          λ eq. absurd (ground (arith, first, first_b, ap (λ x. nth x 0) eq)),
        ),
      )
    ]
  where
    tail : List ℕ → List ℕ
    tail [] = []
    tail (c ∷ xs) = xs
