-- ===== src/Keyboard/Queue.antt =====
-- The ring as the queue of the characters that wait in it.
use lisp_dos.Base.{
  ℕ, zero, suc, ◌+◌, ◌-◌, ◌%◌, ◌<◌, ◌≡◌, refl, ap, ◌≢◌, inl, inr, false, Option, none, some, List,
  [], ◌∷◌, ◌++◌, arith, ◌==◌, if◌then◌else◌, eqb→eq, eq→eqb, ne→eqb, Bool-cases, Memory, update,
  update_ne, append_nil,
}
use lisp_dos.Keyboard.{Keyboard, put_char, keyboard_getchar}

pub record IsValid (k : Keyboard) : Type 0 where
  pub head_in : k.head < 256
  pub tail_in : k.tail < 256

-- The `n` characters from index `h` on, going round at 256.
window : Memory → ℕ → ℕ → List ℕ
window buffer h zero = []
window buffer h (suc n) = buffer h ∷ window buffer ((h + 1) % 256) n

abbrev pub waiting : Keyboard → ℕ
waiting k = (k.head + 256 - k.tail) % 256

-- The characters that wait, oldest first.
unfoldable pub contents : Keyboard → List ℕ
unfolding window
contents k = window k.buffer k.tail (waiting k)

-- Writing at the end of a window extends it.
window-update :
    (buffer : Memory) (c n h i : ℕ)
    → h < 256
    → n < 256
    → i ≡ (h + n) % 256
    → window (update buffer i c) h (suc n) ≡ window buffer h n ++ (c ∷ [])
unfolding window
window-update buffer c zero h i hh hn e = ground arith
window-update buffer c (suc n) h i hh hn e =
    let apart : i ≢ h = omega arith in
    ground (
      arith,
      update_ne buffer c i h apart,
      window-update buffer c n ((h + 1) % 256) i (omega arith) (omega arith) (omega arith),
    )

window-suc :
    (buffer : Memory) (h n : ℕ)
    → 0 < n
    → window buffer h n ≡ buffer h ∷ window buffer ((h + 1) % 256) (n - 1)
unfolding window
window-suc buffer h zero pos = absurd (omega arith)
window-suc buffer h (suc n) pos = ap (λ k. window buffer h (suc k)) (omega arith)

pub waiting-put_char :
    (head tail : ℕ)
    → head < 256
    → tail < 256
    → (head + 256 - tail) % 256 < 255
    → ((head + 1) % 256 + 256 - tail) % 256 ≡ suc ((head + 256 - tail) % 256)
waiting-put_char head tail h t room = omega arith

end_of_window :
    (head tail : ℕ) → head < 256 → tail < 256 → head ≡ (tail + (head + 256 - tail) % 256) % 256
end_of_window head tail h t = omega arith

-- What a character adds to the queue: nothing for the 0 of a key without one.
unfoldable pub typed : ℕ → List ℕ
typed c = if c == 0 then [] else c ∷ []

pub put_char-contents :
    (k : Keyboard) (c : ℕ)
    → IsValid k
    → waiting k < 255
    → contents (put_char k c) ≡ contents k ++ typed c
unfolding contents put_char typed
put_char-contents k c v room = elim (Bool-cases (c == 0)) [
  | inl e ↦ rw (e, append_nil (window k.buffer k.tail (waiting k)))
  | inr e ↦
      let more = waiting-put_char k.head k.tail v.head_in v.tail_in room in
      rw (
        e,
        more,
        window-update k.buffer c (waiting k) k.tail k.head v.tail_in (omega arith)
            (end_of_window k.head k.tail v.head_in v.tail_in),
      )
]

pub put_char-IsValid : (k : Keyboard) (c : ℕ) → IsValid k → IsValid (put_char k c)
unfolding put_char
put_char-IsValid k c v = elim (Bool-cases (c == 0)) [
  | inl e ↦ rw e v
  | inr e ↦ rw e (record { head_in = omega arith; tail_in = v.tail_in })
]

pub Taken : Keyboard → Option (ℕ × Keyboard) → Type 0
Taken k none = contents k ≡ []
Taken k (some (c, after)) = (contents k ≡ c ∷ contents after) × IsValid after

waiting-zero :
    (head tail : ℕ) → head < 256 → tail < 256 → head ≡ tail → (head + 256 - tail) % 256 ≡ 0
waiting-zero head tail h t e = omega arith

apart : (a b : ℕ) → (a == b) ≡ false → a ≢ b
apart a b e same = ground (arith, eq→eqb a b same)

waiting-suc :
    (head tail : ℕ)
    → head < 256
    → tail < 256
    → head ≢ tail
    → (head + 256 - tail) % 256 ≡ suc ((head + 256 - (tail + 1) % 256) % 256)
waiting-suc head tail h t e = omega arith

-- In a valid ring, `keyboard_getchar` waits exactly where no character waits, and otherwise
-- returns the oldest waiting character and leaves the others in order.
pub getchar_lem : (k : Keyboard) → IsValid k → Taken k (keyboard_getchar k)
unfolding Taken contents window keyboard_getchar
getchar_lem k v = elim (Bool-cases (k.head == k.tail)) [
  | inl e ↦ rw (e, waiting-zero k.head k.tail v.head_in v.tail_in (eqb→eq _ _ e)) refl
  | inr e ↦
      rw (e, waiting-suc k.head k.tail v.head_in v.tail_in (apart k.head k.tail e))
        (refl, record { head_in = v.head_in; tail_in = omega arith })
]

-- In a valid ring with 255 characters waiting, one more makes the ring look empty: all 256 are lost.
pub put_char-overflow :
    (k : Keyboard) (c : ℕ) → IsValid k → waiting k ≡ 255 → c ≢ 0 → contents (put_char k c) ≡ []
unfolding contents put_char window
put_char-overflow k c v full some_key =
    let wrapped : ((k.head + 1) % 256 + 256 - k.tail) % 256 ≡ 0 =
      wrap k.head k.tail v.head_in v.tail_in full in
    rw (ne→eqb c 0 some_key, wrapped)
  where
    wrap :
        (head tail : ℕ)
        → head < 256
        → tail < 256
        → (head + 256 - tail) % 256 ≡ 255
        → ((head + 1) % 256 + 256 - tail) % 256 ≡ 0
    wrap head tail h t e = omega arith
