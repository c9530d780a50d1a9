-- ===== src/Lisp/Environment/Laws.antt =====
-- What `env_set` stores is what `env_get` finds.
use lisp_dos.Base.{
  ℕ, ◌≤◌, ◌<◌, ◌≡◌, refl, sym, ap, ◌∙◌, ◌≢◌, ◌⊎◌, inl, inr, Bool, true, false, none, some, List, [],
  ◌∷◌, ◌++◌, arith, ltb, ◌==◌, if◌then◌else◌, ltb→lt, eqb→eq, Bool-cases, Option-cases, length,
  length-append, if_holds, subst,
}
use lisp_dos.Lisp.Machine.{Node, Env}
use lisp_dos.Lisp.Environment.{kstrcmp, same_text, env_update, stored, env_find}

-- Characters of C strings: bytes other than 0.
unfoldable pub IsText : List ℕ → Type 0
IsText [] = Unit
IsText (c ∷ s) = (0 < c) × (c < 256) × IsText s

abbrev pub IsTexts : Env → Type 0
IsTexts [] = Unit
IsTexts ((k, v) ∷ env) = IsText k × IsTexts env

pub same_text-eq : (s t : List ℕ) → IsText s → IsText t → same_text s t ≡ true → s ≡ t
unfolding same_text kstrcmp IsText
same_text-eq [] [] is_s is_t h = refl
same_text-eq [] (d ∷ t) is_s is_t h = absurd (ground arith)
same_text-eq (c ∷ s) [] is_s is_t h = absurd (ground arith)
same_text-eq (c ∷ s) (d ∷ t) is_s is_t h = elim (Bool-cases (c == d)) [
  | inl same ↦
      let later : same_text s t ≡ true = rw same at h in
      ap (λ r. r ∷ s) (eqb→eq c d same) ∙ ap (λ r. d ∷ r) (same_text-eq s t is_s.2 is_t.2 later)
  | inr other ↦ absurd (ground arith)
]

pub same_text_self : (s : List ℕ) → same_text s s ≡ true
unfolding same_text kstrcmp
same_text_self [] = refl
same_text_self (c ∷ s) = ground (arith, same_text_self s)

other_text : (k j : List ℕ) → IsText k → IsText j → j ≢ k → same_text k j ≡ false
other_text k j is_k is_j other = elim (Bool-cases (same_text k j)) [
  | inl same ↦ absurd (other (sym (same_text-eq k j is_k is_j same)))
  | inr e ↦ e
]

-- Texts that are the same are the same as any third.
same_text_trans :
    (s t r : List ℕ) → IsText s → IsText t → same_text s t ≡ true → same_text s r ≡ same_text t r
same_text_trans s t r is_s is_t h = ap (λ q. same_text q r) (same_text-eq s t is_s is_t h)

if_twice :
    {A : Type 0} (b : Bool) (x y z : A)
    → (if b then x else z) ≡ (if b then x else if b then y else z)
if_twice true x y z = refl
if_twice false x y z = refl

if_swap :
    {A : Type 0} (a b : Bool) (x y z : A)
    → (a ≡ true → b ≡ true → ⊥)
    → (if a then x else if b then y else z) ≡ (if b then y else if a then x else z)
if_swap true true x y z h = absurd (h refl refl)
if_swap true false x y z h = refl
if_swap false b x y z h = refl

-- Two names of which one is a third are not both that third.
apart :
    (i k j : List ℕ)
    → IsText i
    → IsText k
    → IsText j
    → same_text i k ≡ false
    → same_text i j ≡ true
    → same_text k j ≡ true
    → ⊥
apart i k j is_i is_k is_j other left right =
    let e : i ≡ k = same_text-eq i j is_i is_j left ∙ sym (same_text-eq k j is_k is_j right) in
    let bad : same_text k k ≡ false = rw e at other in let good = same_text_self k in cc

-- The name has an entry, or there is room for one.
abbrev pub HasRoom : List ℕ → Env → Type 0
HasRoom name env = (env_find name env ≢ none) ⊎ (length env < 128)

env_update-none :
    (name : List ℕ) (v : Node) (env : Env) → env_find name env ≡ none → env_update name v env ≡ none
unfolding env_find env_update
env_update-none name v [] h = refl
env_update-none name v ((k, w) ∷ env) h = elim (Bool-cases (same_text k name)) [
  | inl same ↦ let bad : some w ≡ none = rw same at h in cc
  | inr other ↦
      let later : env_find name env ≡ none = rw other at h in
      rw other (rw (env_update-none name v env later))
]

env_find-append :
    (j k : List ℕ) (v : Node) (env : Env)
    → env_find k env ≡ none
    → IsTexts env
    → IsText k
    → IsText j
    → env_find j (env ++ ((k, v) ∷ [])) ≡ (if same_text k j then some v else env_find j env)
unfolding env_find
env_find-append j k v [] absent texts is_k is_j = refl
env_find-append j k v ((i, w) ∷ env) absent (is_i, texts) is_k is_j =
    elim (Bool-cases (same_text i k)) [
      | inl same ↦ let bad : some w ≡ none = rw same at absent in cc
      | inr other ↦ rw (env_find-append j k v env (rw other at absent) texts is_k is_j) (
          if_swap (same_text i j) (same_text k j) (some w) (some v) (env_find j env)
            (apart i k j is_i is_k is_j other))
    ]

-- An update of a name that is there.
env_find-update :
    (j k : List ℕ) (v : Node) (env : Env)
    → env_find k env ≢ none
    → IsTexts env
    → IsText k
    → IsText j
    → (changed : Env) × (env_update k v env ≡ some changed)
      × (length changed ≡ length env)
      × (env_find j changed ≡ (if same_text k j then some v else env_find j env))
unfolding env_find env_update
env_find-update j k v [] there texts is_k is_j = absurd (there refl)
env_find-update j k v ((i, w) ∷ env) there (is_i, texts) is_k is_j =
    elim (Bool-cases (same_text i k)) [
      | inl same ↦ (
        (i, v) ∷ env,
        rw same,
        refl,
        rw (same_text_trans i k j is_i is_k same)
            (if_twice (same_text k j) (some v) (some w) (env_find j env)),
      )
      | inr other ↦
          let (changed, updated, size, finds) =
            env_find-update j k v env (rw other at there) texts is_k is_j in
          (
            (i, w) ∷ changed,
            rw other (rw updated),
            omega (arith, size),
            rw finds (
                if_swap (same_text i j) (same_text k j) (some w) (some v) (env_find j env)
                  (apart i k j is_i is_k is_j other)),
          )
    ]

pub stored-some :
    (k : List ℕ) (v : Node) (env changed : Env)
    → env_update k v env ≡ some changed
    → stored k v env ≡ changed
unfolding stored
stored-some k v env changed e = rw (e, stored) refl

pub stored-none :
    (k : List ℕ) (v : Node) (env : Env)
    → env_update k v env ≡ none
    → stored k v env ≡ (if ltb (length env) 128 then env ++ ((k, v) ∷ []) else env)
unfolding stored
stored-none k v env e = rw (e, stored) refl

module _ (j k : List ℕ) (v : Node) (env : Env) (texts : IsTexts env) (is_k : IsText k)
    (is_j : IsText j) (small : length env ≤ 128) where
  abbrev Stores : Env → Type 0
  Stores after =
      (length after ≤ 128)
      × (HasRoom k env → env_find j after ≡ (if same_text k j then some v else env_find j env))
      × ((env_find k env ≡ none) → (length env ≡ 128) → after ≡ env)

  stored-absent : env_find k env ≡ none → Stores (stored k v env)
  stored-absent absent = subst Stores (sym (stored-none k v env (env_update-none k v env absent))) (
      if_holds Stores (ltb (length env) 128)
        (λ room. (
          omega (arith, length-append {0} env ((k, v) ∷ []), ltb→lt (length env) 128 room),
          (λ _. env_find-append j k v env absent texts is_k is_j),
          λ _ full. absurd (ground arith),
        ))
        λ full. (
          small,
          (λ room. elim room [
            | inl there ↦ absurd (there absent)
            | inr less ↦ absurd (ground arith)
          ]),
          λ _ _. refl,
        ))

  stored-found : (w : Node) → env_find k env ≡ some w → Stores (stored k v env)
  stored-found w found =
      let (changed, updated, size, finds) =
        env_find-update j k v env (λ n. let both : some w ≡ none = sym found ∙ n in cc) texts is_k
          is_j in
      subst Stores (sym (stored-some k v env changed updated)) (
        omega (arith, size),
        (λ _. finds),
        λ absent _. let both : some w ≡ none = sym found ∙ absent in cc,
      )

-- With names that are strings of bytes other than 0: after a value is stored, its name is found with
-- that value and every other name as before, if the name had an entry or the table of 128 had room. If it had neither, nothing changes. The table
-- does not grow past 128.
pub env_find-stored :
    (j k : List ℕ) (v : Node) (env : Env)
    → IsTexts env
    → IsText k
    → IsText j
    → length env ≤ 128
    → (length (stored k v env) ≤ 128)
      × (HasRoom k env
          → ((j ≡ k) → env_find j (stored k v env) ≡ some v)
            × ((j ≢ k) → env_find j (stored k v env) ≡ env_find j env))
      × ((env_find k env ≡ none) → (length env ≡ 128) → stored k v env ≡ env)
env_find-stored j k v env texts is_k is_j small =
    let (size, finds, full) : Stores j k v env texts is_k is_j small (stored k v env) =
      elim (Option-cases (env_find k env)) [
        | inl absent ↦ stored-absent j k v env texts is_k is_j small absent
        | inr (w, found) ↦ stored-found j k v env texts is_k is_j small w found
      ] in
    (
      size,
      (λ room. (
        (λ same. finds room ∙ rw (same, same_text_self k) refl),
        λ other. finds room ∙ rw (other_text k j is_k is_j other) refl,
      )),
      full,
    )
