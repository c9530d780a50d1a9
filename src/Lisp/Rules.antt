-- ===== src/Lisp/Rules.antt =====
-- What holds of an outcome, and the rules for a call after another.
use lisp_dos.Base.{◌+◌, ◌*◌, ◌<◌}
use lisp_dos.Lisp.Machine.{Lisp, Outcome, done, exited, fault, out_of_fuel, M, after}

-- The call returns, with a value and a state of which `P` holds, or ends the program with a pool that
-- has no room for another node.
abbrev pub Returns : {A : Type 0} → (A → Lisp → Type 0) → Outcome A → Type 0
Returns P (done a s) = P a s
Returns P (exited s) = 1024 * 1024 < s.pool + 56
Returns P fault = ⊥
Returns P out_of_fuel = ⊥

pub Returns-after :
    {A B : Type 0} (P : A → Lisp → Type 0) (Q : B → Lisp → Type 0) (o : Outcome A) (k : A → M B)
    → Returns P o
    → ((a : A) (s : Lisp) → P a s → Returns Q (k a s))
    → Returns Q (after o k)
Returns-after P Q (done a s) k h next = next a s h
Returns-after P Q (exited s) k h next = h
Returns-after P Q fault k h next = absurd h
Returns-after P Q out_of_fuel k h next = absurd h

-- Whatever a call that returns or ends the program leaves, `P` and `Q` hold of it.
abbrev pub Leaves : {A : Type 0} → (A → Lisp → Type 0) → (Lisp → Type 0) → Outcome A → Type 0
Leaves P Q (done a s) = P a s
Leaves P Q (exited s) = Q s
Leaves P Q fault = Unit
Leaves P Q out_of_fuel = Unit

pub Leaves-after :
    {A B : Type 0} (P : A → Lisp → Type 0) (R : B → Lisp → Type 0) (Q : Lisp → Type 0)
    (o : Outcome A) (k : A → M B)
    → Leaves P Q o
    → ((a : A) (s : Lisp) → P a s → Leaves R Q (k a s))
    → Leaves R Q (after o k)
Leaves-after P R Q (done a s) k h next = next a s h
Leaves-after P R Q (exited s) k h next = h
Leaves-after P R Q fault k h next = tt
Leaves-after P R Q out_of_fuel k h next = tt

pub Returns-mono :
    {A : Type 0} (P Q : A → Lisp → Type 0) (o : Outcome A)
    → Returns P o
    → ((a : A) (s : Lisp) → P a s → Q a s)
    → Returns Q o
Returns-mono P Q (done a s) h le = le a s h
Returns-mono P Q (exited s) h le = h
Returns-mono P Q fault h le = h
Returns-mono P Q out_of_fuel h le = h
