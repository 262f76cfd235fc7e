-- ===== src/Prelude/Outcome.antt =====
-- What a C function does: it returns, or it runs into a fault. A failed `assert` (which loops for
-- ever in util.h), an access outside an object and a read through a null pointer are told apart.
use mathlib.Core.Path.{◌≡◌, refl, subst, ap, ◌∙◌}
use mathlib.Core.Bool.{Bool, true, false}
use mathlib.Core.Option.{Option, none, some}
use libgdb.Prelude.Tests.{if◌then◌else◌}

pub data Fault : Type 0 where
  assertion out_of_bounds null_pointer out_of_fuel : Fault

pub data Outcome {ℓ} (A : Type ℓ) : Type ℓ where
  ok : A → Outcome A
  fault : Fault → Outcome A

infixl 5 ◌>>=◌ ◌>>◌
abbrev pub ◌>>=◌ {ℓ κ} : {A : Type ℓ} {B : Type κ} → Outcome A → (A → Outcome B) → Outcome B
ok a >>= f = f a
fault e >>= f = fault e

abbrev pub ◌>>◌ {ℓ} : {B : Type ℓ} → Outcome (Unit {0}) → Outcome B → Outcome B
m >> k = m >>= λ _. k

abbrev pub or_fault {ℓ} : {A : Type ℓ} → Option A → Fault → Outcome A
or_fault none e = fault e
or_fault (some a) e = ok a

pub >>=-assoc {ℓ κ μ} :
    {A : Type ℓ} {B : Type κ} {C : Type μ} (m : Outcome A) (f : A → Outcome B) (g : B → Outcome C)
    → ((m >>= f) >>= g) ≡ (m >>= λ a. f a >>= g)
>>=-assoc (ok a) f g = refl
>>=-assoc (fault e) f g = refl

pub >>=-ok {ℓ} : {A : Type ℓ} (m : Outcome A) → (m >>= ok) ≡ m
>>=-ok (ok a) = refl
>>=-ok (fault e) = refl

abbrev pub guard : Bool → Fault → Outcome (Unit {0})
guard true e = ok tt
guard false e = fault e

-- Two continuations that agree give the same outcome.
pub >>=-cong {ℓ κ} :
    {A : Type ℓ} {B : Type κ} (m : Outcome A) {f g : A → Outcome B}
    → ((a : A) → f a ≡ g a)
    → (m >>= f) ≡ (m >>= g)
>>=-cong (ok a) h = h a
>>=-cong (fault e) h = refl

-- A statement about the value that is returned, if one is.
abbrev pub Ensures {ℓ κ} : {A : Type ℓ} → (A → Type κ) → Outcome A → Type κ
Ensures P (ok a) = P a
Ensures P (fault e) = Unit

pub Ensures-bind {ℓ κ μ} :
    {A : Type ℓ} {B : Type κ} (P : B → Type μ) (m : Outcome A) (f : A → Outcome B)
    → ((a : A) → m ≡ ok a → Ensures P (f a))
    → Ensures P (m >>= f)
Ensures-bind P (ok a) f h = h a refl
Ensures-bind P (fault e) f h = tt

pub Ensures-if {ℓ κ} :
    {A : Type ℓ} (P : A → Type κ) (b : Bool) (m n : Outcome A)
    → Ensures P m
    → Ensures P n
    → Ensures P (if b then m else n)
Ensures-if P true m n h h' = h
Ensures-if P false m n h h' = h'

pub Ensures-ok {ℓ κ} :
    {A : Type ℓ} (P : A → Type κ) (m : Outcome A) {a : A} → Ensures P m → m ≡ ok a → P a
Ensures-ok P m h e = subst (Ensures P) e h

-- That a value is returned, and a statement about it.
abbrev pub Returns {ℓ κ} : {A : Type ℓ} → (A → Type κ) → Outcome A → Type (ℓ ⊔ κ)
Returns {A = A} P m = (a : A) × (m ≡ ok a) × P a

pub Returns-bind {ℓ κ μ ν} :
    {A : Type ℓ} {B : Type κ} {P : A → Type μ} {Q : B → Type ν} {m : Outcome A} {f : A → Outcome B}
    → Returns P m
    → ((a : A) → P a → Returns Q (f a))
    → Returns Q (m >>= f)
Returns-bind {f = f} (a, e, h) k = let (b, e', h') = k a h in (b, ap (λ x. x >>= f) e ∙ e', h')

pub Returns-if {ℓ κ} :
    {A : Type ℓ} {P : A → Type κ} (b : Bool) {m n : Outcome A}
    → (b ≡ true → Returns P m)
    → (b ≡ false → Returns P n)
    → Returns P (if b then m else n)
Returns-if true h h' = h refl
Returns-if false h h' = h' refl

-- The same for the value that is returned.
pub >>=-cong_at {ℓ κ} :
    {A : Type ℓ} {B : Type κ} (m : Outcome A) {f g : A → Outcome B}
    → ((a : A) → m ≡ ok a → f a ≡ g a)
    → (m >>= f) ≡ (m >>= g)
>>=-cong_at (ok a) h = h a refl
>>=-cong_at (fault e) h = refl
