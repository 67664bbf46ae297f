-- ===== src/Base/Results.antt =====
-- Rust's `Result`, with `?` as bind.
use mathlib.Core.Path.{◌≡◌, refl}
use mathlib.Core.Logic.{◌⊎◌, inl, inr}
use mathlib.Core.Bool.{Bool, true, false}
use mathlib.Core.Option.{Option, none, some}

pub data Result {ℓ} (E : Type 0) (A : Type ℓ) : Type ℓ where
  ok : A → Result E A
  err : E → Result E A

infixl 5 ◌>>=◌ ◌>>◌
abbrev pub ◌>>=◌ {ℓ κ} :
    {E : Type 0} {A : Type ℓ} {B : Type κ} → Result E A → (A → Result E B) → Result E B
ok a >>= f = f a
err e >>= f = err e

abbrev pub ◌>>◌ {ℓ} : {E : Type 0} {B : Type ℓ} → Result E (Unit {0}) → Result E B → Result E B
m >> k = m >>= λ _. k

-- `return Err(e)` where the test fails.
abbrev pub guard : {E : Type 0} → Bool → E → Result E (Unit {0})
guard true e = ok tt
guard false e = err e

abbrev pub ok_or {ℓ} : {E : Type 0} {A : Type ℓ} → E → Option A → Result E A
ok_or e none = err e
ok_or e (some a) = ok a

abbrev pub map_err {ℓ} : {E F : Type 0} {A : Type ℓ} → (E → F) → Result E A → Result F A
map_err f (ok a) = ok a
map_err f (err e) = err (f e)

abbrev pub is_ok {ℓ} : {E : Type 0} {A : Type ℓ} → Result E A → Bool
is_ok (ok a) = true
is_ok (err e) = false

-- A call that changes a state and may fail, followed by another: what was changed stays changed.
abbrev pub and_then {ℓ κ} :
    {S E : Type 0} {A : Type ℓ} {B : Type κ}
    → S × Result E A
    → (S → A → S × Result E B)
    → S × Result E B
and_then (s, ok a) k = k s a
and_then (s, err e) k = (s, err e)

pub Result-cases {ℓ} :
    {E : Type 0} {A : Type ℓ} (r : Result E A) → ((a : A) × (r ≡ ok a)) ⊎ ((e : E) × (r ≡ err e))
Result-cases (ok a) = inl (a, refl)
Result-cases (err e) = inr (e, refl)

pub bind-eq_ok {ℓ κ} :
    {E : Type 0} {A : Type ℓ} {B : Type κ} (m : Result E A) (f : A → Result E B) {b : B}
    → (m >>= f) ≡ ok b
    → (a : A) × (m ≡ ok a) × (f a ≡ ok b)
bind-eq_ok (ok a) f h = (a, refl, h)
bind-eq_ok (err e) f h = cc

-- What the first call makes true of the state, and the second keeps.
pub and_then-keeps {ℓ κ μ} :
    {S E : Type 0} {A : Type ℓ} {B : Type κ} (P : S → Type μ) (r : S × Result E A)
    (k : S → A → S × Result E B)
    → P r.0
    → ((s : S) (a : A) → P s → P (k s a).0)
    → P (and_then r k).0
and_then-keeps P (s, ok a) k h keeps = keeps s a h
and_then-keeps P (s, err x) k h keeps = h

pub and_then-err {ℓ κ} :
    {S E : Type 0} {A : Type ℓ} {B : Type κ} (r : S × Result E A) (k : S → A → S × Result E B)
    (x : E)
    → r.1 ≡ err x
    → (and_then r k).1 ≡ err x
and_then-err (s, ok a) k x h = cc
and_then-err (s, err y) k x h = cc

-- What follows a guard is reached where the test holds, and only there.
pub guard-eq_ok {ℓ} :
    {E : Type 0} {A : Type ℓ} (b : Bool) (e : E) (k : Result E A) {a : A}
    → (guard b e >> k) ≡ ok a
    → (b ≡ true) × (k ≡ ok a)
guard-eq_ok true e k h = (refl, h)
guard-eq_ok false e k h = cc h

pub guard-true : {E : Type 0} (b : Bool) (e : E) → guard b e ≡ ok tt → b ≡ true
guard-true true e h = refl
guard-true false e h = cc h

pub ok_or-eq_ok {ℓ} :
    {E : Type 0} {A : Type ℓ} (e : E) (o : Option A) {a : A} → ok_or e o ≡ ok a → o ≡ some a
ok_or-eq_ok e none h = cc h
ok_or-eq_ok e (some b) h = cc h
