-- ===== src/Prelude/Run.antt =====
-- The outcome of code that may meet undefined behaviour, or that the model cuts off by fuel.

use mathlib.Core.Path.{◌≡◌, ap, refl}

-- `fault` is undefined behaviour of C: a read outside an array, a missing variadic argument.
pub data Run {ℓ} (A : Type ℓ) : Type ℓ where
  done : A → Run A
  fault : Run A
  no_fuel : Run A

infixl 5 ◌>>=◌
abbrev pub ◌>>=◌ {ℓ κ} : {A : Type ℓ} {B : Type κ} → Run A → (A → Run B) → Run B
done a >>= f = f a
fault >>= f = fault
no_fuel >>= f = no_fuel

-- The run ends normally, with a result that satisfies `P`.
abbrev pub Returns {ℓ} : {A : Type ℓ} → Run A → (A → Type 0) → Type 0
Returns (done a) P = P a
Returns fault P = ⊥
Returns no_fuel P = ⊥

pub bind-Returns {ℓ κ} :
    {A : Type ℓ} {B : Type κ} (m : Run A) (k : A → Run B) (P : A → Type 0) (Q : B → Type 0)
    → Returns m P
    → ((a : A) → P a → Returns (k a) Q)
    → Returns (m >>= k) Q
bind-Returns (done a) k P Q h f = f a h
bind-Returns fault k P Q h f = elim h [ ]
bind-Returns no_fuel k P Q h f = elim h [ ]

pub map-Returns {ℓ} :
    {A : Type ℓ} (m : Run A) (P Q : A → Type 0) → Returns m P → ((a : A) → P a → Q a) → Returns m Q
map-Returns (done a) P Q h f = f a h
map-Returns fault P Q h f = elim h [ ]
map-Returns no_fuel P Q h f = elim h [ ]

pub Returns-eq {ℓ} :
    {A : Type ℓ} (m : Run A) (P : A → Type 0) → Returns m P → (a : A) × (m ≡ done a) × P a
Returns-eq (done a) P h = (a, refl, h)
Returns-eq fault P h = elim h [ ]
Returns-eq no_fuel P h = elim h [ ]

-- Where a run ends, the predicate holds
abbrev pub Keeps : {A : Type 0} → (A → Type 0) → Run A → Type 0
Keeps P (done a) = P a
Keeps P fault = Unit
Keeps P no_fuel = Unit

pub bind-Keeps :
    {A B : Type 0} (P : A → Type 0) (Q : B → Type 0) (m : Run A) (k : A → Run B)
    → Keeps P m
    → ((a : A) → P a → Keeps Q (k a))
    → Keeps Q (m >>= k)
bind-Keeps P Q (done a) k h n = n a h
bind-Keeps P Q fault k h n = tt
bind-Keeps P Q no_fuel k h n = tt

pub any-Keeps : {A : Type 0} (m : Run A) → Keeps (λ _. Unit {0}) m
any-Keeps (done a) = tt
any-Keeps fault = tt
any-Keeps no_fuel = tt

-- Where nothing is asked of the first part.
pub after-Keeps :
    {A B : Type 0} (Q : B → Type 0) (m : Run A) (k : A → Run B)
    → ((a : A) → Keeps Q (k a))
    → Keeps Q (m >>= k)
after-Keeps Q m k n = bind-Keeps (λ _. Unit {0}) Q m k (any-Keeps m) (λ a _. n a)

pub bind_assoc :
    {A B C : Type 0} (m : Run A) (f : A → Run B) (g : B → Run C)
    → ((m >>= f) >>= g) ≡ (m >>= λ a. f a >>= g)
bind_assoc (done a) f g = refl
bind_assoc fault f g = refl
bind_assoc no_fuel f g = refl

pub bind-done : {A : Type 0} (m : Run A) → (m >>= λ a. done a) ≡ m
bind-done (done a) = refl
bind-done fault = refl
bind-done no_fuel = refl

-- The parts that follow do the same.
pub bind-same :
    {A B : Type 0} (m : Run A) (k k' : A → Run B) → ((a : A) → k a ≡ k' a) → (m >>= k) ≡ (m >>= k')
bind-same m k k' e = ap (λ f. m >>= f) (λ i a. e a i)
