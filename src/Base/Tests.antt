-- ===== src/Base/Tests.antt =====
-- The comparisons of C on unsigned numbers, and the conditional.
use Prim.Native.Nat.{ℕ, ◌≤◌, ◌<◌, compare, Ordering}
use mathlib.Core.Path.{◌≡◌, refl, subst}
use mathlib.Core.Logic.{◌⊎◌, inl, inr}
use mathlib.Core.Bool.{Bool, true, false}
use mathlib.Core.Option.{Option, none, some, some-injective}
use native.Mathlib.Omega.{arith}

abbrev pub ltb : ℕ → ℕ → Bool
ltb a b = elim (compare a b) [ Ordering.lt ↦ true | _ ↦ false ]

abbrev pub leb : ℕ → ℕ → Bool
leb a b = elim (compare a b) [ Ordering.gt ↦ false | _ ↦ true ]

infix 50 ◌==◌
abbrev pub ◌==◌ : ℕ → ℕ → Bool
a == b = elim (compare a b) [ Ordering.eq ↦ true | _ ↦ false ]

infix 1 if◌then◌else◌
abbrev pub if◌then◌else◌ {ℓ} : {A : Type ℓ} → Bool → A → A → A
if true then x else y = x
if false then x else y = y

pub ltb→lt : (a b : ℕ) → ltb a b ≡ true → a < b
ltb→lt a b h = ground arith

pub lt→ltb : (a b : ℕ) → a < b → ltb a b ≡ true
lt→ltb a b h = ground arith

pub ltb→le : (a b : ℕ) → ltb a b ≡ false → b ≤ a
ltb→le a b h = ground arith

pub le→ltb : (a b : ℕ) → b ≤ a → ltb a b ≡ false
le→ltb a b h = ground arith

pub ==→eq : (a b : ℕ) → (a == b) ≡ true → a ≡ b
==→eq a b h = ground arith

pub eq→== : (a b : ℕ) → a ≡ b → (a == b) ≡ true
eq→== a b h = ground arith

-- A split on a computed test that keeps the equation.
pub Bool-cases : (b : Bool) → (b ≡ true) ⊎ (b ≡ false)
Bool-cases true = inl refl
Bool-cases false = inr refl

-- `none` is a run that ends without a result.
infixl 5 ◌>>=◌
abbrev pub ◌>>=◌ {ℓ κ} : {A : Type ℓ} {B : Type κ} → Option A → (A → Option B) → Option B
none >>= f = none
some a >>= f = f a

-- A run in two parts, where the continuations agree.
pub >>=-through {ℓ κ μ} :
    {A : Type ℓ} {B : Type κ} {C : Type μ} (m : Option A) (f : A → Option C) (g : A → Option B)
    (h : B → Option C)
    → ((a : A) → f a ≡ (g a >>= h))
    → (m >>= f) ≡ ((m >>= g) >>= h)
>>=-through none f g h e = refl
>>=-through (some a) f g h e = e a

pub Option-cases {ℓ} : {A : Type ℓ} (o : Option A) → (o ≡ none) ⊎ ((a : A) × (o ≡ some a))
Option-cases none = inl refl
Option-cases (some a) = inr (a, refl)

-- A result or its absence, each with what follows.
abbrev pub either_way {ℓ κ} : {A : Type ℓ} {B : Type κ} → Option A → B → (A → B) → B
either_way none b f = b
either_way (some a) b f = f a

-- What holds at both ends of a test.
pub either_end :
    {A : Type 0} (P : A → Type 0) (b : Bool) (x y : A) (rest : Option A)
    → P x
    → (rest ≡ some y → P y)
    → (if b then some x else rest) ≡ some y
    → P y
either_end P true x y rest here on e = subst P (some-injective _ _ e) here
either_end P false x y rest here on e = on e

-- What holds at the end of a run in two parts.
pub >>=-end :
    {A B : Type 0} (P : B → Type 0) (m : Option A) (f : A → Option B) (y : B)
    → ((a : A) → m ≡ some a → f a ≡ some y → P y)
    → (m >>= f) ≡ some y
    → P y
>>=-end P none f y on e = absurd (cc)
>>=-end P (some a) f y on e = on a refl e

pub either_branch :
    {A : Type 0} (P : A → Type 0) (b : Bool) (m n : Option A) (y : A)
    → (m ≡ some y → P y)
    → (n ≡ some y → P y)
    → (if b then m else n) ≡ some y
    → P y
either_branch P true m n y first second e = first e
either_branch P false m n y first second e = second e

pub either_way-end :
    {A B : Type 0} (P : B → Type 0) (o : Option A) (m : Option B) (f : A → Option B) (y : B)
    → (m ≡ some y → P y)
    → ((a : A) → f a ≡ some y → P y)
    → either_way o m f ≡ some y
    → P y
either_way-end P none m f y absent present e = absent e
either_way-end P (some a) m f y absent present e = present a e

-- What holds of the result of a run that ends.
pub on_some : {A : Type 0} (P : A → Type 0) (x y : A) → P x → some x ≡ some y → P y
on_some P x y here e = subst P (some-injective _ _ e) here
