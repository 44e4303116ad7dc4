-- ===== src/Base/Tests.antt =====
-- Boolean tests on native numbers and the conditional; Rust's Option methods.
use Prim.Native.Nat.{ℕ, ◌≤◌, ◌<◌, compare, Ordering}
use Prim.Native.String.{String}
use mathlib.Core.Path.{◌≡◌, refl}
use mathlib.Core.Logic.{◌≢◌, ◌⊎◌, inl, inr}
use mathlib.Core.Bool.{Bool, true, false}
use mathlib.Core.Option.{Option, none, some}
use native.Mathlib.Omega.{arith}
use text.Mathlib.Text.{◌==◌ as str_eq}
use text.Mathlib.TextEquality.{eq_iff}

abbrev pub ltb : ℕ → ℕ → Bool
ltb a b = elim (compare a b) [ Ordering.lt ↦ true | _ ↦ false ]

abbrev pub leb : ℕ → ℕ → Bool
leb a b = elim (compare a b) [ Ordering.gt ↦ false | _ ↦ true ]

infix 50 ◌==◌
abbrev pub ◌==◌ : ℕ → ℕ → Bool
a == b = elim (compare a b) [ Ordering.eq ↦ true | _ ↦ false ]

infix 1 if◌then◌else◌
abbrev pub if◌then◌else◌ {ℓ} : {A : Type ℓ} → Bool → A → A → A
if true then x else y = x
if false then x else y = y

pub ltb→lt : (a b : ℕ) → ltb a b ≡ true → a < b
ltb→lt a b h = ground arith

pub leb→le : (a b : ℕ) → leb a b ≡ true → a ≤ b
leb→le a b h = ground arith

pub ruleset tests = (arith, ltb→lt, leb→le)

-- To split on a computed value and keep the equation.
pub Bool-cases : (b : Bool) → (b ≡ true) ⊎ (b ≡ false)
Bool-cases true = inl refl
Bool-cases false = inr refl

pub Option-cases {ℓ} : {A : Type ℓ} (o : Option A) → (o ≡ none) ⊎ ((a : A) × (o ≡ some a))
Option-cases none = inl refl
Option-cases (some a) = inr (a, refl)

pub str_eq_refl : (s : String) → str_eq s s ≡ true
str_eq_refl s = (eq_iff s s).1 refl

module _ {ℓ} {A : Type ℓ} where
  abbrev pub is_some : Option A → Bool
  is_some none = false
  is_some (some _) = true

  abbrev pub is_none : Option A → Bool
  is_none none = true
  is_none (some _) = false

  -- `Option::is_some_and`.
  abbrev pub is_some_and : Option A → (A → Bool) → Bool
  is_some_and none p = false
  is_some_and (some a) p = p a

  abbrev pub unwrap_or : Option A → A → A
  unwrap_or none d = d
  unwrap_or (some a) d = a

  -- `Option::or`.
  abbrev pub or_else : Option A → Option A → Option A
  or_else none b = b
  or_else (some a) b = some a

  abbrev pub filter_some : Option A → (A → Bool) → Option A
  filter_some none p = none
  filter_some (some a) p = if p a then some a else none

  abbrev pub and_then {κ} : {B : Type κ} → Option A → (A → Option B) → Option B
  and_then none f = none
  and_then (some a) f = f a

  abbrev pub map_some {κ} : {B : Type κ} → Option A → (A → B) → Option B
  map_some none f = none
  map_some (some a) f = some (f a)

-- `a == b` on `Option<u64>`.
abbrev pub opt_eq : Option ℕ → Option ℕ → Bool
opt_eq none none = true
opt_eq (some a) (some b) = a == b
opt_eq _ _ = false

-- What the Boolean test of equality says.
pub eq_of : (a b : ℕ) → (a == b) ≡ true → a ≡ b
eq_of a b h = ground arith

pub neq_of : (a b : ℕ) → (a == b) ≡ false → a ≢ b
neq_of a b h e = ground arith

pub eq_self : (a : ℕ) → (a == a) ≡ true
eq_self a = ground arith

-- What holds on both branches holds of the conditional.
pub if_both {ℓ κ} :
    {A : Type ℓ} (P : A → Type κ) (b : Bool) {x y : A} → P x → P y → P (if b then x else y)
if_both P true p q = p
if_both P false p q = q

-- The same, where each branch may use how the test came out.
pub if_cases {ℓ κ} :
    {A : Type ℓ} (P : A → Type κ) (b : Bool) {x y : A}
    → (b ≡ true → P x)
    → (b ≡ false → P y)
    → P (if b then x else y)
if_cases P true p q = p refl
if_cases P false p q = q refl
