-- ===== src/Base/Tests.antt =====
-- Boolean tests, the conditional, and case lemmas that keep the equation.
use Prim.Native.Nat.{ℕ, compare, Ordering}
use Prim.Native.String.{String}
use mathlib.Core.Path.{◌≡◌, refl}
use mathlib.Core.Logic.{◌↔◌, ◌⊎◌, inl, inr}
use mathlib.Core.Bool.{Bool, true, false}
use mathlib.Core.Option.{Option, none, some}
use native.Mathlib.Omega.{arith}
use text.Mathlib.Text.{◌==◌ as str_eq}
use text.Mathlib.TextEquality.{eq_iff}

abbrev pub ltb : ℕ → ℕ → Bool
ltb a b = elim (compare a b) [ Ordering.lt ↦ true | _ ↦ false ]

abbrev pub leb : ℕ → ℕ → Bool
leb a b = elim (compare a b) [ Ordering.gt ↦ false | _ ↦ true ]

abbrev nat_beq : ℕ → ℕ → Bool
nat_beq a b = elim (compare a b) [ Ordering.eq ↦ true | _ ↦ false ]

pub nat_beq_iff : (a b : ℕ) → (nat_beq a b ≡ true) ↔ (a ≡ b)
nat_beq_iff a b = ground arith

-- The types that Go compares by `==`.
pub record Comparable {ℓ} (T : Type ℓ) : Type ℓ where
  pub is_equal : (x y : T) → Bool
  pub is_equal_iff : (x y : T) → (is_equal x y ≡ true) ↔ (x ≡ y)

abbrev pub ◌==◌ {ℓ} : {T : Type ℓ} ⦃c : Comparable T⦄ (x y : T) → Bool
◌==◌ ⦃c⦄ x y = c.is_equal x y

infix 50 ◌==◌
instance abbrev pub string_eq : Comparable String
string_eq = record { is_equal = str_eq; is_equal_iff = eq_iff }

instance abbrev pub nat_eq : Comparable ℕ
nat_eq = record { is_equal = nat_beq; is_equal_iff = nat_beq_iff }

infix 1 if◌then◌else◌
abbrev pub if◌then◌else◌ {ℓ} : {A : Type ℓ} → Bool → A → A → A
if true then x else y = x
if false then x else y = y

module _ {ℓ} {A : Type ℓ} (x y : A) where
  pub if_true : {b : Bool} → b ≡ true → (if b then x else y) ≡ x
  if_true h = rw h

  pub if_false : {b : Bool} → b ≡ false → (if b then x else y) ≡ y
  if_false h = rw h

-- What both branches have, the conditional has.
pub if_elim {ℓ κ} :
    {T : Type ℓ} {left right : T} (Q : T → Type κ) (test : Bool)
    → Q left
    → Q right
    → Q (if test then left else right)
if_elim Q true on_left on_right = on_left
if_elim Q false on_left on_right = on_right

pub Bool-cases : (b : Bool) → (b ≡ true) ⊎ (b ≡ false)
Bool-cases true = inl refl
Bool-cases false = inr refl

pub Bool-not : {b : Bool} → ¬ (b ≡ true) → b ≡ false
Bool-not {b} h = elim (Bool-cases b) [ inl e ↦ absurd (h e) | inr e ↦ e ]

abbrev pub is_some {ℓ} : {A : Type ℓ} → Option A → Bool
is_some none = false
is_some (some a) = true

abbrev pub is_none {ℓ} : {A : Type ℓ} → Option A → Bool
is_none none = true
is_none (some a) = false

pub Option-cases {ℓ} : {A : Type ℓ} (o : Option A) → (o ≡ none) ⊎ ((a : A) × (o ≡ some a))
Option-cases none = inl refl
Option-cases (some a) = inr (a, refl)

-- A step that may panic: `none` is a panic, which ends all that follows.
infixl 5 ◌>>=◌
abbrev pub ◌>>=◌ {ℓ κ} : {A : Type ℓ} {B : Type κ} → Option A → (A → Option B) → Option B
none >>= f = none
some a >>= f = f a
