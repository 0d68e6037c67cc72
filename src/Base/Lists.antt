-- ===== src/Base/Lists.antt =====
-- Lists measured and tested by native numbers and Booleans.
use Prim.Native.Nat.{ℕ, zero, suc, ◌+◌, ◌<◌}
use mathlib.Core.Path.{◌≡◌, refl, sym, ap, subst}
use mathlib.Core.Bool.{Bool, true, false, ◌&&◌, ◌||◌}
use mathlib.Core.Logic.{◌⊎◌, inl, inr, ◌≢◌}
use mathlib.Core.List.{List, [], ◌∷◌, ◌++◌, map}
use mathlib.Core.Option.{Option, none, some}
use native.Mathlib.Omega.{arith}

module _ {ℓ} {A : Type ℓ} where
  abbrev pub length : List A → ℕ
  length [] = 0
  length (x ∷ xs) = suc (length xs)

  abbrev pub is_empty : List A → Bool
  is_empty [] = true
  is_empty (x ∷ xs) = false

  abbrev pub get_elem? : List A → ℕ → Option A
  get_elem? [] i = none
  get_elem? (x ∷ xs) zero = some x
  get_elem? (x ∷ xs) (suc i) = get_elem? xs i

  -- The loops that leave at the first element that fails, or that fits.
  abbrev pub all : (A → Bool) → List A → Bool
  all p [] = true
  all p (x ∷ xs) = p x && all p xs

  abbrev pub any : (A → Bool) → List A → Bool
  any p [] = false
  any p (x ∷ xs) = p x || any p xs

  pub List-cases : (xs : List A) → (xs ≡ []) ⊎ ((x : A) × (ys : List A) × (xs ≡ x ∷ ys))
  List-cases [] = inl refl
  List-cases (x ∷ ys) = inr (x, ys, refl)

  pub length-append : (xs ys : List A) → length (xs ++ ys) ≡ length xs + length ys
  length-append [] ys = omega arith
  length-append (x ∷ xs) ys = omega (arith, length-append xs ys)

  pub get_elem?_total : (xs : List A) (i : ℕ) → i < length xs → (x : A) × (get_elem? xs i ≡ some x)
  get_elem?_total [] i h = elim h [ ]
  get_elem?_total (x ∷ xs) zero h = (x, refl)
  get_elem?_total (x ∷ xs) (suc i) h = get_elem?_total xs i (omega arith)

-- `xs[i] = a`; a write out of bounds changes nothing.
module _ {A : Type 0} where
  unfoldable pub put_at : ℕ → A → List A → List A
  put_at i a [] = []
  put_at zero a (x ∷ xs) = a ∷ xs
  put_at (suc i) a (x ∷ xs) = x ∷ put_at i a xs

  pub get_elem?-put_at :
      (i : ℕ) (a b : A) (xs : List A)
      → get_elem? xs i ≡ some a
      → get_elem? (put_at i b xs) i ≡ some b
  unfolding put_at
  get_elem?-put_at i a b [] e = ground arith
  get_elem?-put_at zero a b (x ∷ xs) e = refl
  get_elem?-put_at (suc i) a b (x ∷ xs) e = get_elem?-put_at i a b xs e

  pub get_elem?-put_at_other :
      (i j : ℕ) (b : A) (xs : List A) → j ≢ i → get_elem? (put_at i b xs) j ≡ get_elem? xs j
  unfolding put_at
  get_elem?-put_at_other i j b [] ne = refl
  get_elem?-put_at_other zero zero b (x ∷ xs) ne = absurd (ne refl)
  get_elem?-put_at_other zero (suc j) b (x ∷ xs) ne = refl
  get_elem?-put_at_other (suc i) zero b (x ∷ xs) ne = refl
  get_elem?-put_at_other (suc i) (suc j) b (x ∷ xs) ne =
      get_elem?-put_at_other i j b xs (λ e. ne (ap suc e))

-- Membership with its position, and predicates on every element.
abbrev pub In : {A : Type 0} → A → List A → Type 0
In a [] = ⊥
In a (x ∷ xs) = (a ≡ x) ⊎ In a xs

module _ {ℓ κ} {A : Type ℓ} where
  abbrev pub All : (A → Type κ) → List A → Type κ
  All P [] = Unit
  All P (x ∷ xs) = P x × All P xs

  pub All-map : {P Q : A → Type κ} (f : (a : A) → P a → Q a) (xs : List A) → All P xs → All Q xs
  All-map f [] h = tt
  All-map f (x ∷ xs) h = (f x h.0, All-map f xs h.1)

-- What holds of every member holds all along the list, and the other way round.
module _ {κ} {A : Type 0} (P : A → Type κ) where
  pub All-of-In : (xs : List A) → ((a : A) → In a xs → P a) → All P xs
  All-of-In [] h = tt
  All-of-In (x ∷ xs) h = (h x (inl refl), All-of-In xs (λ a m. h a (inr m)))

  pub In-All : (a : A) (xs : List A) → All P xs → In a xs → P a
  In-All a (x ∷ xs) h (inl e) = subst P (sym e) h.0
  In-All a (x ∷ xs) h (inr m) = In-All a xs h.1 m
  In-All a [] h m = absurd m

pub In-map : {A B : Type 0} (f : A → B) (a : A) (xs : List A) → In a xs → In (f a) (map f xs)
In-map f a [] m = absurd m
In-map f a (x ∷ xs) (inl e) = inl (ap f e)
In-map f a (x ∷ xs) (inr m) = inr (In-map f a xs m)
