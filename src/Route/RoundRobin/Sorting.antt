-- ===== src/Route/RoundRobin/Sorting.antt =====
-- The sorted priorities of internal/route/routing_strategy.go.
use node_gateway.Base.{
  ℤ, ◌≤ℤ◌, leb_ℤ, ◌≡◌, ◌⊎◌, inl, inr, ◌↔◌, List, [], ◌∷◌, arith, In, All, All-map, Bool-cases,
}
use node_gateway.Route.RoundRobin.{insert_sorted, sort}

abbrev pub IsSorted : List ℤ → Type 0
IsSorted [] = Unit
IsSorted (x ∷ xs) = All (λ y. x ≤ℤ y) xs × IsSorted xs

In-insert_sorted : (q x : ℤ) (xs : List ℤ) → In q (insert_sorted x xs) ↔ ((q ≡ x) ⊎ In q xs)
unfolding insert_sorted
In-insert_sorted q x [] = (λ h. h, λ h. h)
In-insert_sorted q x (y ∷ ys) = ground (arith, In-insert_sorted q x ys)

pub In-sort : (q : ℤ) (xs : List ℤ) → In q (sort xs) ↔ In q xs
unfolding sort
In-sort q [] = (λ h. h, λ h. h)
In-sort q (x ∷ xs) = ground (arith, In-insert_sorted q x (sort xs), In-sort q xs)

All-insert_sorted :
    (z x : ℤ) (xs : List ℤ) → z ≤ℤ x → All (λ y. z ≤ℤ y) xs → All (λ y. z ≤ℤ y) (insert_sorted x xs)
unfolding insert_sorted
All-insert_sorted z x [] h t = (h, tt)
All-insert_sorted z x (y ∷ ys) h t = ground (arith, All-insert_sorted z x ys)

insert_sorted-IsSorted : (x : ℤ) (xs : List ℤ) → IsSorted xs → IsSorted (insert_sorted x xs)
unfolding insert_sorted
insert_sorted-IsSorted x [] s = (tt, tt)
insert_sorted-IsSorted x (y ∷ ys) s = elim (Bool-cases (leb_ℤ x y)) [
  | inl le ↦
      let below : x ≤ℤ y = ground arith in
      rw le ((below, All-map (λ z (h : y ≤ℤ z). le_trans_ℤ x y z below h) ys s.0), s)
  | inr gt ↦ rw gt (All-insert_sorted y x ys (ground arith) s.0, insert_sorted-IsSorted x ys s.1)
]
  where
    le_trans_ℤ : (a b c : ℤ) → a ≤ℤ b → b ≤ℤ c → a ≤ℤ c
    le_trans_ℤ a b c h k = omega arith

pub sort-IsSorted : (xs : List ℤ) → IsSorted (sort xs)
unfolding sort
sort-IsSorted [] = tt
sort-IsSorted (x ∷ xs) = insert_sorted-IsSorted x (sort xs) (sort-IsSorted xs)
