-- ===== src/Route/Router/Serving.antt =====
-- Which upstreams stand in the maps of internal/route: in what filtering keeps, and in the grouped map.
use node_gateway.Base.{
  ℕ, ℤ, zero, suc, ◌≡◌, ◌≢◌, ◌⊎◌, refl, sym, ◌∙◌, subst, inl, inr, Bool, true, false, List, [], ◌∷◌,
  ◌++◌, Option, none, some, arith, ◌==◌, int_eq, int_beq_iff, if◌then◌else◌, if_true, is_empty,
  length, get_elem?, In, All, ◌>>=◌ as bind, Bool-cases,
}
use node_gateway.Config.{UpstreamConfig, GroupConfig}
use node_gateway.Metadata.Parser.{RequestMetadata}
use node_gateway.Route.World.{PriorityToUpstreamsMap}
use node_gateway.Route.Filter.{Filters}
use node_gateway.Route.Filter.View.{View, verdict_all}
use node_gateway.Route.Filtering.Kept.{passing, passing_by_priority}
use node_gateway.Route.RoundRobin.{at_priority}
use node_gateway.Route.Router.{priority_of, append_at, group_from}

-- The upstream stands in the list of some priority.
abbrev pub Serves : UpstreamConfig → PriorityToUpstreamsMap → Type 0
Serves u [] = ⊥
Serves u ((p, us) ∷ m) = In u us ⊎ Serves u m

pub In-get_elem? :
    (us : List UpstreamConfig) (i : ℕ) (u : UpstreamConfig) → get_elem? us i ≡ some u → In u us
In-get_elem? [] i u e = ground arith
In-get_elem? (x ∷ us) zero u e = ground arith
In-get_elem? (x ∷ us) (suc i) u e = inr (In-get_elem? us i u e)

pub Serves-at_priority :
    (p : ℤ) (u : UpstreamConfig) (m : PriorityToUpstreamsMap) → In u (at_priority p m) → Serves u m
unfolding at_priority
Serves-at_priority p u [] h = h
Serves-at_priority p u ((q, us) ∷ m) h = elim (Bool-cases (q == p)) [
  | inl e ↦ inl (subst (λ (b : Bool). In u (if b then us else at_priority p m)) e h)
  | inr e ↦ inr (
      Serves-at_priority p u m (subst (λ (b : Bool). In u (if b then us else at_priority p m)) e h))
]

-- What holds of the value, if there is one.
abbrev pub Every : {A : Type 0} → (A → Type 0) → Option A → Type 0
Every P none = Unit
Every P (some a) = P a

Every-bind :
    {A B : Type 0} (P : A → Type 0) (Q : B → Type 0) (o : Option A) (f : A → Option B)
    → Every P o
    → ((a : A) → P a → Every Q (f a))
    → Every Q (bind o f)
Every-bind P Q none f h k = tt
Every-bind P Q (some a) f h k = k a h

anything : {A : Type 0} (o : Option A) → Every (λ _. Unit {0}) o
anything none = tt
anything (some a) = tt

-- Each list of the map has upstreams, and its upstreams are among those of the other map.
pub record IsPart (m chosen : PriorityToUpstreamsMap) : Type 0 where
  pub is_within : (u : UpstreamConfig) → Serves u chosen → Serves u m
  pub are_used : All (λ (e : ℤ × List UpstreamConfig). e.1 ≢ []) chosen

module _ (v : View) (fs : Filters) (request : RequestMetadata) where
  passing-within :
      (n : ℕ) (us : List UpstreamConfig)
      → Every (λ kept. (u : UpstreamConfig) → In u kept → In u us) (passing v fs request n us)
  unfolding passing
  passing-within n [] = λ u h. h
  passing-within n (x ∷ us) =
      Every-bind (λ _. Unit {0}) _ (verdict_all v request x n fs) _ (anything _)
        λ ok _.
          Every-bind (λ kept. (u : UpstreamConfig) → In u kept → In u us) _
            (passing v fs request n us) _ (passing-within n us) λ rest inside. kept ok rest inside
    where
      kept :
          (ok : Bool) (rest : List UpstreamConfig)
          → ((u : UpstreamConfig) → In u rest → In u us)
          → (u : UpstreamConfig) → In u (if ok then x ∷ rest else rest)
          → In u (x ∷ us)
      kept true rest inside u (inl e) = inl e
      kept true rest inside u (inr h) = inr (inside u h)
      kept false rest inside u h = inr (inside u h)

  pub passing_by_priority-IsPart :
      (m : PriorityToUpstreamsMap) → Every (IsPart m) (passing_by_priority v fs request m)
  unfolding passing_by_priority
  passing_by_priority-IsPart [] = record { is_within = λ u h. h; are_used = tt }
  passing_by_priority-IsPart ((p, us) ∷ m) =
      Every-bind (λ kept. (u : UpstreamConfig) → In u kept → In u us) _
        (passing v fs request (length us) us) _ (passing-within (length us) us)
        λ kept inside.
          Every-bind (IsPart m) _ (passing_by_priority v fs request m) _
            (passing_by_priority-IsPart m) λ rest part. added kept inside rest part
    where
      added :
          (kept : List UpstreamConfig)
          → ((u : UpstreamConfig) → In u kept → In u us)
          → (rest : PriorityToUpstreamsMap) → IsPart m rest
          → IsPart ((p, us) ∷ m) (if is_empty kept then rest else (p, kept) ∷ rest)
      added [] inside rest part = record {
        is_within = λ u h. inr (part.is_within u h);
        are_used = part.are_used;
      }
      added (x ∷ kept) inside rest part = record {
        is_within = λ u h. elim h [ inl i ↦ inl (inside u i) | inr i ↦ inr (part.is_within u i) ];
        are_used = (λ e. ground arith, part.are_used);
      }

-- A map that is used somewhere has a priority whose list is not empty.
unfoldable pub IsUsed : PriorityToUpstreamsMap → Type 0
IsUsed m = (p : ℤ) × (at_priority p m ≢ [])

pub IsPart-IsUsed :
    (m chosen : PriorityToUpstreamsMap) → IsPart m chosen → chosen ≢ [] → IsUsed chosen
unfolding IsUsed at_priority
IsPart-IsUsed m [] part n = absurd (n refl)
IsPart-IsUsed m ((p, us) ∷ rest) part n = (p, λ e. part.are_used.0 (sym here ∙ e))
  where
    here : (if p == p then us else at_priority p rest) ≡ us
    here = if_true _ _ ((int_beq_iff p p).1 refl)

In-snoc :
    (u x : UpstreamConfig) (us : List UpstreamConfig) → In u (us ++ x ∷ []) → In u us ⊎ (u ≡ x)
In-snoc u x [] (inl e) = inr e
In-snoc u x [] (inr h) = absurd h
In-snoc u x (y ∷ us) (inl e) = inl (inl e)
In-snoc u x (y ∷ us) (inr h) = elim (In-snoc u x us h) [ inl i ↦ inl (inr i) | inr e ↦ inr e ]

Serves-append_at :
    (p : ℤ) (u x : UpstreamConfig) (m : PriorityToUpstreamsMap)
    → Serves u (append_at p x m)
    → Serves u m ⊎ (u ≡ x)
unfolding append_at
Serves-append_at p u x [] (inl (inl e)) = inr e
Serves-append_at p u x [] (inl (inr h)) = absurd h
Serves-append_at p u x [] (inr h) = absurd h
Serves-append_at p u x ((q, us) ∷ m) h = by_test (Serves-append_at p u x m) (q == p) h
  where
    by_test :
        (Serves u (append_at p x m) → Serves u m ⊎ (u ≡ x))
        → (b : Bool) → Serves u (if b then (q, us ++ x ∷ []) ∷ m else (q, us) ∷ append_at p x m)
        → Serves u ((q, us) ∷ m) ⊎ (u ≡ x)
    by_test later true (inl i) = elim (In-snoc u x us i) [ inl j ↦ inl (inl j) | inr e ↦ inr e ]
    by_test later true (inr i) = inl (inr i)
    by_test later false (inl i) = inl (inl i)
    by_test later false (inr i) = elim (later i) [ inl j ↦ inl (inr j) | inr e ↦ inr e ]

pub Serves-group_from :
    (groups : List GroupConfig) (u : UpstreamConfig) (m : PriorityToUpstreamsMap)
    (us : List UpstreamConfig)
    → Serves u (group_from groups m us)
    → Serves u m ⊎ In u us
unfolding group_from
Serves-group_from groups u m [] h = inl h
Serves-group_from groups u m (x ∷ us) h =
    elim (Serves-group_from groups u (append_at (priority_of groups x.group_id) x m) us h) [
      | inl i ↦ elim (Serves-append_at (priority_of groups x.group_id) u x m i) [
        | inl j ↦ inl j
        | inr e ↦ inr (inl e)
      ]
      | inr i ↦ inr (inr i)
    ]
