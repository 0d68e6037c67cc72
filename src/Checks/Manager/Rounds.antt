-- ===== src/Checks/Manager/Rounds.antt =====
-- internal/checks/manager.go: what a round leaves and sends, upstream by upstream.
use mathlib.Core.List.{append-nil}
use mathlib.Core.Bool.{true≢false}
use node_gateway.Base.{
  String, Bool, ◌≡◌, refl, sym, ap, ◌∙◌, true, false, List, [], ◌∷◌, ◌++◌, map, Option, none, some,
  ◌>>=◌, lookup-insert, In, inl, inr, All, any, ◌==◌, string_eq, if◌then◌else◌, eq_iff, subst,
  if_false, Bool-not, Bool-cases,
}
use node_gateway.Config.{UpstreamConfig}
use node_gateway.Config.Validation.Spec.{IsDistinct}
use node_gateway.Metadata.Store.{Op}
use node_gateway.Metadata.Interleaving.{upstream, sent_by, sent_by-append, sent_by-All}
use node_gateway.Checks.BlockHeight.Sending.{run_check-upstream}
use node_gateway.Checks.Manager.{
  UpstreamStatus, HealthCheckManager, Replies, get_upstream_status, set_upstream_status, run_checks,
  run_checks_on,
}

abbrev pub ids : List UpstreamConfig → List String
ids cs = map (λ (c : UpstreamConfig). c.id) cs

abbrev pub is_listed : String → List UpstreamConfig → Bool
is_listed id cs = any (λ (c : UpstreamConfig). c.id == id) cs

is_listed-In : (id : String) (cs : List UpstreamConfig) → is_listed id cs ≡ true → In id (ids cs)
is_listed-In id [] h = cc
is_listed-In id (c ∷ cs) h = elim (Bool-cases (c.id == id)) [
  | inl here ↦ inl (sym ((eq_iff c.id id).0 here))
  | inr there ↦ inr (is_listed-In id cs (rw there at h))
]

module _ {S : Type 0} where
  -- The manager has a status for the upstream, whose block height check is its own.
  abbrev pub IsOwn : String → HealthCheckManager S → Type 0
  IsOwn id m =
      (s : UpstreamStatus S) × (get_upstream_status id m ≡ some s)
      × (s.block_height_check.upstream_config.id ≡ id)

  -- What a round over `cs` leaves as the status of an upstream, and what it sends for it.
  abbrev pub after :
      (String → Replies)
      → List UpstreamConfig
      → String
      → HealthCheckManager S
      → Option (UpstreamStatus S)
  after replies cs id m =
      if is_listed id cs
      then (get_upstream_status id m >>= λ (s : UpstreamStatus S).
          some (run_checks (replies id) s).0)
      else get_upstream_status id m

  abbrev pub ops_of : Replies → Option (UpstreamStatus S) → List Op
  ops_of r none = []
  ops_of r (some s) = (run_checks r s).1

  abbrev pub sent_for :
      (String → Replies) → List UpstreamConfig → String → HealthCheckManager S → List Op
  sent_for replies cs v m =
      if is_listed v cs then ops_of (replies v) (get_upstream_status v m) else []

  abbrev pub Round : (String → Replies) → List UpstreamConfig → HealthCheckManager S → Type 0
  Round replies cs m =
      (m' : HealthCheckManager S) × (sent : List Op) × (run_checks_on replies cs m
        ≡ some (m', sent))
      × ((id : String) → get_upstream_status id m' ≡ after replies cs id m)
      × ((v : String) → sent_by v sent ≡ sent_for replies cs v m)

  pub get-set :
      (id j : String) (s : UpstreamStatus S) (m : HealthCheckManager S)
      → get_upstream_status id (set_upstream_status j s m)
        ≡ (if j == id then some s else get_upstream_status id m)
  unfolding get_upstream_status set_upstream_status
  get-set id j s m = lookup-insert j id s m.upstream_id_to_status

  run_checks-upstream :
      (r : Replies) (s : UpstreamStatus S)
      → All (λ a. upstream a ≡ s.block_height_check.upstream_config.id) (run_checks r s).1
  unfolding run_checks
  run_checks-upstream r s = run_check-upstream r.http_dial r.header s.block_height_check

  -- One upstream ahead of others: what its checks leave and send is kept by their round.
  module _ (replies : String → Replies) (c : UpstreamConfig) (cs : List UpstreamConfig)
      (m : HealthCheckManager S) (s : UpstreamStatus S)
      (found : get_upstream_status c.id m ≡ some s)
      (its : s.block_height_check.upstream_config.id ≡ c.id)
      (unlisted : is_listed c.id cs ≡ false) where
    abbrev checked : UpstreamStatus S × List Op
    checked = run_checks (replies c.id) s

    abbrev next : HealthCheckManager S
    next = set_upstream_status c.id checked.0 m

    next-other :
        (id : String)
        → (c.id == id) ≡ false
        → get_upstream_status id next ≡ get_upstream_status id m
    next-other id there = get-set id c.id checked.0 m ∙ if_false _ _ there

    next-IsOwn :
        ((id : String) → is_listed id (c ∷ cs) ≡ true → IsOwn id m)
        → (id : String) → is_listed id cs ≡ true
        → IsOwn id next
    next-IsOwn own id h = elim (Bool-cases (c.id == id)) [
      | inl here ↦ absurd (
          true≢false
            (sym h ∙ subst (λ j. is_listed j cs ≡ false) ((eq_iff c.id id).0 here) unlisted))
      | inr there ↦ let (t, e, i) = own id (rw there h) in (t, next-other id there ∙ e, i)
    ]

    after-next : (id : String) → after replies cs id next ≡ after replies (c ∷ cs) id m
    after-next id = elim (Bool-cases (c.id == id)) [
      | inl here ↦
          subst (λ j. after replies cs j next ≡ after replies (c ∷ cs) j m)
            ((eq_iff c.id id).0 here) self
      | inr there ↦ rw (there, next-other id there) refl
    ]
      where
        self : after replies cs c.id next ≡ after replies (c ∷ cs) c.id m
        self =
            rw
              (
                unlisted,
                (eq_iff c.id c.id).1 refl,
                found,
                get-set c.id c.id checked.0 m,
                (eq_iff c.id c.id).1 refl,
              )
              refl

    sent-next :
        (v : String)
        → sent_by v checked.1 ++ sent_for replies cs v next ≡ sent_for replies (c ∷ cs) v m
    sent-next v = elim (Bool-cases (c.id == v)) [
      | inl here ↦
          subst
            (λ j. sent_by j checked.1 ++ sent_for replies cs j next ≡ sent_for replies (c ∷ cs) j m)
            ((eq_iff c.id v).0 here) self
      | inr there ↦ rw (named v, if_false {A = List Op} _ _ there, there, next-other v there) refl
    ]
      where
        named : (j : String) → sent_by j checked.1 ≡ (if c.id == j then checked.1 else [])
        named j = sent_by-All c.id j checked.1 (
            subst (λ u. All (λ a. upstream a ≡ u) checked.1) its
              (run_checks-upstream (replies c.id) s))

        self :
            sent_by c.id checked.1 ++ sent_for replies cs c.id next
            ≡ sent_for replies (c ∷ cs) c.id m
        self = rw (named c.id, (eq_iff c.id c.id).1 refl, unlisted, found) (append-nil checked.1)

  pub run_checks_on-Round :
      (replies : String → Replies) (cs : List UpstreamConfig) (m : HealthCheckManager S)
      → IsDistinct (ids cs)
      → ((id : String) → is_listed id cs ≡ true → IsOwn id m)
      → Round replies cs m
  unfolding run_checks_on
  run_checks_on-Round replies [] m apart own = (m, [], refl, λ id. refl, λ v. refl)
  run_checks_on-Round replies (c ∷ cs) m (fresh, apart) own =
      let (s, found, its) = own c.id (rw ((eq_iff c.id c.id).1 refl) refl) in
      let unlisted : is_listed c.id cs ≡ false = Bool-not (λ h. fresh (is_listed-In c.id cs h)) in
      let (m', sent, ran, known, named) =
        run_checks_on-Round replies cs (next replies c cs m s found its unlisted) apart
          (next-IsOwn replies c cs m s found its unlisted own) in
      (
        m',
        (run_checks (replies c.id) s).1 ++ sent,
        rw (run_checks_on, found, ran) refl,
        λ id. known id ∙ after-next replies c cs m s found its unlisted id,
        λ v.
            sent_by-append v (run_checks (replies c.id) s).1 sent
            ∙ ap (λ l. sent_by v (run_checks (replies c.id) s).1 ++ l) (named v)
            ∙ sent-next replies c cs m s found its unlisted v,
      )
