-- ===== src/Config/Defaults/Errors.antt =====
-- The pointers of the error configurations while internal/config/config.go initializes them.
use node_gateway.Base.{ℕ, ◌≡◌, refl, ◌++◌, Option, none, some, Bool-cases, inl, inr, ◌⊎◌}
use node_gateway.Config.{ErrorsConfig, default_error_rate}
use node_gateway.Config.Pointers.{
  Heap, put_errors, is_zero, initialize_errors, merge_errors, sort_and_remove_duplicates,
}
use node_gateway.Config.Defaults.Safety.{IsErrors, Keeps, Keeps-refl, put_at-stays}

abbrev pub IsGlobalErrors : Option ℕ → Heap → Type 0
IsGlobalErrors global h = (global ≡ none) ⊎ ((q : ℕ) × (global ≡ some q) × IsErrors q h)

pub IsGlobalErrors-kept :
    (global : Option ℕ) (h h' : Heap)
    → Keeps h h'
    → IsGlobalErrors global h
    → IsGlobalErrors global h'
IsGlobalErrors-kept global h h' kept (inl e) = inl e
IsGlobalErrors-kept global h h' kept (inr (q, e, l)) = inr (q, e, kept.1 q l)

put_errors-Keeps : (p : ℕ) (c : ErrorsConfig) (h : Heap) → Keeps h (put_errors p c h)
put_errors-Keeps p c h = (λ i l. l, λ i l. put_at-stays p i c l.0 h.errors l.1)

pub initialize_errors-runs :
    (p : ℕ) (global : Option ℕ) (h : Heap)
    → IsErrors p h
    → IsGlobalErrors global h
    → (h' : Heap) × (initialize_errors p global h ≡ some h') × Keeps h h'
unfolding initialize_errors
initialize_errors-runs p global h (c, found) (inl e) = elim (Bool-cases (is_zero c.rate)) [
  | inl unset ↦ (
    put_errors p (record c { rate = default_error_rate }) h,
    rw (e, initialize_errors, found, unset) refl,
    put_errors-Keeps p _ h,
  )
  | inr set ↦ (h, rw (e, initialize_errors, found, set) refl, Keeps-refl h)
]
initialize_errors-runs p global h (c, found) (inr (q, e, (g, found_g))) =
    elim (Bool-cases (is_zero c.rate)) [
      | inl unset ↦ (
        put_errors p (record c { rate = g.rate }) h,
        rw (e, initialize_errors, found, found_g, unset) refl,
        put_errors-Keeps p _ h,
      )
      | inr set ↦ (h, rw (e, initialize_errors, found, found_g, set) refl, Keeps-refl h)
    ]

pub merge_errors-runs :
    (p : ℕ) (global : Option ℕ) (h : Heap)
    → IsErrors p h
    → IsGlobalErrors global h
    → (h' : Heap) × (merge_errors p global h ≡ some h') × Keeps h h'
unfolding merge_errors
merge_errors-runs p global h l (inl e) = (h, rw e refl, Keeps-refl h)
merge_errors-runs p global h (c, found) (inr (q, e, (g, found_g))) = (
  put_errors p
      (record c {
        http_codes = sort_and_remove_duplicates (c.http_codes ++ g.http_codes);
        json_rpc_codes = sort_and_remove_duplicates (c.json_rpc_codes ++ g.json_rpc_codes);
        error_strings = sort_and_remove_duplicates (c.error_strings ++ g.error_strings);
      })
      h,
  rw (e, merge_errors, found, found_g) refl,
  put_errors-Keeps p _ h,
)
