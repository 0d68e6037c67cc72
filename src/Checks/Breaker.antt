-- ===== src/Checks/Breaker.antt =====
-- internal/checks/common.go, and the circuit breaker of failsafe-go that it configures.
use node_gateway.Base.{
  ℕ, zero, suc, pos, ◌+◌, ◌-◌, ◌*◌, ◌/◌, ◌%◌, ◌^◌, ◌≤ℤ◌, ltb_ℤ, ltb, Bool, not, ◌&&◌, ◌||◌, ◌==◌,
  nat_eq, if◌then◌else◌, Option, none, some,
}
use node_gateway.Config.{
  Duration, Float64, finite, RoutingConfig, ErrorsConfig, LatencyConfig, default_detection_window,
  default_ban_window,
}

-- circuitbreaker.CircuitBreaker of failsafe-go: a state `S` and its operations at a time in
-- nanoseconds. `unspecified_percent` is what the platform makes of a float64 that does not fit a
-- uint, which Go leaves open.
pub record CircuitBreaker (S : Type 0) : Type 0 where
  pub new : (percent min_requests : ℕ) (window delay : Duration) → S
  pub record_failure : ℕ → S → S
  pub record_success : ℕ → S → S
  pub remaining_delay : ℕ → S → Duration
  pub close : ℕ → S → S
  pub unspecified_percent : Float64 → ℕ

-- A breaker that is closed has no delay left: closing one whose delay is over does not start one.
abbrev pub ClosesForGood : {S : Type 0} → CircuitBreaker S → Type 0
ClosesForGood {S} b =
    (now : ℕ) (s : S)
    → b.remaining_delay now s ≤ℤ pos 0
    → b.remaining_delay now (b.close now s) ≤ℤ pos 0

abbrev pub min_num_requests_for_rate : ℕ
min_num_requests_for_rate = 3

unfoldable pub bit_length : ℕ → ℕ → ℕ
bit_length zero n = 0
bit_length (suc fuel) n = let rest = bit_length fuel (n / 2) in if n == 0 then 0 else suc rest

-- Rounding to the 53 bits of a float64, to the nearest and ties to even. `n` has fewer than 2200
-- bits: it is below 100 * 2 ^ 1024 * 2 ^ 1074.
unfoldable pub round_to_float : ℕ → ℕ
unfolding bit_length
round_to_float n =
    let shift = bit_length 2200 n - 53 in
    let unit = 2 ^ shift in
    let q = n / unit in
    let r = n % unit in
    let up = ltb unit (2 * r) || (unit == 2 * r && (not (shift == 0) && q % 2 == 1)) in
    if up then (q + 1) * unit else q * unit

-- `uint(math.Floor(errorRate*PercentPerFrac))` at the rate n / 2 ^ 1074.
unfoldable pub percent_of : ℕ → ℕ
unfolding round_to_float
percent_of n = round_to_float (n * 100) / 2 ^ 1074

unfoldable pub error_percent : (Float64 → ℕ) → Float64 → ℕ
unfolding percent_of
error_percent unspecified (finite (pos n)) =
    if ltb (percent_of n) (2 ^ 64) then percent_of n else unspecified (finite (pos n))
error_percent unspecified rate = unspecified rate

module _ {S : Type 0} ⦃b : CircuitBreaker S⦄ where
  unfoldable pub new_circuit_breaker : Float64 → Duration → Duration → S
  unfolding error_percent
  new_circuit_breaker error_rate detection_window ban_window =
      b.new (error_percent b.unspecified_percent error_rate) min_num_requests_for_rate
        detection_window ban_window

  -- `IsOpen` of ErrorStats and of LatencyStats: the answer, and the breaker afterwards.
  unfoldable pub is_open : ℕ → S → Bool × S
  is_open now s =
      let open? = ltb_ℤ (pos 0) (b.remaining_delay now s) in
      (open?, if open? then s else b.close now s)

-- A nil routing config, or a nil field, gives the default.
unfoldable pub get_detection_window : Option (RoutingConfig ErrorsConfig LatencyConfig) → Duration
get_detection_window none = default_detection_window
get_detection_window (some r) = elim r.detection_window [
  | none ↦ default_detection_window
  | some d ↦ d
]

unfoldable pub get_ban_window : Option (RoutingConfig ErrorsConfig LatencyConfig) → Duration
get_ban_window none = default_ban_window
get_ban_window (some r) = elim r.ban_window [ none ↦ default_ban_window | some d ↦ d ]
