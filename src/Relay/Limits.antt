-- ===== src/Relay/Limits.antt =====
-- internal/relay/limits.go: the limits and the per-minute counter. Times and durations are counts of
-- nanoseconds of one monotonic clock; the limits are natural numbers.
use xessenger_cli.Prelude.{
  ℕ, ◌+◌, ◌-◌, ◌*◌, List, Bool, true, false, ltb, leb, none, some, if◌then◌else◌,
}
use xessenger_cli.Prelude.Assoc.{Map, lookup, insert, delete_if}

pub record Limits : Type 0 where
  pub code_ttl : ℕ
  pub max_pending_codes : ℕ
  pub max_circuits : ℕ
  pub circuit_idle : ℕ
  pub circuit_lifetime : ℕ
  pub circuit_bytes : ℕ
  pub max_conns_per_ip : ℕ
  pub publishes_per_ip_per_min : ℕ
  pub punch_delay : ℕ

abbrev pub millisecond : ℕ
millisecond = 1000000

abbrev pub second : ℕ
second = 1000000000

abbrev pub minute : ℕ
minute = 60000000000

abbrev pub default_limits : Limits
default_limits = record {
  code_ttl = 5 * minute;
  max_pending_codes = 4096;
  max_circuits = 512;
  circuit_idle = 90 * second;
  circuit_lifetime = 720 * minute;
  circuit_bytes = 268435456;
  max_conns_per_ip = 32;
  publishes_per_ip_per_min = 30;
  punch_delay = 250 * millisecond;
}

pub record Window : Type 0 where
  pub count : ℕ
  pub start : ℕ

-- `rateCounter.allow` at the time `now`.
unfoldable pub allow : List ℕ → ℕ → ℕ → ℕ → Map Window → Map Window × Bool
allow key limit per now windows = elim (lookup key windows) [
  | none ↦ (insert key (record { count = 1; start = now }) windows, true)
  | some w ↦
      if ltb per (now - w.start)
      then (insert key (record { count = 1; start = now }) windows, true)
      else if leb limit w.count
      then (windows, false)
      else (insert key (record w { count = w.count + 1 }) windows, true)
]

-- `rateCounter.sweep`
unfoldable pub sweep : ℕ → ℕ → Map Window → Map Window
sweep per now windows = delete_if (λ w. ltb per (now - w.start)) windows
