-- ===== src/Health.antt =====
-- modules/health/indicators/indexer-health.indicator.ts: what the health check makes of the status of
-- the event listener. Times are in milliseconds.
pub mod Outage
pub mod Tests
use agrocylo_pip.Prelude.{
  Bool, Option, String, false, if◌then◌else◌, none, not, some, true, ℕ, ◌*◌, ◌≡◌,
}
use agrocylo_pip.Prelude.Int.{ltb_ℤ, pos, sub_ℕ, ℤ}
use agrocylo_pip.Indexer.Listener.Lifecycle.{HealthStatus, started}

abbrev stale_multiplier : ℕ
stale_multiplier = 3

-- `HealthIndicatorResult`, under its key
pub record Report : Type 0 where
  pub key : String
  pub is_up : Bool
  pub message : Option String
  pub enabled : Option Bool
  pub ms_since_last_poll : Option ℤ
  pub staleness_threshold_ms : Option ℕ
  pub last_processed_ledger : ℕ

-- A report, or a `HealthCheckError` with its message and report
pub data Checked : Type 0 where
  reported : Report → Checked
  health_check_error : String → Report → Checked

-- `getStatus` with a message
abbrev get_status : String → Bool → Option String → ℕ → Report
get_status key is_up message ledger = record {
  key = key;
  is_up = is_up;
  message = message;
  enabled = none;
  ms_since_last_poll = none;
  staleness_threshold_ms = none;
  last_processed_ledger = ledger;
}

-- `this.config.get('soroban.eventPollIntervalMs') ?? 5000`
abbrev pub poll_interval_ms : Option ℕ → ℕ
poll_interval_ms none = 5000
poll_interval_ms (some ms) = ms

-- The end of `check`, after a poll at `last`
unfoldable pub check_age : String → ℕ → ℕ → ℕ → ℕ → Checked
check_age key threshold now last ledger =
    let ms = sub_ℕ now last in
    if ltb_ℤ (pos threshold) ms
    then health_check_error "Indexer has stalled"
        (record (get_status key false
          (some "Indexer has stalled — no successful poll within threshold") ledger) {
            ms_since_last_poll = some ms;
            staleness_threshold_ms = some threshold;
          })
    else reported (record (get_status key true none ledger) { ms_since_last_poll = some ms })

unfoldable pub check_poll : String → ℕ → ℕ → Option ℕ → ℕ → Checked
unfolding check_age
check_poll key threshold now none ledger =
    reported (get_status key true (some "Indexer started, awaiting first poll") ledger)
check_poll key threshold now (some last) ledger = check_age key threshold now last ledger

-- `check`, at the time `now`
unfoldable pub check : String → (interval : Option ℕ) → (now : ℕ) → HealthStatus → Checked
unfolding check_poll
check key interval now h =
    if not h.is_enabled
    then reported
        (record (get_status key true (some "Indexer disabled — no Soroban contract IDs configured")
          h.last_processed_ledger) { enabled = some false })
    else if not h.is_running
    then health_check_error "Indexer is not running"
        (get_status key false (some "Indexer is not running") h.last_processed_ledger)
    else check_poll key (stale_multiplier * poll_interval_ms interval) now h.last_successful_poll_at
        h.last_processed_ledger

-- The check passes with a report that says "up".
abbrev pub Passes : Checked → Type 0
Passes (reported r) = r.is_up ≡ true
Passes (health_check_error _ _) = ⊥

-- It throws with a report that says "down".
abbrev pub Fails : Checked → Type 0
Fails (reported _) = ⊥
Fails (health_check_error _ r) = r.is_up ≡ false
