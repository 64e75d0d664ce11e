-- ===== src/Health/Outage.antt =====
-- The health check while the RPC server is out of reach.
use agrocylo_pip.Store.Client.{Prisma}
use agrocylo_pip.Indexer.Listener.{
  From, Listener, Rpc, fetch_pages, finish_poll, poll_events, poll_from, start_ledger,
}
use agrocylo_pip.Prelude.{
  Bool, List, Option, String, [], ap, arith, false, inl, inr, length, ltb, none, refl, some, true,
  ℕ, ◌*◌, ◌+◌, ◌∙◌, ◌∷◌, ◌≡◌, ◌≢◌, ◌≤◌, ◌⊎◌,
}
use agrocylo_pip.Indexer.Listener.Lifecycle.{HealthStatus, get_health_status}
use agrocylo_pip.Health.{Checked, Fails, Passes, check, check_age, check_poll, poll_interval_ms}

-- The last successful poll is recent enough, or there was none.
abbrev pub IsRecent : (interval now : ℕ) → Option ℕ → Type 0
IsRecent interval now none = Unit {0}
IsRecent interval now (some last) = now ≤ last + 3 * interval

-- What the check asks of a status
abbrev pub IsWell : (interval now : ℕ) → HealthStatus → Type 0
IsWell interval now h =
    (h.is_enabled ≡ false)
    ⊎ ((h.is_running ≡ true) × IsRecent interval now h.last_successful_poll_at)

-- The check passes, and the claim holds; or it throws, and the claim does not hold.
abbrev pub Tells : Type 0 → Checked → Type 0
Tells P c = (P × Passes c) ⊎ ((¬ P) × Fails c)

check_age_lem :
    (key : String) (interval now last ledger : ℕ)
    → Tells (now ≤ last + 3 * interval) (check_age key (3 * interval) now last ledger)
unfolding check_age
check_age_lem key interval now last ledger = ground arith

check_poll_lem :
    (key : String) (interval now ledger : ℕ) (last : Option ℕ)
    → Tells (IsRecent interval now last) (check_poll key (3 * interval) now last ledger)
unfolding check_poll
check_poll_lem key interval now ledger none = inl (tt, refl)
check_poll_lem key interval now ledger (some last) = check_age_lem key interval now last ledger

Tells-IsWell :
    (interval now : ℕ) (h : HealthStatus) (c : Checked)
    → h.is_enabled ≡ true
    → h.is_running ≡ true
    → Tells (IsRecent interval now h.last_successful_poll_at) c
    → Tells (IsWell interval now h) c
Tells-IsWell interval now h c on runs (inl (recent, passes)) = inl (inr (runs, recent), passes)
Tells-IsWell interval now h c on runs (inr (stale, fails)) =
    inr ((λ well. elim well [ inl off ↦ cc | inr (_, recent) ↦ stale recent ]), fails)

check_fields :
    (key : String) (configured : Option ℕ) (now : ℕ) (on runs : Bool) (ledger : ℕ) (last : Option ℕ)
    → let h : HealthStatus = record {
      is_enabled = on;
      is_running = runs;
      last_processed_ledger = ledger;
      last_successful_poll_at = last;
    } in
      Tells (IsWell (poll_interval_ms configured) now h) (check key configured now h)
unfolding check
check_fields key configured now false runs ledger last = inl (inl refl, refl)
check_fields key configured now true false ledger last =
    inr ((λ well. elim well [ inl off ↦ cc | inr (runs, _) ↦ cc ]), refl)
check_fields key configured now true true ledger last =
    Tells-IsWell (poll_interval_ms configured) now
      (record {
        is_enabled = true;
        is_running = true;
        last_processed_ledger = ledger;
        last_successful_poll_at = last;
      })
      _ refl refl (check_poll_lem key (poll_interval_ms configured) now ledger last)

-- `check` answers "up" where the indexer is not enabled, or where it is running and its last
-- successful poll, if there was one, is at most three poll intervals old, of 5000 ms where none is
-- configured. In every other case, and only then, it throws with a report that says "down".
pub check_lem :
    (key : String) (configured : Option ℕ) (now : ℕ) (h : HealthStatus)
    → Tells (IsWell (poll_interval_ms configured) now h) (check key configured now h)
check_lem key configured now h =
    check_fields key configured now h.is_enabled h.is_running h.last_processed_ledger
      h.last_successful_poll_at

-- A poll in which the server reports no ledger, or none after the cursor's, or serves no page
abbrev pub IsFruitless : ℕ → Rpc → Type 0
IsFruitless ledger rpc =
    ((latest : ℕ) → rpc.latest_ledger ≡ some latest → latest ≤ ledger)
    ⊎ ((from : From) → rpc.get_events from ≡ none)

-- Polls one after another, each with the answers of the RPC server and its time
abbrev pub Polls : Type 1
Polls = List (Rpc × ℕ)

abbrev pub AreFruitless : ℕ → Polls → Type 0
AreFruitless ledger [] = Unit {0}
AreFruitless ledger ((rpc, now) ∷ rounds) = IsFruitless ledger rpc × AreFruitless ledger rounds

some_length : (ids : List String) → ids ≢ [] → ltb 0 (length ids) ≡ true
some_length [] h = absurd (h refl)
some_length (id ∷ ids) h = ground arith

module _ (prisma : Prisma) (ids : List String) where
  open prisma use {State}

  abbrev pub polled : Polls → Listener State → Listener State
  polled [] l = l
  polled ((rpc, now) ∷ rounds) l = polled rounds (poll_events prisma rpc ids now l)

  poll_from_fruitless :
      (rpc : Rpc) (now latest : ℕ) (l : Listener State)
      → ((from : From) → rpc.get_events from ≡ none)
      → poll_from prisma rpc ids now latest l ≡ l
  unfolding poll_from fetch_pages finish_poll
  poll_from_fruitless rpc now latest l no_page =
      rw (no_page (start_ledger (l.last_processed_ledger + 1))) refl

  poll_events_fruitless :
      (rpc : Rpc) (now : ℕ) (l : Listener State) (latest : Option ℕ)
      → rpc.latest_ledger ≡ latest
      → IsFruitless l.last_processed_ledger rpc
      → poll_events prisma rpc ids now l ≡ l
  unfolding poll_events
  poll_events_fruitless rpc now l none e f = rw e (ground arith)
  poll_events_fruitless rpc now l (some latest) e (inl no_new) =
      rw e (ground (arith, no_new latest e))
  poll_events_fruitless rpc now l (some latest) e (inr no_page) =
      rw e (ground (arith, poll_from_fruitless rpc now latest l no_page))

  polled_fruitless :
      (rounds : Polls) (l : Listener State)
      → AreFruitless l.last_processed_ledger rounds
      → polled rounds l ≡ l
  polled_fruitless [] l _ = refl
  polled_fruitless ((rpc, now) ∷ rounds) l (f, fs) =
      ap (polled rounds) (poll_events_fruitless rpc now l rpc.latest_ledger refl f)
      ∙ polled_fruitless rounds l fs

  -- A listener that is running for some contract is polled any number of times, and each time the
  -- server reports no ledger, or none after the cursor's, or serves no page. Then `check` answers
  -- "up" where no poll had succeeded before, however long ago it was started; and else as the time
  -- of the last success tells, also where every one of these polls found nothing new to fetch.
  pub fruitless_polls_checked :
      (rounds : Polls) (l : Listener State) (key : String) (configured : Option ℕ) (now : ℕ)
      → ids ≢ []
      → l.is_running ≡ true
      → AreFruitless l.last_processed_ledger rounds
      → Tells
          (IsRecent (poll_interval_ms configured) now l.last_successful_poll_at)
          (check key configured now (get_health_status ids (polled rounds l)))
  unfolding get_health_status check
  fruitless_polls_checked rounds l key configured now some_id runs f =
      rw (polled_fruitless rounds l f) (
        rw (some_length ids some_id) (
          rw runs (
            check_poll_lem key (poll_interval_ms configured) now l.last_processed_ledger
              l.last_successful_poll_at)))
