-- ===== src/Indexer/Listener/Lifecycle.antt =====
-- The start and the stop of indexer/soroban-event-listener.service.ts, and what it tells the health
-- check. The timer of `setInterval` is a flag: whether polls are being started.
use agrocylo_pip.Prelude.{
  Bool, List, Option, String, [], false, if◌then◌else◌, length, ltb, none, some, suc, true, zero, ℕ,
  ◌-◌, ◌∷◌,
}
use agrocylo_pip.Prelude.Text.{is_blank}
use agrocylo_pip.Indexer.Listener.{Listener, Rpc}
use agrocylo_pip.Store.Tables.{IndexerCursor}
use agrocylo_pip.Store.Client.{Prisma}
use agrocylo_pip.Store.Action.{
  Action, Outcome, call_refused, find_cursors, pure, returned, threw, ◌>>=◌,
}

-- `[production, escrow].filter((id) => !!id && id.length > 0)`
abbrev pub present : List (Option String) → List String
present [] = []
present (none ∷ ids) = present ids
present (some id ∷ ids) = let rest = present ids in if is_blank id then rest else id ∷ rest

unfoldable pub get_contract_ids : (production escrow : Option String) → List String
get_contract_ids production escrow = present (production ∷ escrow ∷ [])

-- `Math.min(...rows.map((row) => row.lastProcessedLedger))`, of a first row and others
abbrev pub least : ℕ → List IndexerCursor → ℕ
least n [] = n
least n (r ∷ rs) = let m = r.last_processed_ledger in least (if ltb m n then m else n) rs

-- `startLedgerOverride && startLedgerOverride > 0`
abbrev positive : Option ℕ → Option ℕ
positive none = none
positive (some zero) = none
positive (some (suc n)) = some (suc n)

abbrev latest_or_throw : {S : Type 0} → Option ℕ → Action S ℕ
latest_or_throw none s = (threw (call_refused "getLatestLedger"), s)
latest_or_throw (some n) s = (returned n, s)

-- `!rpcUrl`
abbrev is_blank_or_missing : Option String → Bool
is_blank_or_missing none = true
is_blank_or_missing (some url) = is_blank url

-- The listener with its timer
pub record Service (Db : Type 0) : Type 0 where
  pub listener : Listener Db
  pub is_polling : Bool

-- `getHealthStatus`
pub record HealthStatus : Type 0 where
  pub is_enabled : Bool
  pub is_running : Bool
  pub last_processed_ledger : ℕ
  pub last_successful_poll_at : Option ℕ

unfoldable pub get_health_status : {Db : Type 0} → List String → Listener Db → HealthStatus
get_health_status ids l = record {
  is_enabled = ltb 0 (length ids);
  is_running = l.is_running;
  last_processed_ledger = l.last_processed_ledger;
  last_successful_poll_at = l.last_successful_poll_at;
}

module _ (prisma : Prisma) (rpc : Rpc) where
  open prisma use {State}

  -- What `loadCursor` makes of the rows
  unfoldable pub cursor_from : Option ℕ → List IndexerCursor → Action State ℕ
  cursor_from start (r ∷ rs) = pure (least r.last_processed_ledger rs)
  cursor_from start [] = elim (positive start) [
    | some n ↦ pure (n - 1)
    | none ↦ latest_or_throw rpc.latest_ledger
  ]

  unfoldable pub load_cursor : List String → Option ℕ → Action State ℕ
  unfolding cursor_from
  load_cursor [] start = pure 0
  load_cursor (id ∷ ids) start = do rows ← find_cursors prisma (id ∷ ids); cursor_from start rows

  -- What `startListening` does with the outcome of `loadCursor`
  unfoldable pub started : Service State → Outcome ℕ × State → Outcome (Unit {0}) × Service State
  started v (returned ledger, db) = (
    returned tt,
    record {
      listener = record (v.listener) {
        last_processed_ledger = ledger;
        progress = record (v.listener.progress) { db = db };
      };
      is_polling = true;
    },
  )
  started v (threw x, db) = (
    threw x,
    record v {
      listener = record (v.listener) { progress = record (v.listener.progress) { db = db } };
    },
  )

  unfoldable pub start_listening :
      List String → Option ℕ → Service State → Outcome (Unit {0}) × Service State
  unfolding started
  start_listening ids start v =
      if v.listener.is_running
      then (returned tt, v)
      else started (record v { listener = record (v.listener) { is_running = true } })
          (load_cursor ids start v.listener.progress.db)

  unfoldable pub stop_listening : Service State → Service State
  stop_listening v = record {
    listener = record (v.listener) { is_running = false };
    is_polling = false;
  }

  -- `onModuleInit`: nothing where no contract is configured, an error without an RPC address
  unfoldable pub on_module_init :
      List String → Option String → Option ℕ → Service State → Outcome (Unit {0}) × Service State
  on_module_init [] rpc_url start v = (returned tt, v)
  on_module_init (id ∷ ids) rpc_url start v =
      if is_blank_or_missing rpc_url
      then (threw (call_refused "SOROBAN_RPC_URL is required"), v)
      else start_listening (id ∷ ids) start v
