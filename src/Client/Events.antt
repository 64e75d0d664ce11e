-- ===== src/Client/Events.antt =====
-- lib/soroban/events.ts: the events of the escrow contract, read from the RPC server page by page. The
-- server and `scValToNative` are a parameter, `EventServer`; a call that throws answers `none`.
pub mod Whole
pub mod Tests
use agrocylo_pip.Prelude.{
  List, Option, String, [], false, if◌then◌else◌, length, ltb, none, some, suc, true, zero, ℕ, ◌++◌,
  ◌-◌, ◌||◌, ◌∷◌,
}
use agrocylo_pip.Prelude.Text.{concat, is_blank}
use agrocylo_pip.Prelude.Decimal.{print_ℤ}
use agrocylo_pip.Js.{
  Value, Values, array, at, bigint, boolean, cons, elements, nil, null, number, number_text, object,
  string, undefined,
}

-- An array's element is joined as nothing where it is undefined or null.
abbrev unless_nullish : Value → String → String
unless_nullish undefined s = ""
unless_nullish null s = ""
unless_nullish v s = s

-- `String(v)`
abbrev mutual
  pub string_of : Value → String
  string_of undefined = "undefined"
  string_of null = "null"
  string_of (boolean true) = "true"
  string_of (boolean false) = "false"
  string_of (number n) = number_text n
  string_of (bigint z) = print_ℤ z
  string_of (string s) = s
  string_of (array vs) = joined_values vs
  string_of (object ps) = "[object Object]"

  joined_values : Values → String
  joined_values nil = ""
  joined_values (cons v nil) = unless_nullish v (string_of v)
  joined_values (cons v (cons u vs)) =
      let rest = joined_values (cons u vs) in
      concat (unless_nullish v (string_of v)) (concat "," rest)

pub record EscrowEvent : Type 0 where
  pub id : String
  pub ledger : ℕ
  pub ledger_closed_at : String
  pub campaign_id : String
  pub name : String
  pub values : List Value

pub record RawEvent (ScVal : Type 0) : Type 0 where
  pub id : String
  pub ledger : ℕ
  pub ledger_closed_at : String
  pub topic : List ScVal
  pub value : ScVal

-- `cursor ? { cursor } : { startLedger }`
pub data PageStart : Type 0 where
  start_ledger : ℕ → PageStart
  cursor : String → PageStart

pub record EventPage (ScVal : Type 0) : Type 0 where
  pub events : List (RawEvent ScVal)
  pub cursor : Option String

pub record EventServer : Type 1 where
  pub ScVal : Type 0
  pub sc_val_to_native : ScVal → Option Value
  pub get_latest_ledger : Option ℕ
  pub get_events : PageStart → (limit : ℕ) → Option (EventPage ScVal)

abbrev pub page_limit : ℕ
page_limit = 100

abbrev pub max_pages : ℕ
max_pages = 50

abbrev text_or_empty : Value → String
text_or_empty undefined = ""
text_or_empty null = ""
text_or_empty v = string_of v

abbrev values_of : Value → List Value
values_of (array vs) = elements vs
values_of v = v ∷ []

-- Whether a page is the last: it has no cursor, or an empty one, or is not full.
abbrev pub next_cursor : {ScVal : Type 0} → EventPage ScVal → Option String
next_cursor page =
    if ltb (length page.events) page_limit || is_blank (or_empty page.cursor)
    then none
    else page.cursor
  where
    or_empty : Option String → String
    or_empty none = ""
    or_empty (some c) = c

module _ (server : EventServer) where
  open server use {ScVal, sc_val_to_native}

  abbrev pub natives : List ScVal → Option (List Value)
  natives [] = some []
  natives (t ∷ ts) = elim (sc_val_to_native t) [
    | none ↦ none
    | some v ↦ elim (natives ts) [ none ↦ none | some vs ↦ some (v ∷ vs) ]
  ]

  abbrev event_of : RawEvent ScVal → List Value → Value → EscrowEvent
  event_of raw topics value = record {
    id = raw.id;
    ledger = raw.ledger;
    ledger_closed_at = raw.ledger_closed_at;
    campaign_id = text_or_empty (at topics 1);
    name = text_or_empty (at topics 0);
    values = values_of value;
  }

  abbrev pub decode_event : RawEvent ScVal → Option EscrowEvent
  decode_event raw = elim (natives raw.topic) [
    | none ↦ none
    | some topics ↦ elim (sc_val_to_native raw.value) [
      | none ↦ none
      | some value ↦ some (event_of raw topics value)
    ]
  ]

  -- `for (const event of response.events)`
  unfoldable pub decode_all : List (RawEvent ScVal) → Option (List EscrowEvent)
  decode_all [] = some []
  decode_all (raw ∷ raws) = elim (decode_event raw) [
    | none ↦ none
    | some e ↦ elim (decode_all raws) [ none ↦ none | some es ↦ some (e ∷ es) ]
  ]

  -- What follows a page, with the rest of the loop
  abbrev pub continued :
      (rest : String → List EscrowEvent → Option (List EscrowEvent))
      → List EscrowEvent
      → (next : Option String) → Option (List EscrowEvent)
  continued rest events none = some events
  continued rest events (some c) = rest c events

  abbrev pub with_new :
      (rest : String → List EscrowEvent → Option (List EscrowEvent))
      → List EscrowEvent
      → (next : Option String) → Option (List EscrowEvent)
      → Option (List EscrowEvent)
  with_new rest events next none = none
  with_new rest events next (some new) = continued rest (events ++ new) next

  abbrev pub with_page :
      (rest : String → List EscrowEvent → Option (List EscrowEvent))
      → List EscrowEvent
      → Option (EventPage ScVal)
      → Option (List EscrowEvent)
  with_page rest events none = none
  with_page rest events (some page) =
      with_new rest events (next_cursor page) (decode_all page.events)

  -- `for (let page = 0; page < MAX_PAGES; page += 1)`, by the pages left
  unfoldable pub fetch_pages :
      (pages : ℕ) → PageStart → List EscrowEvent → Option (List EscrowEvent)
  unfolding decode_all
  fetch_pages zero from events = some events
  fetch_pages (suc pages) from events =
      with_page (λ c es. fetch_pages pages (cursor c) es) events (server.get_events from page_limit)

  unfoldable pub fetch_escrow_events : (start_ledger : ℕ) → Option (List EscrowEvent)
  unfolding fetch_pages
  fetch_escrow_events start = fetch_pages max_pages (start_ledger start) []

  abbrev start_of : (latest lookback : ℕ) → ℕ
  start_of latest lookback = if ltb 1 (latest - lookback) then latest - lookback else 1

  unfoldable pub load_recent_escrow_events : (lookback_ledgers : ℕ) → Option (List EscrowEvent)
  load_recent_escrow_events lookback = elim server.get_latest_ledger [
    | none ↦ none
    | some latest ↦ fetch_escrow_events (start_of latest lookback)
  ]
