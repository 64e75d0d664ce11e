-- ===== src/Client/Events/Tests.antt =====
-- A server with 120 events, whose cursors are as long as what lies before them.
use agrocylo_pip.Prelude.{
  List, String, [], ap, arith, drop, false, refl, some, suc, take, zero, ℕ, ◌+◌, ◌-◌, ◌∷◌, ◌≡◌,
}
use agrocylo_pip.Prelude.Int.{pos}
use agrocylo_pip.Prelude.Text.{concat, is_blank}
use agrocylo_pip.Prelude.Decimal.{print_ℤ}
use agrocylo_pip.Js.{Value, array, bigint, cons, nil, null, string}
use agrocylo_pip.Client.Events.{
  EscrowEvent, EventPage, EventServer, PageStart, RawEvent, cursor, decode_all, fetch_escrow_events,
  page_limit, start_ledger,
}
use agrocylo_pip.Client.Events.Whole.{ServesAll, fetch_escrow_events_whole}

abbrev created_event : RawEvent Value
created_event = record {
  id = "0000000001-1";
  ledger = 12;
  ledger_closed_at = "2026-07-15T10:00:00Z";
  topic = string "CampaignCreated" ∷ bigint (pos 7) ∷ [];
  value = array (cons (string "GFARMER") (cons null nil));
}

abbrev repeated : ℕ → List (RawEvent Value)
repeated zero = []
repeated (suc n) = created_event ∷ repeated n

abbrev marks : ℕ → String
marks zero = "|"
marks (suc n) = concat "|" (marks n)

abbrev marks_of : String → ℕ
marks_of String.[] = 0
marks_of (String.◌∷◌ c s) = suc (marks_of s)

marks_of-marks : (n : ℕ) → marks_of (marks n) ≡ suc n
marks_of-marks zero = refl
marks_of-marks (suc n) = ap suc (marks_of-marks n)

marks_before : (n : ℕ) → marks_of (marks n) - 1 ≡ n
marks_before n = omega (arith, marks_of-marks n)

abbrev page_from : ℕ → EventPage Value
page_from n = record {
  events = take page_limit (drop n (repeated 120));
  cursor = some (marks (n + page_limit));
}

abbrev answer_from : PageStart → EventPage Value
answer_from (start_ledger l) = page_from 0
answer_from (cursor c) = page_from (marks_of c - 1)

abbrev two_pages : EventServer
two_pages = record {
  ScVal = Value;
  sc_val_to_native = λ v. some v;
  get_latest_ledger = some 20;
  get_events = λ from limit. some (answer_from from);
}

marks_filled : (n : ℕ) → is_blank (marks n) ≡ false
marks_filled zero = refl
marks_filled (suc n) = refl

two_pages_serves : ServesAll two_pages 1 (repeated 120)
two_pages_serves = record {
  cursor_after = marks;
  page = page_from;
  page_events = λ n. refl;
  page_cursor = λ n. refl;
  cursor_filled = marks_filled;
  from_start = refl;
  from_cursor = λ n. ap (λ k. some (page_from k)) (marks_before n);
}

fetch_escrow_events_whole_example :
    fetch_escrow_events two_pages 1 ≡ decode_all two_pages (take 5000 (repeated 120))
fetch_escrow_events_whole_example =
    fetch_escrow_events_whole two_pages 1 (repeated 120) two_pages_serves

abbrev read_event : EscrowEvent
read_event = record {
  id = "0000000001-1";
  ledger = 12;
  ledger_closed_at = "2026-07-15T10:00:00Z";
  campaign_id = "7";
  name = "CampaignCreated";
  values = string "GFARMER" ∷ null ∷ [];
}

event_is_read : decode_all two_pages (repeated 1) ≡ some (read_event ∷ [])
unfolding decode_all print_ℤ
event_is_read = refl
