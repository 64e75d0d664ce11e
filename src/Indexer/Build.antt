-- ===== src/Indexer/Build.antt =====
-- `buildEvent` of indexer/parsers/event-parser.service.ts, and the type of the parsers that end in it.
use agrocylo_pip.Prelude.{Option, none, some, List, String}
use agrocylo_pip.Prelude.Int.{ℤ}
use agrocylo_pip.Js.{Value, string, at, or_else}
use agrocylo_pip.Indexer.Types.{RawSorobanEvent, ParsedEvent, Payload}
use agrocylo_pip.Indexer.Decode.{Result, ok, ◌>>=◌, as_string}

-- A parser of one kind of event: the raw event, its topics, and its payload as an array.
abbrev pub Parser : Type 0
Parser = RawSorobanEvent → List Value → List Value → Result ParsedEvent

abbrev text_or_empty : Option String → String
text_or_empty none = ""
text_or_empty (some s) = s

-- The last three arguments are the source's `extra`.
unfoldable pub build_event :
    RawSorobanEvent
    → List Value
    → Payload
    → Option String
    → Option String
    → Option ℤ
    → Result ParsedEvent
build_event raw topics payload campaign_id user_address amount = do
  name ← as_string (or_else (at topics 0) (string "")) "eventName"
  ok (record {
    id = raw.id;
    payload = payload;
    contract_event = name;
    contract_id = text_or_empty raw.contract_id;
    ledger = raw.ledger;
    tx_hash = raw.tx_hash;
    raw_topics = topics;
    raw_value = raw.value;
    campaign_id = campaign_id;
    user_address = user_address;
    amount = amount;
  })
