-- ===== src/Indexer/Process/Broadcast.antt =====
-- `processEvent` broadcasts what is recorded, and no event twice.
use agrocylo_pip.Prelude.{
  Bool, Bool-cases, Option, String, [], arith, false, inl, inr, none, refl, some, str_eq, sym, true,
  ◌∙◌, ◌∷◌, ◌≡◌, ◌≢◌, ◌⊎◌,
}
use agrocylo_pip.Indexer.Types.{ParsedEvent, RawSorobanEvent, event_type}
use agrocylo_pip.Indexer.Decode.{Result, ok, thrown}
use agrocylo_pip.Indexer.Parse.{parse_event}
use agrocylo_pip.Indexer.Parse.Faithful.{parse_event_faithful}
use agrocylo_pip.Indexer.Persist.{persist_event, transaction_of}
use agrocylo_pip.Indexer.Persist.Once.{
  persist_event-keeps, persist_event_again, persist_event_records,
}
use agrocylo_pip.Indexer.Process.{
  CampaignEventPayload, broadcast_after, campaign_event, process_event, process_parsed,
}
use agrocylo_pip.Store.Tables.{Transaction}
use agrocylo_pip.Store.Client.{Prisma}
use agrocylo_pip.Store.Action.{Outcome, returned, threw}

broadcast_after_returned :
    (parsed : ParsedEvent) (o : Outcome Bool) (m : CampaignEventPayload)
    → broadcast_after parsed o ≡ m ∷ []
    → (o ≡ returned true)
      × (parsed.campaign_id ≡ some m.campaign_id)
      × (m.type ≡ event_type parsed.payload)
      × (m.content ≡ parsed.payload)
unfolding broadcast_after campaign_event
broadcast_after_returned parsed (returned true) m h = ground arith
broadcast_after_returned parsed (returned false) m h = cc
broadcast_after_returned parsed (threw x) m h = cc

broadcast_after_not_new :
    (parsed : ParsedEvent) (o : Outcome Bool) → o ≢ returned true → broadcast_after parsed o ≡ []
unfolding broadcast_after
broadcast_after_not_new parsed (returned true) h = absurd (h refl)
broadcast_after_not_new parsed (returned false) h = refl
broadcast_after_not_new parsed (threw x) h = refl

campaign_event-few :
    (parsed : ParsedEvent) (o : Option String)
    → (campaign_event parsed o ≡ [])
      ⊎ ((m : CampaignEventPayload) × (campaign_event parsed o ≡ m ∷ []))
unfolding campaign_event
campaign_event-few parsed none = inl refl
campaign_event-few parsed (some id) = elim (Bool-cases (str_eq id "")) [
  | inl blank ↦ rw blank (inl refl)
  | inr named ↦ rw named (inr (_, refl))
]

broadcast_after-few :
    (parsed : ParsedEvent) (o : Outcome Bool)
    → (broadcast_after parsed o ≡ [])
      ⊎ ((m : CampaignEventPayload) × (broadcast_after parsed o ≡ m ∷ []))
unfolding broadcast_after
broadcast_after-few parsed (returned true) = campaign_event-few parsed parsed.campaign_id
broadcast_after-few parsed (returned false) = inl refl
broadcast_after-few parsed (threw x) = inl refl

module _ (prisma : Prisma) where
  open prisma use {State, view}

  process_parsed_recorded :
      (p : Result (Option ParsedEvent)) (s : State) (m : CampaignEventPayload)
      → (process_parsed prisma p s).0 ≡ m ∷ []
      → (e : ParsedEvent) × (p ≡ ok (some e))
        × ((view s).transactions e.id ≡ none)
        × ((view (process_parsed prisma p s).1).transactions e.id ≡ some (transaction_of e))
        × (e.campaign_id ≡ some m.campaign_id)
        × (m.type ≡ event_type e.payload)
        × (m.content ≡ e.payload)
  unfolding process_parsed
  process_parsed_recorded (thrown x) s m h = cc
  process_parsed_recorded (ok none) s m h = cc
  process_parsed_recorded (ok (some e)) s m h =
      let (new, campaign, typed, content) =
        broadcast_after_returned e (persist_event prisma e s).0 m h in
      let (fresh, recorded) = persist_event_records prisma e s new in
      (e, refl, fresh, recorded, campaign, typed, content)

  process_parsed-few :
      (p : Result (Option ParsedEvent)) (s : State)
      → ((process_parsed prisma p s).0 ≡ [])
        ⊎ ((m : CampaignEventPayload) × ((process_parsed prisma p s).0 ≡ m ∷ []))
  unfolding process_parsed
  process_parsed-few (thrown x) s = inl refl
  process_parsed-few (ok none) s = inl refl
  process_parsed-few (ok (some e)) s = broadcast_after-few e (persist_event prisma e s).0

  process_parsed-keeps :
      (p : Result (Option ParsedEvent)) (s : State) (k : String) (t : Transaction)
      → (view s).transactions k ≡ some t
      → (view (process_parsed prisma p s).1).transactions k ≡ some t
  unfolding process_parsed
  process_parsed-keeps (thrown x) s k t h = h
  process_parsed-keeps (ok none) s k t h = h
  process_parsed-keeps (ok (some e)) s k t h = persist_event-keeps prisma e s k t h

  process_parsed_again :
      (p : Result (Option ParsedEvent)) (s : State) (k : String) (t : Transaction)
      → ((e : ParsedEvent) → p ≡ ok (some e) → e.id ≡ k)
      → (view s).transactions k ≡ some t
      → ((process_parsed prisma p s).0 ≡ []) × (view (process_parsed prisma p s).1 ≡ view s)
  unfolding process_parsed
  process_parsed_again (thrown x) s k t same h = (refl, refl)
  process_parsed_again (ok none) s k t same h = (refl, refl)
  process_parsed_again (ok (some e)) s k t same h =
      let (not_new, unchanged) = persist_event_again prisma e t s (rw (same e refl) h) in
      (broadcast_after_not_new e _ not_new, unchanged)

  -- At most one message goes out for an event.
  pub process_event-few :
      (raw : RawSorobanEvent) (s : State)
      → ((process_event prisma raw s).0 ≡ [])
        ⊎ ((m : CampaignEventPayload) × ((process_event prisma raw s).0 ≡ m ∷ []))
  unfolding process_event
  process_event-few raw s = process_parsed-few (parse_event raw) s

  -- A message goes out only when the event parsed, its id had no audit row before, and the audit row
  -- of the parsed event is in the table after; the message has the event's type, campaign and data.
  pub broadcast_recorded :
      (raw : RawSorobanEvent) (s : State) (m : CampaignEventPayload)
      → (process_event prisma raw s).0 ≡ m ∷ []
      → (e : ParsedEvent) × (parse_event raw ≡ ok (some e))
        × ((view s).transactions e.id ≡ none)
        × ((view (process_event prisma raw s).1).transactions e.id ≡ some (transaction_of e))
        × (e.campaign_id ≡ some m.campaign_id)
        × (m.type ≡ event_type e.payload)
        × (m.content ≡ e.payload)
  unfolding process_event
  broadcast_recorded raw s m h = process_parsed_recorded (parse_event raw) s m h

  -- The states that any number of processed events leads to
  pub data Later (s : State) : State → Type 0 where
    now : Later s s
    after :
        {t : State} → Later s t → (raw : RawSorobanEvent) → Later s (process_event prisma raw t).1

  pub process_event-keeps :
      (raw : RawSorobanEvent) (s : State) (k : String) (t : Transaction)
      → (view s).transactions k ≡ some t
      → (view (process_event prisma raw s).1).transactions k ≡ some t
  unfolding process_event
  process_event-keeps raw s k t h = process_parsed-keeps (parse_event raw) s k t h

  -- No event, parsed or not, changes or removes an audit row that is there.
  pub Later-keeps :
      {s s' : State} (k : String) (t : Transaction)
      → Later s s'
      → (view s).transactions k ≡ some t
      → (view s').transactions k ≡ some t
  Later-keeps k t now h = h
  Later-keeps k t (after l raw) h = process_event-keeps raw _ k t (Later-keeps k t l h)

  -- Once a message has gone out for an event, then whatever events are processed next, an event with
  -- the same id is never broadcast again and changes no table.
  pub broadcast_once :
      (raw : RawSorobanEvent) (s : State) (m : CampaignEventPayload)
      → (process_event prisma raw s).0 ≡ m ∷ []
      → (s' : State) → Later (process_event prisma raw s).1 s'
      → (again : RawSorobanEvent) → again.id ≡ raw.id
      → ((process_event prisma again s').0 ≡ [])
        × (view (process_event prisma again s').1 ≡ view s')
  broadcast_once raw s m h s' l again same =
      let (e, parsed, _, recorded, _, _, _) = broadcast_recorded raw s m h in
      let kept = Later-keeps e.id (transaction_of e) l recorded in
      let id_of : (e.id ≡ raw.id) = (parse_event_faithful raw e parsed).0.same_id in
      unfold process_event in
      process_parsed_again (parse_event again) s' e.id (transaction_of e)
        (λ e' p. (parse_event_faithful again e' p).0.same_id ∙ same ∙ sym id_of) kept
