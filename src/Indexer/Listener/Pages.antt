-- ===== src/Indexer/Listener/Pages.antt =====
-- The loop over the pages: every event before the ledger that it reports has been handled.
use agrocylo_pip.Prelude.{
  All, Bool, Bool-cases, List, Option, Option-cases, String, [], ap, arith, drop, drop-short,
  eq_iff, false, inl, inr, length, ltb, ltb→lt, none, refl, some, str_eq, sym, take, take-drop,
  true, ℕ, ◌++◌, ◌<◌, ◌∙◌, ◌∷◌, ◌≡◌, ◌≤◌, ◌⊎◌,
}
use mathlib.Core.Path.{ap₂, subst}
use mathlib.Core.List.{append-nil}
use mathlib.Core.Option.{some-injective}
use text.Mathlib.TextPositions.{eq_refl}
use agrocylo_pip.Indexer.Types.{RawSorobanEvent}
use agrocylo_pip.Prelude.Text.{has}
use agrocylo_pip.Indexer.Listener.{
  From, Page, Progress, Rpc, cursor, deliver, events_page_limit, handle_event, last_of, next_cursor,
  process_page, start_ledger,
}
use agrocylo_pip.Store.Client.{Prisma}

module _ {A : Type 0} (P Q : A → Type 0) where
  pub All-map : ((a : A) → P a → Q a) → (xs : List A) → All P xs → All Q xs
  All-map f [] h = tt
  All-map f (x ∷ xs) h = (f x h.0, All-map f xs h.1)

module _ {A : Type 0} (P Q R : A → Type 0) where
  pub All-map₂ : ((a : A) → P a → Q a → R a) → (xs : List A) → All P xs → All Q xs → All R xs
  All-map₂ f [] h k = tt
  All-map₂ f (x ∷ xs) h k = (f x h.0 k.0, All-map₂ f xs h.1 k.1)

module _ {A : Type 0} (P : A → Type 0) where
  pub All-intro : ((a : A) → P a) → (xs : List A) → All P xs
  All-intro f [] = tt
  All-intro f (x ∷ xs) = (f x, All-intro f xs)

  pub All-append : (xs ys : List A) → All P xs → All P ys → All P (xs ++ ys)
  All-append [] ys h k = k
  All-append (x ∷ xs) ys h k = (h.0, All-append xs ys h.1 k)

  pub All-append_right : (xs ys : List A) → All P (xs ++ ys) → All P ys
  All-append_right [] ys h = h
  All-append_right (x ∷ xs) ys h = All-append_right xs ys h.1

-- In ascending order of the ledger
abbrev pub IsAscending : {A : Type 0} → (A → ℕ) → List A → Type 0
IsAscending f [] = Unit
IsAscending f (x ∷ xs) = All (λ y. f x ≤ f y) xs × IsAscending f xs

pub last_of-IsAscending :
    {A : Type 0} (f : A → ℕ) (xs ys : List A) (e : A)
    → IsAscending f (xs ++ ys)
    → last_of xs ≡ some e
    → All (λ y. f e ≤ f y) ys
last_of-IsAscending f [] ys e h p = cc
last_of-IsAscending f (x ∷ []) ys e h p =
    let same : x ≡ e = cc p in All-map _ _ (λ y k. rw (← same) k) ys h.0
last_of-IsAscending f (x ∷ y ∷ xs) ys e h p = last_of-IsAscending f (y ∷ xs) ys e h.1 p

pub last_of-none : {A : Type 0} (xs : List A) → last_of xs ≡ none → xs ≡ []
last_of-none [] e = refl
last_of-none (x ∷ []) e = cc
last_of-none (x ∷ y ∷ xs) e = absurd (cc (last_of-none (y ∷ xs) e))

-- What Soroban RPC documents of `getEvents`: `rest from` is what remains to be served, in ascending
-- ledger order; a page has the first of it, as many as are asked for where there are so many; a cursor
-- stands for what comes after the page, and where there is none nothing comes after.
pub record Serves (rpc : Rpc) (rest : From → List (rpc.Event)) : Type 0 where
  pub page_events :
      (from : From) (page : Page (rpc.Event))
      → rpc.get_events from ≡ some page
      → page.events ≡ take events_page_limit (rest from)
  pub no_more :
      (from : From) (page : Page (rpc.Event))
      → rpc.get_events from ≡ some page
      → (page.next ≡ none) ⊎ (page.next ≡ some "")
      → drop events_page_limit (rest from) ≡ []
  pub more :
      (from : From) (page : Page (rpc.Event)) (c : String)
      → rpc.get_events from ≡ some page
      → page.next ≡ some c
      → str_eq c "" ≡ false
      → rest (cursor c) ≡ drop events_page_limit (rest from)
  pub ascending : (from : From) → IsAscending (rpc.ledger) (rest from)
  pub from_start : (n : ℕ) → All (λ e. n ≤ rpc.ledger e) (rest (start_ledger n))

module _ (rpc : Rpc) (rest : From → List (rpc.Event)) (serves : Serves rpc rest) where
  -- The loop's test takes a page for the last one only where nothing comes after it.
  pub next_cursor-none :
      (from : From) (page : Page (rpc.Event))
      → rpc.get_events from ≡ some page
      → next_cursor page ≡ none
      → drop events_page_limit (rest from) ≡ []
  next_cursor-none from page answered = elim (Option-cases page.next) [
    | inl absent ↦ λ e. serves.no_more from page answered (inl absent)
    | inr (c, there) ↦ elim (Bool-cases (str_eq c "")) [
      | inl blank ↦
          λ e. serves.no_more from page answered (inr (there ∙ ap some ((eq_iff c "").0 blank)))
      | inr filled ↦ elim (Bool-cases (ltb (length page.events) events_page_limit)) [
        | inl short ↦ λ e. drop-short events_page_limit (rest from) (
            subst (λ xs. length xs < events_page_limit) (serves.page_events from page answered)
              (ltb→lt _ _ short))
        | inr full ↦ rw (there, filled, full) (λ e. cc e)
      ]
    ]
  ]

  pub next_cursor-some :
      (page : Page (rpc.Event)) (c : String)
      → next_cursor page ≡ some c
      → (page.next ≡ some c) × (str_eq c "" ≡ false)
  next_cursor-some page c = elim (Option-cases page.next) [
    | inl absent ↦ rw absent (λ e. cc e)
    | inr (d, there) ↦ elim (Bool-cases (str_eq d "")) [
      | inl blank ↦ rw (there, blank) (λ e. cc e)
      | inr filled ↦ elim (Bool-cases (ltb (length page.events) events_page_limit)) [
        | inl short ↦ rw (there, filled, short) (λ e. cc e)
        | inr full ↦ rw (there, filled, full) (λ e. (e, rw (← some-injective _ _ e) filled))
      ]
    ]
  ]

  pub last_page :
      (from : From) (page : Page (rpc.Event))
      → rpc.get_events from ≡ some page
      → next_cursor page ≡ none
      → page.events ≡ rest from
  last_page from page answered e =
      serves.page_events from page answered
      ∙ sym (append-nil (take events_page_limit (rest from)))
      ∙ ap (λ xs. take events_page_limit (rest from) ++ xs)
          (sym (next_cursor-none from page answered e))
      ∙ sym (take-drop events_page_limit (rest from))

  pub full_page :
      (from : From) (page : Page (rpc.Event)) (c : String)
      → rpc.get_events from ≡ some page
      → next_cursor page ≡ some c
      → rest from ≡ page.events ++ rest (cursor c)
  full_page from page c answered e =
      let (there, filled) = next_cursor-some page c e in
      take-drop events_page_limit (rest from)
      ∙ ap₂ ◌++◌ (sym (serves.page_events from page answered))
          (sym (serves.more from page c answered there filled))

has-cons : (t k : String) (ts : List String) → has ts k ≡ true → has (t ∷ ts) k ≡ true
unfolding has
has-cons t k ts h = ground arith

module _ (prisma : Prisma) (rpc : Rpc) where
  open prisma use {State}
  open rpc use {Event, id, ledger, decode}

  -- The event's id is in the in-memory set.
  abbrev pub IsSeen : Progress State → Event → Type 0
  IsSeen p e = has p.processed_event_ids (id e) ≡ true

  deliver_ids :
      (o : Option RawSorobanEvent) (p : Progress State)
      → (deliver prisma rpc o p).1.processed_event_ids ≡ p.processed_event_ids
  unfolding deliver
  deliver_ids none p = refl
  deliver_ids (some raw) p = refl

  handle_event-IsSeen : (e : Event) (p : Progress State) → IsSeen (handle_event prisma rpc e p).1 e
  unfolding handle_event
  handle_event-IsSeen e p = elim (Bool-cases (has p.processed_event_ids (id e))) [
    | inl old ↦ rw old old
    | inr new ↦ rw new (rw deliver_ids (unfold has in (rw (eq_refl (id e)))))
  ]

  pub handle_event-keeps :
      (k : String) (e : Event) (p : Progress State)
      → has p.processed_event_ids k ≡ true
      → has (handle_event prisma rpc e p).1.processed_event_ids k ≡ true
  unfolding handle_event
  handle_event-keeps k e p h = elim (Bool-cases (has p.processed_event_ids (id e))) [
    | inl old ↦ rw old h
    | inr new ↦ rw new (rw deliver_ids (has-cons (id e) k p.processed_event_ids h))
  ]

  pub process_page_handled :
      (e : Event) (es : List Event) (p : Progress State)
      → (handle_event prisma rpc e p).0 ≡ true
      → process_page prisma rpc (e ∷ es) p
        ≡ process_page prisma rpc es (handle_event prisma rpc e p).1
  unfolding process_page
  process_page_handled e es p h = rw (h, process_page)

  pub process_page_threw :
      (e : Event) (es : List Event) (p : Progress State)
      → (handle_event prisma rpc e p).0 ≡ false
      → process_page prisma rpc (e ∷ es) p ≡ (false, (handle_event prisma rpc e p).1)
  unfolding process_page
  process_page_threw e es p h = rw (h, process_page)

  pub process_page-keeps :
      (k : String) (es : List Event) (p : Progress State)
      → has p.processed_event_ids k ≡ true
      → has (process_page prisma rpc es p).1.processed_event_ids k ≡ true
  process_page-keeps k [] p h = unfold process_page in h
  process_page-keeps k (e ∷ es) p h =
      let kept = handle_event-keeps k e p h in
      elim (Bool-cases (handle_event prisma rpc e p).0) [
        | inl handled ↦ rw (process_page_handled e es p handled) (process_page-keeps k es _ kept)
        | inr threw ↦ rw (process_page_threw e es p threw) kept
      ]

  -- A page that was processed to its end leaves every event of it in the set.
  pub process_page-IsSeen :
      (es : List Event) (p : Progress State)
      → (process_page prisma rpc es p).0 ≡ true
      → All (IsSeen (process_page prisma rpc es p).1) es
  process_page-IsSeen [] p h = tt
  process_page-IsSeen (e ∷ es) p h = elim (Bool-cases (handle_event prisma rpc e p).0) [
    | inl handled ↦
        let step = process_page_handled e es p handled in
        subst (λ (r : Bool × Progress State). All (IsSeen r.1) (e ∷ es)) (sym step)
          (
            process_page-keeps (id e) es _ (handle_event-IsSeen e p),
            process_page-IsSeen es _ (rw step at h),
          )
    | inr threw ↦ cc (h, process_page_threw e es p threw)
  ]
