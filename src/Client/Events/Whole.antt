-- ===== src/Client/Events/Whole.antt =====
-- How much of the events a load has.
use agrocylo_pip.Prelude.Text.{is_blank}
use mathlib.Core.List.{append_assoc, append-nil}
use agrocylo_pip.Prelude.{
  Bool-cases, List, Option, String, [], ap, arith, drop, drop-drop, drop-short, false, inl, inr,
  length, ltb, ltb→lt, none, refl, some, suc, sym, take, take-add, take-nil, true, zero, ℕ, ◌*◌,
  ◌++◌, ◌+◌, ◌<◌, ◌∙◌, ◌∷◌, ◌≡◌, ◌≤◌,
}
use agrocylo_pip.Client.Events.{
  EscrowEvent, EventPage, EventServer, PageStart, RawEvent, continued, cursor, decode_all,
  decode_event, fetch_escrow_events, fetch_pages, max_pages, next_cursor, page_limit, start_ledger,
  with_new, with_page,
}

length-take_le : {A : Type 0} (k : ℕ) (xs : List A) → length (take k xs) ≤ k
length-take_le zero xs = omega arith
length-take_le (suc k) [] = omega arith
length-take_le (suc k) (x ∷ xs) = omega (arith, length-take_le k xs)

abbrev both : {A : Type 0} → Option (List A) → Option (List A) → Option (List A)
both none o = none
both (some xs) none = none
both (some xs) (some ys) = some (xs ++ ys)

both-nil : {A : Type 0} (o : Option (List A)) → both (some []) o ≡ o
both-nil none = refl
both-nil (some xs) = refl

both_assoc : {A : Type 0} (a b c : Option (List A)) → both (both a b) c ≡ both a (both b c)
both_assoc none b c = refl
both_assoc (some xs) none c = refl
both_assoc (some xs) (some ys) none = refl
both_assoc (some xs) (some ys) (some zs) = ap some (append_assoc xs ys zs)

module _ (server : EventServer) where
  open server use {ScVal}

  abbrev cons_event : Option EscrowEvent → Option (List EscrowEvent) → Option (List EscrowEvent)
  cons_event none o = none
  cons_event (some e) none = none
  cons_event (some e) (some es) = some (e ∷ es)

  cons_event-both :
      (e : Option EscrowEvent) (a b : Option (List EscrowEvent))
      → cons_event e (both a b) ≡ both (cons_event e a) b
  cons_event-both none a b = refl
  cons_event-both (some e) none b = refl
  cons_event-both (some e) (some xs) none = refl
  cons_event-both (some e) (some xs) (some ys) = refl

  decode_all-cons :
      (raw : RawEvent ScVal) (raws : List (RawEvent ScVal))
      → decode_all server (raw ∷ raws)
        ≡ cons_event (decode_event server raw) (decode_all server raws)
  unfolding decode_all
  decode_all-cons raw raws = by_cases (decode_event server raw) (decode_all server raws)
    where
      by_cases :
          (e : Option EscrowEvent) (es : Option (List EscrowEvent))
          → elim e [ none ↦ none | some x ↦ elim es [ none ↦ none | some xs ↦ some (x ∷ xs) ] ]
            ≡ cons_event e es
      by_cases none es = refl
      by_cases (some x) none = refl
      by_cases (some x) (some xs) = refl

  decode_all-append :
      (xs ys : List (RawEvent ScVal))
      → decode_all server (xs ++ ys) ≡ both (decode_all server xs) (decode_all server ys)
  unfolding decode_all
  decode_all-append [] ys = sym (both-nil (decode_all server ys))
  decode_all-append (x ∷ xs) ys =
      decode_all-cons x (xs ++ ys)
      ∙ ap (cons_event (decode_event server x)) (decode_all-append xs ys)
      ∙ cons_event-both (decode_event server x) (decode_all server xs) (decode_all server ys)
      ∙ ap (λ o. both o (decode_all server ys)) (sym (decode_all-cons x xs))

-- What the RPC server documents of paging: it has events in an order, and serves the next of them from
-- the start or from a cursor, as many as are asked for where there are so many, with a cursor after the
-- last.
pub record ServesAll (server : EventServer) (start : ℕ) (every : List (RawEvent server.ScVal))
    : Type 0 where
  pub cursor_after : ℕ → String
  pub page : ℕ → EventPage server.ScVal
  pub page_events : (n : ℕ) → (page n).events ≡ take page_limit (drop n every)
  pub page_cursor : (n : ℕ) → (page n).cursor ≡ some (cursor_after (n + page_limit))
  pub cursor_filled : (n : ℕ) → is_blank (cursor_after n) ≡ false
  pub from_start : server.get_events (start_ledger start) page_limit ≡ some (page 0)
  pub from_cursor : (n : ℕ) → server.get_events (cursor (cursor_after n)) page_limit ≡ some (page n)

module _ (server : EventServer) (start : ℕ) (every : List (RawEvent server.ScVal))
    (serves : ServesAll server start every) where
  next_cursor-short :
      (n : ℕ)
      → ltb (length (take page_limit (drop n every))) page_limit ≡ true
      → next_cursor (serves.page n) ≡ none
  next_cursor-short n h = rw (serves.page_events n, h) refl

  next_cursor-full :
      (n : ℕ)
      → ltb (length (take page_limit (drop n every))) page_limit ≡ false
      → next_cursor (serves.page n) ≡ some (serves.cursor_after (n + page_limit))
  next_cursor-full n h =
      rw (serves.page_events n, h, serves.page_cursor n, serves.cursor_filled (n + page_limit)) refl

  abbrev from_here : (pages n : ℕ) → Option (List EscrowEvent)
  from_here pages n = decode_all server (take (pages * page_limit) (drop n every))

  from_here-suc :
      (pages n : ℕ)
      → from_here (suc pages) n
        ≡ both
            (decode_all server (take page_limit (drop n every)))
            (from_here pages (n + page_limit))
  from_here-suc pages n =
      ap (λ m. decode_all server (take m (drop n every))) (omega arith)
      ∙ ap (decode_all server) (take-add page_limit (pages * page_limit) (drop n every))
      ∙ decode_all-append server (take page_limit (drop n every))
          (take (pages * page_limit) (drop page_limit (drop n every)))
      ∙ ap
          (λ xs.
            both (decode_all server (take page_limit (drop n every)))
              (decode_all server (take (pages * page_limit) xs)))
          (drop-drop n page_limit every)

  from_here-short :
      (pages n : ℕ)
      → length (take page_limit (drop n every)) < page_limit
      → from_here pages (n + page_limit) ≡ some []
  unfolding decode_all
  from_here-short pages n h =
      ap (λ xs. decode_all server (take (pages * page_limit) xs))
        (sym (drop-drop n page_limit every) ∙ drop-short page_limit (drop n every) h)
      ∙ ap (decode_all server) (take-nil (pages * page_limit))

  -- The end of a page, where what follows it is known
  with_new_lem :
      (rest : String → List EscrowEvent → Option (List EscrowEvent)) (acc : List EscrowEvent)
      (next : Option String) (new tail : Option (List EscrowEvent))
      → ((es : List EscrowEvent) → continued server rest es next ≡ both (some es) tail)
      → with_new server rest acc next new ≡ both (some acc) (both new tail)
  with_new_lem rest acc next none tail h = refl
  with_new_lem rest acc next (some new) tail h =
      h (acc ++ new) ∙ both_assoc (some acc) (some new) tail

  continued_lem :
      (pages n : ℕ) (es : List EscrowEvent)
      → ((c : String) (xs : List EscrowEvent)
          → server.get_events (cursor c) page_limit ≡ some (serves.page (n + page_limit))
          → fetch_pages server pages (cursor c) xs
            ≡ both (some xs) (from_here pages (n + page_limit)))
      → continued server
          (λ c xs. fetch_pages server pages (cursor c) xs)
          es
          (next_cursor (serves.page n))
        ≡ both (some es) (from_here pages (n + page_limit))
  continued_lem pages n es later =
      elim (Bool-cases (ltb (length (take page_limit (drop n every))) page_limit)) [
        | inl short ↦
            ap (continued server (λ c xs. fetch_pages server pages (cursor c) xs) es)
              (next_cursor-short n short)
            ∙ ap some (sym (append-nil es))
            ∙ ap (both (some es)) (sym (from_here-short pages n (ltb→lt _ _ short)))
        | inr full ↦
            ap (continued server (λ c xs. fetch_pages server pages (cursor c) xs) es)
              (next_cursor-full n full)
            ∙ later (serves.cursor_after (n + page_limit)) es (serves.from_cursor (n + page_limit))
      ]

  fetch_pages_lem :
      (pages n : ℕ) (from : PageStart) (acc : List EscrowEvent)
      → server.get_events from page_limit ≡ some (serves.page n)
      → fetch_pages server pages from acc ≡ both (some acc) (from_here pages n)
  unfolding fetch_pages decode_all
  fetch_pages_lem zero n from acc served = ap some (sym (append-nil acc))
  fetch_pages_lem (suc pages) n from acc served =
      let rest : String → List EscrowEvent → Option (List EscrowEvent) =
        λ c es. fetch_pages server pages (cursor c) es in
      ap (with_page server rest acc) served
      ∙ with_new_lem rest acc (next_cursor (serves.page n)) _ _ (λ es.
        continued_lem pages n es (λ c xs. fetch_pages_lem pages (n + page_limit) (cursor c) xs))
      ∙ ap (λ xs. both (some acc) (both (decode_all server xs) (from_here pages (n + page_limit))))
          (serves.page_events n)
      ∙ ap (both (some acc)) (sym (from_here-suc pages n))

  -- Where the server keeps to its paging, a load has the first 5000 of the events, in their order and
  -- each once, and rejects only where one of these cannot be decoded.
  pub fetch_escrow_events_whole :
      fetch_escrow_events server start ≡ decode_all server (take 5000 every)
  unfolding fetch_escrow_events
  fetch_escrow_events_whole =
      fetch_pages_lem max_pages 0 (start_ledger start) [] serves.from_start
      ∙ both-nil (from_here max_pages 0)
