-- ===== src/Indexer/Listener/Fetch.antt =====
-- The loop over the pages of a poll covers every event that it reports as passed.
use mathlib.Core.Path.{subst}
use agrocylo_pip.Prelude.{
  ℕ, zero, suc, ◌≤◌, ◌<◌, ◌≡◌, refl, sym, inl, inr, Option, none, some, true, List, ◌++◌, String,
  All, arith, Bool-cases, Option-cases,
}
use agrocylo_pip.Prelude.Text.{has}
use agrocylo_pip.Indexer.Listener.{
  From, cursor, Page, Rpc, Progress, Fetched, drained, capped, failed, last_of, last_seen,
  next_cursor, process_page, fetch_pages,
}
use agrocylo_pip.Indexer.Listener.Pages.{
  All-intro, All-map, All-append, All-append_right, IsAscending, last_of-IsAscending, Serves,
  IsSeen, full_page, last_page, process_page-keeps, process_page-IsSeen,
}
use agrocylo_pip.Store.Client.{Prisma}

-- The ledgers that a poll which ended so has passed
abbrev pub Passed : Fetched → ℕ → Type 0
Passed drained l = Unit
Passed (capped (some seen)) l = l < seen
Passed (capped none) l = ⊥
Passed failed l = ⊥

-- Nothing that is left lies before the last event seen.
abbrev IsBefore : {A : Type 0} → (A → ℕ) → Option ℕ → List A → Type 0
IsBefore f none xs = Unit
IsBefore f (some l) xs = All (λ x. l ≤ f x) xs

IsBefore-right :
    {A : Type 0} (f : A → ℕ) (seen : Option ℕ) (xs ys : List A)
    → IsBefore f seen (xs ++ ys)
    → IsBefore f seen ys
IsBefore-right f none xs ys h = tt
IsBefore-right f (some l) xs ys h = All-append_right _ xs ys h

module _ (prisma : Prisma) (rpc : Rpc) where
  open prisma use {State}
  open rpc use {Event, id, ledger}

  -- The four ways of one round of the loop
  data Round (pages : ℕ) (from : From) (seen : Option ℕ) (p : Progress State) : Type 0 where
    unanswered :
        rpc.get_events from ≡ none
        → fetch_pages prisma rpc (suc pages) from seen p ≡ (failed, p)
        → Round pages from seen p
    threw :
        (page : Page Event)
        → rpc.get_events from ≡ some page
        → fetch_pages prisma rpc (suc pages) from seen p
          ≡ (failed, (process_page prisma rpc page.events p).1)
        → Round pages from seen p
    last :
        (page : Page Event)
        → rpc.get_events from ≡ some page
        → (process_page prisma rpc page.events p).0 ≡ true
        → next_cursor page ≡ none
        → fetch_pages prisma rpc (suc pages) from seen p
          ≡ (drained, (process_page prisma rpc page.events p).1)
        → Round pages from seen p
    more :
        (page : Page Event) (c : String)
        → rpc.get_events from ≡ some page
        → (process_page prisma rpc page.events p).0 ≡ true
        → next_cursor page ≡ some c
        → fetch_pages prisma rpc (suc pages) from seen p
          ≡ fetch_pages prisma rpc pages
              (cursor c)
              (last_seen ledger page.events seen)
              (process_page prisma rpc page.events p).1
        → Round pages from seen p

  round : (pages : ℕ) (from : From) (seen : Option ℕ) (p : Progress State) → Round pages from seen p
  unfolding fetch_pages
  round pages from seen p = elim (Option-cases (rpc.get_events from)) [
    | inl silent ↦ unanswered silent (rw (silent, fetch_pages))
    | inr (page, answered) ↦ elim (Bool-cases (process_page prisma rpc page.events p).0) [
      | inr stopped ↦ threw page answered (rw (answered, stopped, fetch_pages))
      | inl done ↦ elim (Option-cases (next_cursor page)) [
        | inl short ↦ last page answered done short (rw (answered, done, short, fetch_pages))
        | inr (c, full) ↦ more page c answered done full (rw (answered, done, full, fetch_pages))
      ]
    ]
  ]

  pub fetch_pages-keeps :
      (k : String) (pages : ℕ) (from : From) (seen : Option ℕ) (p : Progress State)
      → has p.processed_event_ids k ≡ true
      → has (fetch_pages prisma rpc pages from seen p).1.processed_event_ids k ≡ true
  fetch_pages-keeps k zero from seen p h = unfold fetch_pages in h
  fetch_pages-keeps k (suc pages) from seen p h = elim (round pages from seen p) [
    | unanswered a e ↦ rw e h
    | threw page a e ↦ rw e (process_page-keeps prisma rpc k page.events p h)
    | last page a done short e ↦ rw e (process_page-keeps prisma rpc k page.events p h)
    | more page c a done full e ↦
        rw e (
          fetch_pages-keeps k pages (cursor c) _ _
            (process_page-keeps prisma rpc k page.events p h))
  ]

  module _ (rest : From → List Event) (serves : Serves rpc rest) where
    last_seen-IsBefore :
        (xs ys : List Event) (seen : Option ℕ)
        → IsAscending ledger (xs ++ ys)
        → IsBefore ledger seen (xs ++ ys)
        → IsBefore ledger (last_seen ledger xs seen) ys
    last_seen-IsBefore xs ys seen asc before = go (last_of xs) refl
      where
        go :
            (o : Option Event)
            → last_of xs ≡ o
            → IsBefore ledger (elim o [ none ↦ seen | some e ↦ some (ledger e) ]) ys
        go none e = IsBefore-right ledger seen xs ys before
        go (some x) e = last_of-IsAscending ledger xs ys x asc e

    abbrev Covers : Fetched × Progress State → List Event → Type 0
    Covers r es = All (λ e. Passed r.0 (ledger e) → IsSeen prisma rpc r.1 e) es

    capped-Covers :
        (seen : Option ℕ) (p : Progress State) (es : List Event)
        → IsBefore ledger seen es
        → Covers (capped seen, p) es
    capped-Covers none p es before = All-intro _ (λ e h. elim h [ ]) es
    capped-Covers (some l) p es before = All-map _ _ (λ e le lt. absurd (omega arith)) es before

    -- Every event left to serve that lies in a passed ledger is in the set afterwards.
    pub fetch_pages-Covers :
        (pages : ℕ) (from : From) (seen : Option ℕ) (p : Progress State)
        → IsBefore ledger seen (rest from)
        → Covers (fetch_pages prisma rpc pages from seen p) (rest from)
    fetch_pages-Covers zero from seen p before =
        unfold fetch_pages in capped-Covers seen p (rest from) before
    fetch_pages-Covers (suc pages) from seen p before = elim (round pages from seen p) [
      | unanswered a e ↦
          subst (λ (r : Fetched × Progress State). Covers r (rest from)) (sym e)
            (All-intro _ (λ e h. elim h [ ]) (rest from))
      | threw page a e ↦
          subst (λ (r : Fetched × Progress State). Covers r (rest from)) (sym e)
            (All-intro _ (λ e h. elim h [ ]) (rest from))
      | last page a done short e ↦
          subst (λ (r : Fetched × Progress State). Covers r (rest from)) (sym e)
            (subst (Covers (drained, (process_page prisma rpc page.events p).1))
              (last_page rpc rest serves from page a short)
              (All-map _ _ (λ _ k _. k) page.events
                (process_page-IsSeen prisma rpc page.events p done)))
      | more page c a done full e ↦
          let p' = (process_page prisma rpc page.events p).1 in
          let r = fetch_pages prisma rpc pages (cursor c) (last_seen ledger page.events seen) p' in
          let split = full_page rpc rest serves from page c a full in
          let here =
            All-map _ _
              (λ x k _.
                fetch_pages-keeps (id x) pages (cursor c) (last_seen ledger page.events seen) p' k)
              page.events (process_page-IsSeen prisma rpc page.events p done) in
          let left = fetch_pages-Covers pages (cursor c) (last_seen ledger page.events seen) p' (
            last_seen-IsBefore page.events (rest (cursor c)) seen
              (subst (IsAscending ledger) split (serves.ascending from))
              (subst (IsBefore ledger seen) split before)) in
          subst (λ (r : Fetched × Progress State). Covers r (rest from)) (sym e)
            (subst (Covers r) (sym split) (All-append _ page.events (rest (cursor c)) here left))
    ]
