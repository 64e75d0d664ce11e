-- ===== src/Indexer/Listener/Resume.antt =====
-- A restart resumes where the cursor was persisted.
use agrocylo_pip.Indexer.Listener.Lifecycle.{cursor_from, least, load_cursor}
use agrocylo_pip.Prelude.{
  All, IsListed, List, Option, String, [], ap, arith, eq_iff, if◌then◌else◌, inl, inr, ltb, none,
  refl, some, str_eq, sym, ℕ, ◌∙◌, ◌∷◌, ◌≡◌, ◌⊎◌,
}
use agrocylo_pip.Indexer.Listener.{Rpc, both_done, persist_cursor, save_cursor}
use mathlib.Core.Option.{some-injective}
use agrocylo_pip.Store.Returns.{bind_step, find_cursors_returned, run_returned}
use agrocylo_pip.Store.Tables.{IndexerCursor, Snapshot, Table, put}
use agrocylo_pip.Store.Client.{AreCursorsOf, Prisma, Write, apply, upsert_cursor, upserted}
use agrocylo_pip.Store.Action.{Outcome, find_cursors, pure, returned, threw}

-- A row stands under its key.
abbrev pub IsKeyed : Table IndexerCursor → Type 0
IsKeyed t = (k : String) (r : IndexerCursor) → t k ≡ some r → r.contract_id ≡ k

abbrev row_at : ℕ → String → IndexerCursor
row_at l k = record { contract_id = k; last_processed_ledger = l }

abbrev upsert_to : ℕ → String → Write
upsert_to l k = upsert_cursor k (λ r. record r { last_processed_ledger = l }) (row_at l k)

upserted_row :
    (l : ℕ) (k : String) (o : Option IndexerCursor)
    → ((r : IndexerCursor) → o ≡ some r → r.contract_id ≡ k)
    → upserted (λ r. record r { last_processed_ledger = l }) (row_at l k) o ≡ row_at l k
upserted_row l k none keyed = refl
upserted_row l k (some r) keyed = ap (row_at l) (keyed r refl)

upsert_to_lem :
    (l : ℕ) (k j : String) (v v' : Snapshot)
    → apply (upsert_to l k) v ≡ some v'
    → IsKeyed v.cursors
    → v'.cursors j ≡ (if str_eq k j then some (row_at l j) else v.cursors j)
unfolding apply
upsert_to_lem l k j v v' e keyed =
    ap (λ (u : Snapshot). u.cursors j) (sym (some-injective _ _ e))
    ∙ ap (λ r. put k r v.cursors j) (upserted_row l k (v.cursors k) (keyed k))
    ∙ ground (arith, eq_iff k j)

upsert_to-IsKeyed :
    (l : ℕ) (k : String) (v v' : Snapshot)
    → apply (upsert_to l k) v ≡ some v'
    → IsKeyed v.cursors
    → IsKeyed v'.cursors
upsert_to-IsKeyed l k v v' e keyed j r at =
    ground (arith, upsert_to_lem l k j v v' e keyed, keyed j r)

All-weaken :
    {P Q : IndexerCursor → Type 0}
    → ((r : IndexerCursor) → P r → Q r)
    → (rows : List IndexerCursor) → All P rows
    → All Q rows
All-weaken h [] _ = tt
All-weaken h (r ∷ rs) (p, ps) = (h r p, All-weaken h rs ps)

both_returned :
    (r rs : Outcome (Unit {0}))
    → both_done r rs ≡ returned tt
    → (r ≡ returned tt) × (rs ≡ returned tt)
both_returned (returned _) rs e = (refl, e)
both_returned (threw x) rs e = cc

lesser : (m l : ℕ) → m ≡ l → (if ltb m l then m else l) ≡ l
lesser m l h = ground arith

least-eq :
    (l : ℕ) (rows : List IndexerCursor)
    → All (λ (r : IndexerCursor). r.last_processed_ledger ≡ l) rows
    → least l rows ≡ l
least-eq l [] h = refl
least-eq l (r ∷ rs) (same, h) =
    ap (λ n. least n rs) (lesser r.last_processed_ledger l same) ∙ least-eq l rs h

module _ (prisma : Prisma) (rpc : Rpc) where
  open prisma use {State, view}

  after_upsert :
      (l : ℕ) (k : String) (ks : List String) (v v' : Snapshot) (j : String)
      → apply (upsert_to l k) v ≡ some v'
      → IsKeyed v.cursors
      → (v.cursors j ≡ some (row_at l j)) ⊎ IsListed j (k ∷ ks)
      → (v'.cursors j ≡ some (row_at l j)) ⊎ IsListed j ks
  after_upsert l k ks v v' j wrote keyed listed =
      ground (arith, upsert_to_lem l k j v v' wrote keyed, eq_iff k j)

  persist_cursor_returned :
      (ids : List String) (l : ℕ) (s : State)
      → (persist_cursor prisma rpc ids l s).0 ≡ returned tt
      → IsKeyed (view s).cursors
      → IsKeyed (view (persist_cursor prisma rpc ids l s).1).cursors
        × ((j : String)
            → ((view s).cursors j ≡ some (row_at l j)) ⊎ IsListed j ids
            → (view (persist_cursor prisma rpc ids l s).1).cursors j ≡ some (row_at l j))
  unfolding persist_cursor save_cursor pure
  persist_cursor_returned [] l s e keyed =
      (keyed, λ j l. elim l [ inl at ↦ at | inr no_one ↦ absurd no_one ])
  persist_cursor_returned (k ∷ ks) l s e keyed =
      let s' = (save_cursor prisma rpc l k s).1 in
      let (saved, rest) =
        both_returned (save_cursor prisma rpc l k s).0 (persist_cursor prisma rpc ks l s').0 e in
      let wrote = run_returned prisma (upsert_to l k) s saved in
      let (keyed', kept) =
        persist_cursor_returned ks l s' rest (upsert_to-IsKeyed l k _ _ wrote keyed) in
      (keyed', λ j listed. kept j (after_upsert l k ks _ _ j wrote keyed listed))

  cursor_from_lem :
      (id : String) (ids : List String) (start : Option ℕ) (l : ℕ) (t : Table IndexerCursor)
      (rows : List IndexerCursor) (s : State)
      → AreCursorsOf t (id ∷ ids) rows
      → ((j : String) → IsListed j (id ∷ ids) → t j ≡ some (row_at l j))
      → (cursor_from prisma rpc start rows s).0 ≡ returned l
  unfolding cursor_from pure
  cursor_from_lem id ids start l t [] s (_, complete) saved =
      absurd (complete.0 (row_at l id) (saved id (inl refl)))
  cursor_from_lem id ids start l t (r ∷ rs) s ((sound, sounds), _) saved =
      let ledger =
        λ (q : IndexerCursor) (at : (t q.contract_id ≡ some q) × IsListed q.contract_id (id ∷ ids)).
          ap (λ (b : IndexerCursor). b.last_processed_ledger)
            (some-injective _ _ (sym at.0 ∙ saved q.contract_id at.1)) in
      ap returned
        (ap (λ n. least n rs) (ledger r sound) ∙ least-eq l rs (All-weaken ledger rs sounds))

  load_cursor_lem :
      (id : String) (ids : List String) (start : Option ℕ) (l : ℕ) (s : State)
      (rows : List IndexerCursor)
      → ((j : String) → IsListed j (id ∷ ids) → (view s).cursors j ≡ some (row_at l j))
      → (find_cursors prisma (id ∷ ids) s).0 ≡ returned rows
      → (load_cursor prisma rpc (id ∷ ids) start s).0 ≡ returned l
  unfolding load_cursor
  load_cursor_lem id ids start l s rows saved e =
      ap (λ p. p.0) (bind_step (find_cursors prisma (id ∷ ids)) _ s rows e)
      ∙ cursor_from_lem id ids start l (view s).cursors rows _
          (find_cursors_returned prisma (id ∷ ids) s rows e) saved

  -- Each cursor row stands under its own contract id. Once `persistCursor` has returned for the
  -- configured contracts, at least one of them, then in any later state with the same cursor rows, where
  -- the search for them is answered, `loadCursor` gives the ledger that was persisted, whatever start
  -- ledger is configured.
  pub load_cursor-persist_cursor :
      (id : String) (ids : List String) (start : Option ℕ) (l : ℕ) (s later : State)
      (rows : List IndexerCursor)
      → IsKeyed (view s).cursors
      → (persist_cursor prisma rpc (id ∷ ids) l s).0 ≡ returned tt
      → (view later).cursors ≡ (view (persist_cursor prisma rpc (id ∷ ids) l s).1).cursors
      → (find_cursors prisma (id ∷ ids) later).0 ≡ returned rows
      → (load_cursor prisma rpc (id ∷ ids) start later).0 ≡ returned l
  load_cursor-persist_cursor id ids start l s later rows keyed done_ same answered =
      let (_, saved) = persist_cursor_returned (id ∷ ids) l s done_ keyed in
      load_cursor_lem id ids start l later rows
        (λ j listed. ap (λ t. t j) same ∙ saved j (inr listed)) answered
