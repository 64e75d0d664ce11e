-- ===== src/Indexer/FloodTests.antt =====
-- A server that has 6000 events of one ledger.
use mathlib.Core.Option.{some-injective}
use agrocylo_pip.Prelude.{
  All, Bool-cases, List, String, [], ap, arith, drop, drop-drop, drop-short, false, if◌then◌else◌,
  inl, inr, leb, leb→le, length, ltb, ltb→lt, none, refl, some, suc, sym, take, true, zero, ℕ, ◌*◌,
  ◌∙◌, ◌∷◌, ◌≡◌, ◌≢◌, ◌≤◌, ◌⊎◌,
}
use agrocylo_pip.Prelude.Decimal.{print_ℕ}
use agrocylo_pip.Indexer.Tests.{raw_created}
use agrocylo_pip.Indexer.Listener.{From, Page, Rpc, cursor, poll_events, start_ledger}
use agrocylo_pip.Indexer.Listener.Pages.{All-intro, IsAscending, Serves}
use agrocylo_pip.Indexer.Listener.Cursor.{PassesSeen, poll_events-PassesSeen}
use agrocylo_pip.Indexer.Listener.Limits.{IsFlooded, poll_stuck}
use agrocylo_pip.Indexer.PollTests.{listening}
use agrocylo_pip.Store.Memory.{in_memory}

unfoldable numbered : ℕ → List ℕ
numbered zero = []
numbered (suc n) = n ∷ numbered n

length-numbered : (n : ℕ) → length (numbered n) ≡ n
unfolding numbered
length-numbered zero = refl
length-numbered (suc n) = ap suc (length-numbered n)

-- A cursor counts the pages before it.
abbrev pages_before : String → ℕ
pages_before String.[] = 0
pages_before (String.◌∷◌ c s) = suc (pages_before s)

abbrev next_of : From → String
next_of (start_ledger n) = "x"
next_of (cursor c) = String.◌∷◌ "x" c

abbrev left : From → List ℕ
left (start_ledger n) = if leb n 12 then numbered 6000 else []
left (cursor c) = drop (pages_before c * 100) (numbered 6000)

abbrev page_at : From → Page ℕ
page_at from = record {
  events = take 100 (left from);
  next = if ltb (length (take 100 (left from))) 100 then none else some (next_of from);
}

abbrev flood : Rpc
flood = record {
  Event = ℕ;
  id = λ e. print_ℕ e;
  ledger = λ e. 12;
  decode = λ e. some (record raw_created { id = print_ℕ e });
  latest_ledger = some 20;
  get_events = λ from. some (page_at from);
}

next_of-filled : (from : From) → next_of from ≢ ""
next_of-filled (start_ledger n) e = let counted = ap pages_before e in omega (arith, counted)
next_of-filled (cursor c) e = let counted = ap pages_before e in omega (arith, counted)

left-next_of :
    (from : From)
    → ltb (length (take 100 (left from))) 100 ≡ false
    → left (cursor (next_of from)) ≡ drop 100 (left from)
left-next_of (start_ledger n) = elim (Bool-cases (leb n 12)) [
  | inl early ↦ rw early (λ full. refl)
  | inr late ↦ rw late (λ full. cc full)
]
left-next_of (cursor c) = λ full.
    ap (λ n. drop n (numbered 6000)) (omega arith)
    ∙ sym (drop-drop (pages_before c * 100) 100 (numbered 6000))

left-last :
    (from : From)
    → (((page_at from).next ≡ none) ⊎ ((page_at from).next ≡ some ""))
    → drop 100 (left from) ≡ []
left-last from = elim (Bool-cases (ltb (length (take 100 (left from))) 100)) [
  | inl short ↦ λ h. drop-short 100 (left from) (ltb→lt _ _ short)
  | inr full ↦
      rw full
        (λ h. elim h [ inl e ↦ cc e | inr e ↦ absurd (next_of-filled from (some-injective _ _ e)) ])
]

left-more :
    (from : From) (c : String)
    → (page_at from).next ≡ some c
    → left (cursor c) ≡ drop 100 (left from)
left-more from c = elim (Bool-cases (ltb (length (take 100 (left from))) 100)) [
  | inl short ↦ rw short (λ e. cc e)
  | inr full ↦
      rw full (λ e. ap (λ s. left (cursor s)) (some-injective _ _ (sym e)) ∙ left-next_of from full)
]

one_ledger-IsAscending : (es : List ℕ) → IsAscending (λ (e : ℕ). 12) es
one_ledger-IsAscending [] = tt
one_ledger-IsAscending (e ∷ es) =
    (All-intro (λ (e : ℕ). 12 ≤ 12) (λ e. omega arith) es, one_ledger-IsAscending es)

left_from : (n : ℕ) → All (λ (e : ℕ). n ≤ 12) (left (start_ledger n))
left_from n = elim (Bool-cases (leb n 12)) [
  | inl early ↦ All-intro (λ (e : ℕ). n ≤ 12) (λ e. leb→le n 12 early) _
  | inr late ↦ rw late tt
]

flood-Serves : Serves flood left
flood-Serves = record {
  page_events = λ from page e. ap (λ (p : Page ℕ). p.events) (some-injective _ _ (sym e));
  no_more = λ from page e h. left-last from (rw (← some-injective _ _ e) at h);
  more = λ from page c e h filled.
      left-more from c (ap (λ (p : Page ℕ). p.next) (some-injective _ _ e) ∙ h);
  ascending = λ from. one_ledger-IsAscending (left from);
  from_start = left_from;
}

flood-IsFlooded : IsFlooded in_memory flood left 12
flood-IsFlooded = record {
  decodes = λ e h. cc h;
  answers = λ from. (page_at from, refl);
  crowded = All-intro (λ (e : ℕ). 12 ≡ 12) (λ e. refl) _;
  many = rw (length-numbered 6000) (omega arith);
}

poll_stuck_example :
    let l = poll_events in_memory flood ("CESCROW" ∷ []) 500 listening in
    (l.last_processed_ledger ≡ 11) × (l.is_running ≡ true)
poll_stuck_example =
    poll_stuck in_memory flood left flood-Serves 12 flood-IsFlooded ("CESCROW" ∷ []) 500 20
      listening refl refl

poll_events-PassesSeen_example :
    PassesSeen in_memory flood left flood-Serves listening
      (poll_events in_memory flood ("CESCROW" ∷ []) 500 listening)
poll_events-PassesSeen_example =
    poll_events-PassesSeen in_memory flood left flood-Serves ("CESCROW" ∷ []) 500 listening
