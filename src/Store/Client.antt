-- ===== src/Store/Client.antt =====
-- The Prisma client is not part of the repository: it is a parameter. `Write` names the calls that
-- the indexer makes, `apply` is what Prisma documents for each of them over the constraints of
-- server/prisma/schema.prisma, and `Prisma` is a client that keeps to it. A client may refuse any call
-- (a lost connection, a value out of a column's range); a refused call has changed nothing.
use agrocylo_pip.Prelude.{
  ◌≡◌, Option, none, some, Bool, true, false, ◌&&◌, not, String, List, All, IsListed, if◌then◌else◌,
}
use agrocylo_pip.Prelude.Int.{◌≤ℤ◌}
use agrocylo_pip.Store.Tables.{
  Campaign, Investment, User, Transaction, Dispute, Tranche, IndexerCursor, Table, put, Snapshot,
}

pub data Write : Type 0 where
  upsert_user : (address : String) (update : User → User) (create : User) → Write
  upsert_campaign : (id : String) (update : Campaign → Campaign) (create : Campaign) → Write
  update_campaign : (id : String) (update : Campaign → Campaign) → Write
  update_many_campaigns : (where_ : Campaign → Bool) (update : Campaign → Campaign) → Write
  create_investment : Investment → Write
  create_tranche : Tranche → Write
  create_dispute : Dispute → Write
  update_dispute : (id : String) (update : Dispute → Dispute) → Write
  create_transaction : Transaction → Write
  upsert_cursor :
      (contract_id : String) (update : IndexerCursor → IndexerCursor) (create : IndexerCursor)
      → Write

abbrev pub is_some {ℓ} : {A : Type ℓ} → Option A → Bool
is_some none = false
is_some (some _) = true

-- A foreign key that may be null
abbrev references {ℓ} : {A : Type ℓ} → (String → Option A) → Option String → Bool
references t none = true
references t (some k) = is_some (t k)

abbrev pub upserted : {Row : Type 0} → (Row → Row) → Row → Option Row → Row
upserted update create none = create
upserted update create (some r) = update r

abbrev changed : {Row : Type 0} → (Row → Bool) → (Row → Row) → Option Row → Option Row
changed test update none = none
changed test update (some r) = some (if test r then update r else r)

abbrev updated :
    {Row : Type 0}
    → (Table Row → Snapshot)
    → String
    → (Row → Row)
    → Table Row
    → Option Row
    → Option Snapshot
updated set k update t none = none
updated set k update t (some r) = some (set (put k (update r) t))

abbrev created :
    {Row : Type 0} → (Table Row → Snapshot) → Bool → String → Row → Table Row → Option Snapshot
created set refs k r t = if not (is_some (t k)) && refs then some (set (put k r t)) else none

-- The documented meaning of a call; `none` where it violates a constraint or finds no row.
unfoldable pub apply : Write → Snapshot → Option Snapshot
apply (upsert_user k update create) v =
    some (record v { users = put k (upserted update create (v.users k)) v.users })
apply (upsert_campaign k update create) v =
    some (record v { campaigns = put k (upserted update create (v.campaigns k)) v.campaigns })
apply (update_campaign k update) v =
    updated (λ t. record v { campaigns = t }) k update v.campaigns (v.campaigns k)
apply (update_many_campaigns test update) v =
    some (record v { campaigns = λ k. changed test update (v.campaigns k) })
apply (upsert_cursor k update create) v =
    some (record v { cursors = put k (upserted update create (v.cursors k)) v.cursors })
apply (create_investment r) v =
    created (λ t. record v { investments = t })
      (is_some (v.campaigns r.campaign_id) && is_some (v.users r.investor)) r.id r v.investments
apply (create_tranche r) v =
    created (λ t. record v { tranches = t }) (is_some (v.campaigns r.campaign_id)) r.id r v.tranches
apply (create_dispute r) v =
    created (λ t. record v { disputes = t }) (is_some (v.campaigns r.campaign_id)) r.id r v.disputes
apply (update_dispute k update) v =
    updated (λ t. record v { disputes = t }) k update v.disputes (v.disputes k)
apply (create_transaction r) v =
    created (λ t. record v { transactions = t })
      (references v.campaigns r.campaign_id && references v.users r.user_id) r.id r v.transactions

pub data Response {ℓ} (A : Type ℓ) : Type ℓ where
  done : A → Response A
  refused : String → Response A

-- `where: { campaignId, status: 'Open' }`
abbrev pub IsOpenFor : String → Dispute → Type 0
IsOpenFor k d = (d.campaign_id ≡ k) × (d.status ≡ "Open")

-- `orderBy: { openedAt: 'desc' }`: the latest, or none where there is none
abbrev pub IsLatestOpen : Table Dispute → String → Option Dispute → Type 0
IsLatestOpen t k none = (j : String) (d : Dispute) → t j ≡ some d → ¬ (IsOpenFor k d)
IsLatestOpen t k (some d) =
    (t d.id ≡ some d)
    × IsOpenFor k d
    × ((j : String) (e : Dispute) → t j ≡ some e → IsOpenFor k e → e.opened_at ≤ℤ d.opened_at)

-- `where: { contractId: { in: ids } }`: the rows of the table with a listed key, and all of them
abbrev pub AreCursorsOf : Table IndexerCursor → List String → List IndexerCursor → Type 0
AreCursorsOf t ids rows =
    All (λ (r : IndexerCursor). (t r.contract_id ≡ some r) × IsListed r.contract_id ids) rows
    × All (λ k. (r : IndexerCursor) → t k ≡ some r → IsListed r rows) ids

pub record Prisma : Type 1 where
  pub State : Type 0
  pub view : State → Snapshot
  pub write : Write → State → Response (Unit {0}) × State
  pub find_transaction : String → State → Response (Option Transaction) × State
  pub find_open_dispute : String → State → Response (Option Dispute) × State
  pub find_cursors : List String → State → Response (List IndexerCursor) × State
  pub write_done :
      (w : Write) (s : State)
      → (write w s).0 ≡ done tt
      → apply w (view s) ≡ some (view (write w s).1)
  pub write_refused :
      (w : Write) (s : State) (why : String)
      → (write w s).0 ≡ refused why
      → view (write w s).1 ≡ view s
  pub find_transaction_done :
      (k : String) (s : State) (r : Option Transaction)
      → (find_transaction k s).0 ≡ done r
      → r ≡ (view s).transactions k
  pub find_transaction_reads : (k : String) (s : State) → view (find_transaction k s).1 ≡ view s
  pub find_cursors_done :
      (ids : List String) (s : State) (rows : List IndexerCursor)
      → (find_cursors ids s).0 ≡ done rows
      → AreCursorsOf (view s).cursors ids rows
  pub find_cursors_reads : (ids : List String) (s : State) → view (find_cursors ids s).1 ≡ view s
  pub find_open_dispute_done :
      (k : String) (s : State) (r : Option Dispute)
      → (find_open_dispute k s).0 ≡ done r
      → IsLatestOpen (view s).disputes k r
  pub find_open_dispute_reads : (k : String) (s : State) → view (find_open_dispute k s).1 ≡ view s
