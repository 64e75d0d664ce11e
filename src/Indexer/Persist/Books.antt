-- ===== src/Indexer/Persist/Books.antt =====
-- What each handler that returns leaves of the row of the campaign that its event names.
use agrocylo_pip.Prelude.{
  ◌≡◌, refl, sym, ap, Option, none, some, Bool-cases, inl, inr, String, str_eq, ◌&&◌, if◌then◌else◌,
}
use text.Mathlib.TextPositions.{eq_refl}
use agrocylo_pip.Js.{Number}
use agrocylo_pip.Indexer.Types.{
  ParsedEvent, Payload, DisputeResolvedData, CampaignCreatedData, CampaignEscrowCreatedData,
  CampaignFailedData, CampaignFundedData, CampaignInvestedData, CampaignSettledData,
  DisputeOpenedData, HarvestReportedData, TrancheReleasedData,
}
use agrocylo_pip.Indexer.Handlers.{
  retitled, ensure_user, handle_campaign_escrow_created, handle_campaign_invested,
  handle_contrib_reconciled, handle_campaign_funded, handle_tranche_released,
  handle_harvest_reported, handle_campaign_failed, handle_dispute_opened, close_dispute,
  handle_dispute_resolved, handle_campaign_settled, handle_campaign_created, set_status,
}
use agrocylo_pip.Indexer.Persist.Accounts.{account_of, account_after, restated}
use agrocylo_pip.Store.Tables.{Campaign, Dispute}
use agrocylo_pip.Store.Client.{Prisma}
use agrocylo_pip.Store.Action.{Action}
use agrocylo_pip.Store.Rows.{
  Leaves, Keeps, Leaves-bind, Leaves-pure, Keeps-big_int_of_text, Keeps-big_int_of_number,
  Keeps-find_open_dispute, Keeps-run, Leaves-update, Leaves-upsert, Leaves-update_many,
}

module _ (prisma : Prisma) where
  open prisma use {State, view}

  -- The action leaves the row `c` of campaign `k` as the payload says.
  abbrev pub Books : String → Campaign → Payload → Action State (Unit {0}) → Type 0
  Books k c p = Leaves prisma k c (λ _ c'. account_after p (account_of c) ≡ some (account_of c'))

  module _ {k : String} {c : Campaign} where
    pub ensure_user-Keeps :
        (a : String) (n : Number) → Keeps prisma k c (λ _. Unit) (ensure_user prisma a n)
    unfolding ensure_user
    ensure_user-Keeps a n =
        Leaves-bind prisma k c _ _ (Keeps-big_int_of_number prisma k c n)
          (λ t _. Keeps-run prisma k c _ tt)

  pub handle_campaign_invested-Books :
      (parsed : ParsedEvent) (d : CampaignInvestedData) (c : Campaign)
      → Books d.campaign_id c (Payload.invested d) (handle_campaign_invested prisma parsed d)
  unfolding handle_campaign_invested
  handle_campaign_invested-Books parsed d c =
      Leaves-bind prisma _ c _ _ (ensure_user-Keeps _ _) (λ _ _.
        Leaves-bind prisma _ c _ _ (Keeps-big_int_of_text prisma _ c _) (λ amount is.
          Leaves-bind prisma _ c _ _ (Keeps-big_int_of_number prisma _ c _) (λ _ _.
            Leaves-bind prisma _ c _ _ (Keeps-run prisma _ c _ tt)
              (λ _ _. Leaves-update prisma _ c _ (rw is refl)))))

  pub handle_contrib_reconciled-Books :
      (d : CampaignInvestedData) (c : Campaign)
      → Books d.campaign_id c (Payload.contrib_reconciled d) (handle_contrib_reconciled prisma d)
  unfolding handle_contrib_reconciled
  handle_contrib_reconciled-Books d c = Leaves-bind prisma _ c _ _ (ensure_user-Keeps _ _) (λ _ _.
      Leaves-bind prisma _ c _ _ (Keeps-big_int_of_text prisma _ c _)
        (λ amount is. Leaves-update prisma _ c _ (rw is refl)))

  pub handle_campaign_funded-Books :
      (d : CampaignFundedData) (c : Campaign)
      → Books d.campaign_id c (Payload.funded d) (handle_campaign_funded prisma d)
  unfolding handle_campaign_funded
  handle_campaign_funded-Books d c =
      Leaves-bind prisma _ c _ _ (Keeps-big_int_of_text prisma _ c _)
        (λ total is. Leaves-update prisma _ c _ (rw is refl))

  pub handle_tranche_released-Books :
      (parsed : ParsedEvent) (d : TrancheReleasedData) (c : Campaign)
      → c.id ≡ d.campaign_id
      → Books d.campaign_id c (Payload.tranche_released d) (handle_tranche_released prisma parsed d)
  unfolding handle_tranche_released
  handle_tranche_released-Books parsed d c keyed =
      Leaves-bind prisma _ c _ _ (ensure_user-Keeps _ _) (λ _ _.
        Leaves-bind prisma _ c _ _ (Keeps-big_int_of_text prisma _ c _) (λ _ _.
          Leaves-bind prisma _ c _ _ (Keeps-big_int_of_number prisma _ c _) (λ _ _.
            Leaves-bind prisma _ c _ _ (Keeps-run prisma _ c _ tt)
              (λ _ _. Leaves-update_many prisma _ c _ _ in_production))))
    where
      in_production :
          account_after (Payload.tranche_released d) (account_of c)
          ≡ some (
              account_of (
                if str_eq c.id d.campaign_id && str_eq c.status "Funded"
                then record c { status = "InProduction" }
                else c))
      in_production =
          rw (keyed, eq_refl d.campaign_id)
            (elim (Bool-cases (str_eq c.status "Funded")) [
              | inl funded ↦ rw funded refl
              | inr other ↦ rw other refl
            ])

  pub handle_harvest_reported-Books :
      (d : HarvestReportedData) (c : Campaign)
      → Books d.campaign_id c (Payload.harvest_reported d) (handle_harvest_reported prisma d)
  unfolding handle_harvest_reported
  handle_harvest_reported-Books d c =
      Leaves-bind prisma _ c _ _ (Keeps-big_int_of_number prisma _ c _)
        (λ _ _. Leaves-update prisma _ c _ refl)

  pub handle_campaign_failed-Books :
      (d : CampaignFailedData) (c : Campaign)
      → Books d.campaign_id c (Payload.failed d) (handle_campaign_failed prisma d)
  unfolding handle_campaign_failed
  handle_campaign_failed-Books d c =
      Leaves-bind prisma _ c _ _ (Keeps-big_int_of_text prisma _ c _)
        (λ refundable is. Leaves-update prisma _ c _ (rw is refl))

  pub handle_dispute_opened-Books :
      (parsed : ParsedEvent) (d : DisputeOpenedData) (c : Campaign)
      → Books d.campaign_id c (Payload.dispute_opened d) (handle_dispute_opened prisma parsed d)
  unfolding handle_dispute_opened
  handle_dispute_opened-Books parsed d c =
      Leaves-bind prisma _ c _ _ (ensure_user-Keeps _ _) (λ _ _.
        Leaves-bind prisma _ c _ _ (Keeps-big_int_of_number prisma _ c _) (λ _ _.
          Leaves-bind prisma _ c _ _ (Keeps-run prisma _ c _ tt)
            (λ _ _. Leaves-update prisma _ c _ refl)))

  close_dispute-Keeps :
      (d : DisputeResolvedData) (k : String) (c : Campaign) (o : Option Dispute)
      → Keeps prisma k c (λ _. Unit) (close_dispute prisma d o)
  unfolding close_dispute
  close_dispute-Keeps d k c none = Leaves-pure prisma k c tt (refl, tt)
  close_dispute-Keeps d k c (some r) =
      Leaves-bind prisma k c _ _ (Keeps-big_int_of_text prisma k c _) (λ _ _.
        Leaves-bind prisma k c _ _ (Keeps-big_int_of_text prisma k c _) (λ _ _.
          Leaves-bind prisma k c _ _ (Keeps-big_int_of_number prisma k c _)
            (λ _ _. Keeps-run prisma k c _ tt)))

  pub handle_dispute_resolved-Books :
      (d : DisputeResolvedData) (c : Campaign)
      → Books d.campaign_id c (Payload.dispute_resolved d) (handle_dispute_resolved prisma d)
  unfolding handle_dispute_resolved
  handle_dispute_resolved-Books d c =
      Leaves-bind prisma _ c _ _ (Keeps-find_open_dispute prisma _ c _) (λ o _.
        Leaves-bind prisma _ c _ _ (close_dispute-Keeps d _ c o) (λ _ _.
          Leaves-bind prisma _ c _ _ (Keeps-big_int_of_text prisma _ c _)
            (λ refundable is. Leaves-update prisma _ c _ (rw is refl))))

  pub handle_campaign_settled-Books :
      (d : CampaignSettledData) (c : Campaign)
      → Books d.campaign_id c (Payload.settled d) (handle_campaign_settled prisma d)
  unfolding handle_campaign_settled
  handle_campaign_settled-Books d c =
      Leaves-bind prisma _ c _ _ (Keeps-big_int_of_text prisma _ c _)
        (λ returns is. Leaves-update prisma _ c _ (rw is refl))

  pub handle_campaign_escrow_created-Books :
      (d : CampaignEscrowCreatedData) (c : Campaign)
      → Books d.campaign_id c (Payload.escrow_created d) (handle_campaign_escrow_created prisma d)
  unfolding handle_campaign_escrow_created
  handle_campaign_escrow_created-Books d c =
      Leaves-bind prisma _ c _ _ (ensure_user-Keeps _ _) (λ _ _.
        Leaves-bind prisma _ c _ _ (Keeps-big_int_of_text prisma _ c _) (λ _ _.
          Leaves-bind prisma _ c _ _ (Keeps-big_int_of_number prisma _ c _)
            (λ _ _. Leaves-upsert prisma _ c _ _ refl)))

  account_of-retitled :
      (farmer : String) (title : Option String) (c : Campaign)
      → account_of (retitled farmer title c) ≡ account_of c
  account_of-retitled farmer none c = refl
  account_of-retitled farmer (some title) c = refl

  pub handle_campaign_created-Books :
      (d : CampaignCreatedData) (c : Campaign)
      → Books d.campaign_id c (Payload.created d) (handle_campaign_created prisma d)
  unfolding handle_campaign_created
  handle_campaign_created-Books d c = Leaves-bind prisma _ c _ _ (ensure_user-Keeps _ _) (λ _ _.
      Leaves-bind prisma _ c _ _ (Keeps-big_int_of_number prisma _ c _) (λ _ _.
        Leaves-upsert prisma _ c _ _ (ap some (sym (account_of-retitled d.farmer d.title c)))))

  pub set_status-Books :
      (k : String) (o : Option String) (c : Campaign)
      → Leaves prisma k c
          (λ _ c'. some (restated o (account_of c)) ≡ some (account_of c'))
          (set_status prisma k o)
  unfolding set_status
  set_status-Books k none c = Leaves-pure prisma k c tt refl
  set_status-Books k (some status) c = elim (Bool-cases (str_eq status "")) [
    | inl empty ↦ rw empty (Leaves-pure prisma k c tt refl)
    | inr filled ↦ rw filled (Leaves-update prisma k c _ refl)
  ]
