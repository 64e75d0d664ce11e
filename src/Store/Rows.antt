-- ===== src/Store/Rows.antt =====
-- What an action that returns leaves of one campaign's row.
use mathlib.Core.Path.{subst}
use agrocylo_pip.Prelude.{
  ◌≡◌, refl, ap, ◌∙◌, Option, none, some, String, Bool, arith, if◌then◌else◌,
}
use text.Mathlib.TextPositions.{eq_refl}
use agrocylo_pip.Prelude.Int.{ℤ}
use agrocylo_pip.Prelude.Decimal.{parse_ℤ}
use agrocylo_pip.Js.{Number}
use agrocylo_pip.Store.Tables.{Campaign, Snapshot}
use agrocylo_pip.Store.Client.{
  Write, update_campaign, upsert_campaign, update_many_campaigns, apply, Prisma,
}
use agrocylo_pip.Store.Action.{
  returned, Action, pure, ◌>>=◌, or_not_integer, big_int_of_text, big_int_of_number, run,
  find_open_dispute, find_transaction,
}
use agrocylo_pip.Store.Returns.{
  bind_returned, run_returned, view-find_open_dispute, view-find_transaction,
}

-- The writes of the tables other than the campaigns
abbrev pub IsElsewhere : Write → Type 0
IsElsewhere (upsert_campaign _ _ _) = ⊥
IsElsewhere (update_campaign _ _) = ⊥
IsElsewhere (update_many_campaigns _ _) = ⊥
IsElsewhere _ = Unit

elsewhere_campaigns :
    (w : Write) (v v' : Snapshot) → IsElsewhere w → apply w v ≡ some v' → v'.campaigns ≡ v.campaigns
unfolding apply
elsewhere_campaigns (upsert_campaign _ _ _) v v' h e = elim h [ ]
elsewhere_campaigns (update_campaign _ _) v v' h e = elim h [ ]
elsewhere_campaigns (update_many_campaigns _ _) v v' h e = elim h [ ]
elsewhere_campaigns _ v v' h e = ground arith

update_campaign_lem :
    (k : String) (f : Campaign → Campaign) (c : Campaign) (v v' : Snapshot)
    → apply (update_campaign k f) v ≡ some v'
    → v.campaigns k ≡ some c
    → v'.campaigns k ≡ some (f c)
unfolding apply
update_campaign_lem k f c v v' e at = ground (arith, eq_refl k)

upsert_campaign_lem :
    (k : String) (f : Campaign → Campaign) (r c : Campaign) (v v' : Snapshot)
    → apply (upsert_campaign k f r) v ≡ some v'
    → v.campaigns k ≡ some c
    → v'.campaigns k ≡ some (f c)
unfolding apply
upsert_campaign_lem k f r c v v' e at = ground (arith, eq_refl k)

update_many_campaigns_lem :
    (k : String) (test : Campaign → Bool) (f : Campaign → Campaign) (c : Campaign) (v v' : Snapshot)
    → apply (update_many_campaigns test f) v ≡ some v'
    → v.campaigns k ≡ some c
    → v'.campaigns k ≡ some (if test c then f c else c)
unfolding apply
update_many_campaigns_lem k test f c v v' e at = ground arith

module _ (prisma : Prisma) (k : String) (c : Campaign) where
  open prisma use {State, view}

  -- Where campaign `k` has the row `c` and the action returns `a`, it has a row `c'` with `Q a c'`.
  pub record Leaves {A : Type 0} (Q : A → Campaign → Type 0) (m : Action State A) : Type 0 where
    pub row :
        (s : State) (a : A)
        → (view s).campaigns k ≡ some c
        → (m s).0 ≡ returned a
        → (c' : Campaign) × ((view (m s).1).campaigns k ≡ some c') × Q a c'

  -- The action keeps the row, and what it returns satisfies `F`.
  abbrev pub Keeps : {A : Type 0} (F : A → Type 0) → Action State A → Type 0
  Keeps F = Leaves (λ a c'. (c' ≡ c) × F a)

  pub Leaves-bind :
      {A B : Type 0} {F : A → Type 0} {Q : B → Campaign → Type 0}
      → (m : Action State A) (f : A → Action State B) → Keeps F m
      → ((a : A) → F a → Leaves Q (f a))
      → Leaves Q (m >>= f)
  Leaves-bind m f first rest = record {
    row = λ s b at e.
        let (a, got, e', same) = bind_returned m f s b e in
        let (c', at', (kept, fact)) = first.row s a at got in
        let (c'', at'', q) = (rest a fact).row (m s).1 b (at' ∙ ap some kept) e' in
        (c'', rw same at'', q);
  }

  pub Leaves-pure : {A : Type 0} {Q : A → Campaign → Type 0} (a : A) → Q a c → Leaves Q (pure a)
  unfolding pure
  Leaves-pure {A} {Q} a q = record {
    row = λ s b at e. (c, at, subst (λ x. Q x c) (returned_inj e) q);
  }
    where
      returned_inj : {x y : A} → returned x ≡ returned y → x ≡ y
      returned_inj e = cc

  pub Leaves-map :
      {A : Type 0} {Q R : A → Campaign → Type 0} {m : Action State A}
      → ((a : A) (c' : Campaign) → Q a c' → R a c')
      → Leaves Q m
      → Leaves R m
  Leaves-map f h = record {
    row = λ s a at e. let (c', at', q) = h.row s a at e in (c', at', f a c' q);
  }

  or_not_integer-Keeps : (o : Option ℤ) → Keeps (λ z. o ≡ some z) (or_not_integer {S = State} o)
  or_not_integer-Keeps (some z) = record { row = λ s a at e. (c, at, (refl, cc)) }
  or_not_integer-Keeps none = record { row = λ s a at e. cc }

  pub Keeps-big_int_of_text :
      (t : String) → Keeps (λ z. parse_ℤ t ≡ some z) (big_int_of_text {S = State} t)
  unfolding big_int_of_text
  Keeps-big_int_of_text t = or_not_integer-Keeps _

  pub Keeps-big_int_of_number : (n : Number) → Keeps (λ _. Unit) (big_int_of_number {S = State} n)
  unfolding big_int_of_number
  Keeps-big_int_of_number n = record {
    row = λ s a at e.
        let (c', at', (kept, _)) = (or_not_integer-Keeps _).row s a at e in (c', at', (kept, tt));
  }

  pub Keeps-find_open_dispute : (j : String) → Keeps (λ _. Unit) (find_open_dispute prisma j)
  Keeps-find_open_dispute j = record {
    row = λ s a at e.
        (c, ap (λ v. v.campaigns k) (view-find_open_dispute prisma j s) ∙ at, (refl, tt));
  }

  pub Keeps-find_transaction : (j : String) → Keeps (λ _. Unit) (find_transaction prisma j)
  Keeps-find_transaction j = record {
    row = λ s a at e.
        (c, ap (λ v. v.campaigns k) (view-find_transaction prisma j s) ∙ at, (refl, tt));
  }

  pub Keeps-run : (w : Write) → IsElsewhere w → Keeps (λ _. Unit) (run prisma w)
  Keeps-run w h = record {
    row = λ s a at e.
        let kept = elsewhere_campaigns w _ _ h (run_returned prisma w s e) in
        (c, ap (λ t. t k) kept ∙ at, (refl, tt));
  }

  pub Leaves-update :
      {Q : Unit {0} → Campaign → Type 0} (f : Campaign → Campaign)
      → Q tt (f c)
      → Leaves Q (run prisma (update_campaign k f))
  Leaves-update f q = record {
    row = λ s a at e. (f c, update_campaign_lem k f c _ _ (run_returned prisma _ s e) at, q);
  }

  pub Leaves-upsert :
      {Q : Unit {0} → Campaign → Type 0} (f : Campaign → Campaign) (r : Campaign)
      → Q tt (f c)
      → Leaves Q (run prisma (upsert_campaign k f r))
  Leaves-upsert f r q = record {
    row = λ s a at e. (f c, upsert_campaign_lem k f r c _ _ (run_returned prisma _ s e) at, q);
  }

  pub Leaves-update_many :
      {Q : Unit {0} → Campaign → Type 0} (test : Campaign → Bool) (f : Campaign → Campaign)
      → Q tt (if test c then f c else c)
      → Leaves Q (run prisma (update_many_campaigns test f))
  Leaves-update_many test f q = record {
    row = λ s a at e. (
      (if test c then f c else c),
      update_many_campaigns_lem k test f c _ _ (run_returned prisma _ s e) at,
      q,
    );
  }

-- A bind whose first part changes the row
pub Leaves-then :
    {prisma : Prisma} {k : String} {c : Campaign} {A B : Type 0} {Q : A → Campaign → Type 0}
    {R : B → Campaign → Type 0} (m : Action (prisma.State) A) (f : A → Action (prisma.State) B)
    → Leaves prisma k c Q m
    → ((a : A) (c' : Campaign) → Q a c' → Leaves prisma k c' R (f a))
    → Leaves prisma k c R (m >>= f)
Leaves-then m f first rest = record {
  row = λ s b at e.
      let (a, got, e', same) = bind_returned m f s b e in
      let (c', at', q) = first.row s a at got in
      let (c'', at'', r) = (rest a c' q).row (m s).1 b at' e' in (c'', rw same at'', r);
}
