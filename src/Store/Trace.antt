-- ===== src/Store/Trace.antt =====
-- What an action has done to the tables, whether it returned or threw: a sequence of writes.
use mathlib.Core.Path.{subst}
use agrocylo_pip.Prelude.{◌≡◌, refl, sym, Option, none, some, true, String}
use agrocylo_pip.Prelude.Int.{ℤ}
use agrocylo_pip.Js.{Number}
use agrocylo_pip.Store.Tables.{Campaign, Snapshot}
use agrocylo_pip.Store.Client.{
  Write, upsert_user, upsert_campaign, update_campaign, update_many_campaigns, create_investment,
  create_tranche, create_dispute, update_dispute, create_transaction, upsert_cursor, apply,
  Response, done, refused, Prisma,
}
use agrocylo_pip.Store.Action.{
  Outcome, returned, threw, Action, pure, continue_with, ◌>>=◌, or_not_integer, big_int_of_text,
  big_int_of_number, run, find_transaction, find_open_dispute,
}

pub data Trace (Allowed : Write → Type 0) (v : Snapshot) : Snapshot → Type 0 where
  here : {u : Snapshot} → v ≡ u → Trace Allowed v u
  next :
      {u u' : Snapshot}
      → Trace Allowed v u
      → (w : Write) → Allowed w
      → apply w u ≡ some u'
      → Trace Allowed v u'

pub Trace-trans :
    {Allowed : Write → Type 0} {v u t : Snapshot}
    → Trace Allowed v u
    → Trace Allowed u t
    → Trace Allowed v t
Trace-trans {Allowed} {v} a (here e) = subst (Trace Allowed v) e a
Trace-trans a (next b w h e) = next (Trace-trans a b) w h e

-- What each allowed write keeps, a sequence of them keeps.
pub Trace-keeps :
    {Allowed : Write → Type 0} (P : Snapshot → Type 0)
    → ((w : Write) (u u' : Snapshot) → Allowed w → apply w u ≡ some u' → P u → P u')
    → {v u : Snapshot} → Trace Allowed v u
    → P v
    → P u
Trace-keeps P keep (here e) h = subst P e h
Trace-keeps P keep (next a w allowed e) h = keep w _ _ allowed e (Trace-keeps P keep a h)

pub Trace-weaken :
    {Allowed Allowed' : Write → Type 0}
    → ((w : Write) → Allowed w → Allowed' w)
    → {v u : Snapshot} → Trace Allowed v u
    → Trace Allowed' v u
Trace-weaken h (here e) = here e
Trace-weaken h (next a w allowed e) = next (Trace-weaken h a) w (h w allowed) e

module _ (prisma : Prisma) where
  open prisma use {State, view}

  pub record Performs {A : Type 0} (Allowed : Write → Type 0) (m : Action State A) : Type 0 where
    pub trace : (s : State) → Trace Allowed (view s) (view (m s).1)

  module _ {Allowed : Write → Type 0} where
    pub Performs-pure : {A : Type 0} (a : A) → Performs Allowed (pure a)
    unfolding pure
    Performs-pure a = record { trace = λ s. here refl }

    pub Performs-bind :
        {A B : Type 0} (m : Action State A) (f : A → Action State B)
        → Performs Allowed m
        → ((a : A) → Performs Allowed (f a))
        → Performs Allowed (m >>= f)
    unfolding ◌>>=◌
    Performs-bind {A} {B} m f pm pf = record {
      trace = λ s. Trace-trans (pm.trace s) (go (m s).0 (m s).1);
    }
      where
        go : (r : Outcome A) (s : State) → Trace Allowed (view s) (view (continue_with f r s).1)
        go (returned a) s = (pf a).trace s
        go (threw e) s = here refl

    or_not_integer-Performs : (o : Option ℤ) → Performs Allowed (or_not_integer {S = State} o)
    or_not_integer-Performs (some z) = record { trace = λ s. here refl }
    or_not_integer-Performs none = record { trace = λ s. here refl }

    pub Performs-big_int_of_text : (t : String) → Performs Allowed (big_int_of_text {S = State} t)
    unfolding big_int_of_text
    Performs-big_int_of_text t = or_not_integer-Performs _

    pub Performs-big_int_of_number :
        (n : Number) → Performs Allowed (big_int_of_number {S = State} n)
    unfolding big_int_of_number
    Performs-big_int_of_number n = or_not_integer-Performs _

    pub Performs-run : (w : Write) → Allowed w → Performs Allowed (run prisma w)
    unfolding run
    Performs-run w h = record { trace = λ s. go s (prisma.write w s).0 refl }
      where
        go :
            (s : State) (r : Response (Unit {0}))
            → (prisma.write w s).0 ≡ r
            → Trace Allowed (view s) (view (prisma.write w s).1)
        go s (done tt) e = next (here refl) w h (prisma.write_done w s e)
        go s (refused why) e = here (sym (prisma.write_refused w s why e))

    pub Performs-find_transaction : (k : String) → Performs Allowed (find_transaction prisma k)
    unfolding find_transaction
    Performs-find_transaction k = record {
      trace = λ s. here (sym (prisma.find_transaction_reads k s));
    }

    pub Performs-find_open_dispute : (k : String) → Performs Allowed (find_open_dispute prisma k)
    unfolding find_open_dispute
    Performs-find_open_dispute k = record {
      trace = λ s. here (sym (prisma.find_open_dispute_reads k s));
    }

pub ruleset performs_rules = (
  Performs-pure, Performs-bind, Performs-big_int_of_text, Performs-big_int_of_number, Performs-run,
  Performs-find_transaction, Performs-find_open_dispute,
)

-- The writes of the handler of an event that names the campaign `o`, or none
abbrev pub IsWriteFor : Option String → Write → Type 0
IsWriteFor o (upsert_user _ _ _) = Unit
IsWriteFor o (upsert_campaign k _ _) = o ≡ some k
IsWriteFor o (update_campaign k _) = o ≡ some k
IsWriteFor o (update_many_campaigns test _) = (c : Campaign) → test c ≡ true → o ≡ some c.id
IsWriteFor o (create_investment r) = o ≡ some r.campaign_id
IsWriteFor o (create_tranche r) = o ≡ some r.campaign_id
IsWriteFor o (create_dispute r) = o ≡ some r.campaign_id
IsWriteFor o (update_dispute _ _) = Unit
IsWriteFor o (create_transaction _) = ⊥
IsWriteFor o (upsert_cursor _ _ _) = ⊥
