-- ===== src/Store/Returns.antt =====
-- What is known of an action that returned.
use agrocylo_pip.Prelude.{List, Option, String, refl, some, ◌≡◌}
use agrocylo_pip.Store.Tables.{IndexerCursor, Transaction}
use agrocylo_pip.Store.Client.{AreCursorsOf, Prisma, Response, Write, apply, done, refused}
use agrocylo_pip.Store.Action.{
  Action, Fault, Outcome, awaited, continue_with, find_cursors, find_open_dispute, find_transaction,
  returned, run, threw, ◌>>=◌,
}

continue_with-returned :
    {S A B : Type 0} (f : A → Action S B) (r : Outcome A) (s : S) (b : B)
    → (continue_with f r s).0 ≡ returned b
    → (a : A) × (r ≡ returned a) × ((f a s).0 ≡ returned b) × (continue_with f r s ≡ f a s)
continue_with-returned f (returned a) s b e = (a, refl, e, refl)
continue_with-returned f (threw x) s b e = cc

-- A bind that returned: its first part returned, and it is its second part from there.
pub bind_returned :
    {S A B : Type 0} (m : Action S A) (f : A → Action S B) (s : S) (b : B)
    → ((m >>= f) s).0 ≡ returned b
    → (a : A) × ((m s).0 ≡ returned a)
      × ((f a (m s).1).0 ≡ returned b)
      × ((m >>= f) s ≡ f a (m s).1)
unfolding ◌>>=◌
bind_returned m f s b e = continue_with-returned f (m s).0 (m s).1 b e

-- Once the first part has returned, the bind is its second part.
pub bind_step :
    {S A B : Type 0} (m : Action S A) (f : A → Action S B) (s : S) (a : A)
    → (m s).0 ≡ returned a
    → (m >>= f) s ≡ f a (m s).1
unfolding ◌>>=◌
bind_step m f s a e = rw e

pub bind_threw :
    {S A B : Type 0} (m : Action S A) (f : A → Action S B) (s : S) (x : Fault)
    → (m s).0 ≡ threw x
    → (m >>= f) s ≡ (threw x, (m s).1)
unfolding ◌>>=◌
bind_threw m f s x e = rw e

awaited_returned : {A : Type 0} (r : Response A) (a : A) → awaited r ≡ returned a → r ≡ done a
awaited_returned (done b) a e = cc
awaited_returned (refused why) a e = cc

awaited_threw :
    {A : Type 0} (r : Response A) (x : Fault)
    → awaited r ≡ threw x
    → (why : String) × (r ≡ refused why)
awaited_threw (done b) x e = cc
awaited_threw (refused why) x e = (why, refl)

module _ (prisma : Prisma) where
  open prisma use {State, view}

  pub run_returned :
      (w : Write) (s : State)
      → (run prisma w s).0 ≡ returned tt
      → apply w (view s) ≡ some (view (run prisma w s).1)
  unfolding run
  run_returned w s e = prisma.write_done w s (awaited_returned _ _ e)

  pub find_transaction_returned :
      (k : String) (s : State) (r : Option Transaction)
      → (find_transaction prisma k s).0 ≡ returned r
      → r ≡ (view s).transactions k
  unfolding find_transaction
  find_transaction_returned k s r e = prisma.find_transaction_done k s r (awaited_returned _ _ e)

  pub view-find_transaction :
      (k : String) (s : State) → view (find_transaction prisma k s).1 ≡ view s
  unfolding find_transaction
  view-find_transaction k s = prisma.find_transaction_reads k s

  pub view-find_open_dispute :
      (k : String) (s : State) → view (find_open_dispute prisma k s).1 ≡ view s
  unfolding find_open_dispute
  view-find_open_dispute k s = prisma.find_open_dispute_reads k s

  pub view-run_threw :
      (w : Write) (s : State) (x : Fault)
      → (run prisma w s).0 ≡ threw x
      → view (run prisma w s).1 ≡ view s
  unfolding run
  view-run_threw w s x e =
      let (why, said) = awaited_threw _ x e in prisma.write_refused w s why said

  pub find_cursors_returned :
      (ids : List String) (s : State) (rows : List IndexerCursor)
      → (find_cursors prisma ids s).0 ≡ returned rows
      → AreCursorsOf (view s).cursors ids rows
  unfolding find_cursors
  find_cursors_returned ids s rows e = prisma.find_cursors_done ids s rows (awaited_returned _ _ e)
