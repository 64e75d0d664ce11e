-- ===== src/Store/Laws.antt =====
-- What single writes keep and establish.
use agrocylo_pip.Prelude.{◌≡◌, Option, some, String, arith, eq_iff}
use text.Mathlib.TextPositions.{eq_refl}
use agrocylo_pip.Store.Tables.{Transaction, Snapshot}
use agrocylo_pip.Store.Client.{Write, upsert_user, create_transaction, apply}
use agrocylo_pip.Store.Trace.{IsWriteFor}

-- The handlers' writes leave the audit rows alone.
pub domain_write_transactions :
    (o : Option String) (w : Write) (v v' : Snapshot)
    → IsWriteFor o w
    → apply w v ≡ some v'
    → v'.transactions ≡ v.transactions
unfolding apply
domain_write_transactions o (upsert_user k f r) v v' h e = ground arith
domain_write_transactions o (create_transaction t) v v' h e = elim h [ ]
domain_write_transactions o _ v v' h e = ground arith

-- An audit row is never changed or removed.
pub write_keeps_transaction :
    (k : String) (t : Transaction) (w : Write) (v v' : Snapshot)
    → apply w v ≡ some v'
    → v.transactions k ≡ some t
    → v'.transactions k ≡ some t
unfolding apply
write_keeps_transaction k t (create_transaction r) v v' e p = ground (arith, eq_iff r.id k)
write_keeps_transaction k t (upsert_user j f r) v v' e p = ground arith
write_keeps_transaction k t _ v v' e p = ground arith

pub create_transaction_lem :
    (t : Transaction) (v v' : Snapshot)
    → apply (create_transaction t) v ≡ some v'
    → v'.transactions t.id ≡ some t
unfolding apply
create_transaction_lem t v v' e = ground (arith, eq_refl t.id)
