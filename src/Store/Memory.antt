-- ===== src/Store/Memory.antt =====
-- A client in memory, which shows that the laws of `Prisma` can hold. Its schedule says, call by
-- call, whether the connection is up; past its end it is up. It refuses the search for
-- a dispute, as any client may.
pub mod Cursors
use Cursors.{cursors_of, cursors_of_lem}
use agrocylo_pip.Prelude.{
  Bool, List, Option, String, [], ap, arith, false, if◌then◌else◌, none, refl, some, sym, true, ◌∷◌,
  ◌≡◌, ◌≢◌,
}
use agrocylo_pip.Store.Tables.{IndexerCursor, Snapshot}
use agrocylo_pip.Store.Client.{Prisma, Response, Write, apply, done, refused}

pub record Memory : Type 0 where
  pub tables : Snapshot
  pub schedule : List Bool

abbrev is_up : List Bool → Bool
is_up [] = true
is_up (b ∷ _) = b

abbrev later : List Bool → List Bool
later [] = []
later (_ ∷ bs) = bs

abbrev commit : Memory → Option Snapshot → Response (Unit {0}) × Memory
commit m none = (refused "constraint", record m { schedule = later m.schedule })
commit m (some v) = (done tt, record { tables = v; schedule = later m.schedule })

abbrev attempt : Bool → Write → Memory → Response (Unit {0}) × Memory
attempt true w m = commit m (apply w m.tables)
attempt false w m = (refused "connection", record m { schedule = later m.schedule })

unfoldable pub write : Write → Memory → Response (Unit {0}) × Memory
unfolding apply
write w m = attempt (is_up m.schedule) w m

abbrev read : {A : Type 0} → Memory → A → Response A × Memory
read m a = (
  if is_up m.schedule then done a else refused "connection",
  record m { schedule = later m.schedule },
)

abbrev unsupported : {A : Type 0} → Memory → Response A × Memory
unsupported m = (refused "unsupported", m)

commit_done :
    (m : Memory) (o : Option Snapshot) → (commit m o).0 ≡ done tt → o ≡ some (commit m o).1.tables
commit_done m none e = cc
commit_done m (some v) e = refl

commit_refused :
    (m : Memory) (o : Option Snapshot) (why : String)
    → (commit m o).0 ≡ refused why
    → (commit m o).1.tables ≡ m.tables
commit_refused m none why e = refl
commit_refused m (some v) why e = cc

attempt_done :
    (b : Bool) (w : Write) (m : Memory)
    → (attempt b w m).0 ≡ done tt
    → apply w m.tables ≡ some (attempt b w m).1.tables
attempt_done true w m e = commit_done m _ e
attempt_done false w m e = cc

attempt_refused :
    (b : Bool) (w : Write) (m : Memory) (why : String)
    → (attempt b w m).0 ≡ refused why
    → (attempt b w m).1.tables ≡ m.tables
attempt_refused true w m why e = commit_refused m _ why e
attempt_refused false w m why e = refl

pub write_done :
    (w : Write) (m : Memory)
    → (write w m).0 ≡ done tt
    → apply w m.tables ≡ some (write w m).1.tables
unfolding write
write_done w m e = attempt_done (is_up m.schedule) w m e

pub write_refused :
    (w : Write) (m : Memory) (why : String)
    → (write w m).0 ≡ refused why
    → (write w m).1.tables ≡ m.tables
unfolding write
write_refused w m why e = attempt_refused (is_up m.schedule) w m why e

pub read_done : {A : Type 0} (m : Memory) (a r : A) → (read m a).0 ≡ done r → r ≡ a
read_done m a r e = ground arith

pub unsupported-ne-done : {A : Type 0} (m : Memory) (r : A) → (unsupported m).0 ≢ done r
unsupported-ne-done m r e = cc e

-- A search for cursors is refused where a row stands under another key than its own.
abbrev find_cursors : Memory → Option (List IndexerCursor) → Response (List IndexerCursor) × Memory
find_cursors m none = (refused "corrupt", m)
find_cursors m (some rows) = read m rows

pub find_cursors_done :
    (m : Memory) (o : Option (List IndexerCursor)) (rows : List IndexerCursor)
    → (find_cursors m o).0 ≡ done rows
    → o ≡ some rows
find_cursors_done m none rows e = cc
find_cursors_done m (some found) rows e = ap some (sym (read_done m found rows e))

pub find_cursors_reads :
    (m : Memory) (o : Option (List IndexerCursor)) → (find_cursors m o).1.tables ≡ m.tables
find_cursors_reads m none = refl
find_cursors_reads m (some rows) = refl

abbrev pub in_memory : Prisma
in_memory = record {
  State = Memory;
  view = λ m. m.tables;
  write = write;
  find_transaction = λ k m. read m (m.tables.transactions k);
  find_open_dispute = λ k m. unsupported m;
  find_cursors = λ ids m. find_cursors m (cursors_of m.tables.cursors ids);
  write_done = write_done;
  write_refused = write_refused;
  find_transaction_done = λ k m r e. read_done m _ r e;
  find_transaction_reads = λ k m. refl;
  find_open_dispute_done = λ k m r e. absurd (unsupported-ne-done m r e);
  find_open_dispute_reads = λ k m. refl;
  find_cursors_done =
      λ ids m rows e. cursors_of_lem m.tables.cursors ids rows (find_cursors_done m _ rows e);
  find_cursors_reads = λ ids m. find_cursors_reads m (cursors_of m.tables.cursors ids);
}

abbrev pub no_rows : Snapshot
no_rows = record {
  campaigns = λ k. none;
  investments = λ k. none;
  users = λ k. none;
  transactions = λ k. none;
  disputes = λ k. none;
  tranches = λ k. none;
  cursors = λ k. none;
}

abbrev pub starting_with : List Bool → Memory
starting_with schedule = record { tables = no_rows; schedule = schedule }
