-- ===== src/Store/Action.antt =====
-- An async method over the database: it returns or throws, and what was written stays written.
use agrocylo_pip.Prelude.{Option, none, some, String, List}
use agrocylo_pip.Prelude.Int.{ℤ}
use agrocylo_pip.Prelude.Decimal.{parse_ℤ}
use agrocylo_pip.Js.{Number, int, other}
use agrocylo_pip.Store.Tables.{Transaction, Dispute, IndexerCursor}
use agrocylo_pip.Store.Client.{Write, Response, done, refused, Prisma}

pub data Fault : Type 0 where
  call_refused : String → Fault
  not_an_integer : Fault

pub data Outcome (A : Type 0) : Type 0 where
  returned : A → Outcome A
  threw : Fault → Outcome A

abbrev pub Action : Type 0 → Type 0 → Type 0
Action S A = S → Outcome A × S

unfoldable pub pure : {S A : Type 0} → A → Action S A
pure a s = (returned a, s)

abbrev pub continue_with : {S A B : Type 0} → (A → Action S B) → Outcome A → Action S B
continue_with f (returned a) s = f a s
continue_with f (threw e) s = (threw e, s)

infixl 5 ◌>>=◌ ◌>>◌
unfoldable pub ◌>>=◌ : {S A B : Type 0} → Action S A → (A → Action S B) → Action S B
unfolding pure
◌>>=◌ m f s = continue_with f (m s).0 (m s).1

abbrev pub ◌>>◌ : {S B : Type 0} → Action S (Unit {0}) → Action S B → Action S B
m >> k = m >>= λ _. k

abbrev pub awaited : {A : Type 0} → Response A → Outcome A
awaited (done a) = returned a
awaited (refused why) = threw (call_refused why)

abbrev pub or_not_integer : {S : Type 0} → Option ℤ → Action S ℤ
or_not_integer (some z) s = (returned z, s)
or_not_integer none s = (threw not_an_integer, s)

-- `BigInt(s)` on text that `toString` made
unfoldable pub big_int_of_text : {S : Type 0} → String → Action S ℤ
big_int_of_text t = or_not_integer (parse_ℤ t)

abbrev integer_part : Number → Option ℤ
integer_part (int z) = some z
integer_part (other _) = none

-- `BigInt(n)`, a `RangeError` for a number that is not integral
unfoldable pub big_int_of_number : {S : Type 0} → Number → Action S ℤ
big_int_of_number n = or_not_integer (integer_part n)

-- The awaited calls of the client.
module _ (prisma : Prisma) where
  unfoldable pub run : Write → Action prisma.State (Unit {0})
  run w s = let (r, s') = prisma.write w s in (awaited r, s')

  unfoldable pub find_transaction : String → Action prisma.State (Option Transaction)
  find_transaction k s = let (r, s') = prisma.find_transaction k s in (awaited r, s')

  unfoldable pub find_open_dispute : String → Action prisma.State (Option Dispute)
  find_open_dispute k s = let (r, s') = prisma.find_open_dispute k s in (awaited r, s')

  unfoldable pub find_cursors : List String → Action prisma.State (List IndexerCursor)
  find_cursors ids s = let (r, s') = prisma.find_cursors ids s in (awaited r, s')
