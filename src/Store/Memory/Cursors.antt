-- ===== src/Store/Memory/Cursors.antt =====
-- The search for cursor rows of the client in memory.
use mathlib.Core.Path.{subst}
use mathlib.Core.Option.{some-injective}
use agrocylo_pip.Prelude.{
  All, Bool-cases, IsListed, List, Option, String, [], ap, eq_iff, if◌then◌else◌, inl, inr, none,
  refl, some, str_eq, sym, ◌∙◌, ◌∷◌, ◌≡◌,
}
use agrocylo_pip.Store.Tables.{IndexerCursor, Table}
use agrocylo_pip.Store.Client.{AreCursorsOf}

abbrev in_front :
    Option IndexerCursor → String → Option (List IndexerCursor) → Option (List IndexerCursor)
in_front o k none = none
in_front none k (some rows) = some rows
in_front (some r) k (some rows) = if str_eq r.contract_id k then some (r ∷ rows) else none

-- The rows of the keys, or none where a row stands under another key than its own
unfoldable pub cursors_of : Table IndexerCursor → List String → Option (List IndexerCursor)
cursors_of t [] = some []
cursors_of t (k ∷ ks) = in_front (t k) k (cursors_of t ks)

module _ (t : Table IndexerCursor) where
  AreCursorsOf-skip :
      (k : String) (ks : List String) (rows : List IndexerCursor)
      → t k ≡ none
      → AreCursorsOf t ks rows
      → AreCursorsOf t (k ∷ ks) rows
  AreCursorsOf-skip k ks rows missing (sound, complete) =
      (weaken rows sound, (λ r at. absurd (some-ne-none (sym at ∙ missing)), complete))
    where
      some-ne-none : {r : IndexerCursor} → some r ≡ none → ⊥
      some-ne-none e = cc

      weaken :
          (qs : List IndexerCursor)
          → All (λ (q : IndexerCursor). (t q.contract_id ≡ some q) × IsListed q.contract_id ks) qs
          → All
              (λ (q : IndexerCursor). (t q.contract_id ≡ some q) × IsListed q.contract_id (k ∷ ks))
              qs
      weaken [] _ = tt
      weaken (q ∷ qs) ((at, l), rest) = ((at, inr l), weaken qs rest)

  AreCursorsOf-cons :
      (k : String) (ks : List String) (r : IndexerCursor) (rows : List IndexerCursor)
      → t k ≡ some r
      → r.contract_id ≡ k
      → AreCursorsOf t ks rows
      → AreCursorsOf t (k ∷ ks) (r ∷ rows)
  AreCursorsOf-cons k ks r rows at own (sound, complete) = (
    ((ap t own ∙ at, inl (sym own)), weaken rows sound),
    (λ q at'. inl (some-injective _ _ (sym at ∙ at')), later ks complete),
  )
    where
      weaken :
          (qs : List IndexerCursor)
          → All (λ (q : IndexerCursor). (t q.contract_id ≡ some q) × IsListed q.contract_id ks) qs
          → All
              (λ (q : IndexerCursor). (t q.contract_id ≡ some q) × IsListed q.contract_id (k ∷ ks))
              qs
      weaken [] _ = tt
      weaken (q ∷ qs) ((at, l), rest) = ((at, inr l), weaken qs rest)

      later :
          (js : List String)
          → All (λ j. (q : IndexerCursor) → t j ≡ some q → IsListed q rows) js
          → All (λ j. (q : IndexerCursor) → t j ≡ some q → IsListed q (r ∷ rows)) js
      later [] _ = tt
      later (j ∷ js) (h, hs) = (λ q e. inr (h q e), later js hs)

  pub cursors_of_lem :
      (ks : List String) (rows : List IndexerCursor)
      → cursors_of t ks ≡ some rows
      → AreCursorsOf t ks rows
  unfolding cursors_of
  cursors_of_lem [] rows e = rw (← some-injective _ _ e) (tt, tt)
  cursors_of_lem (k ∷ ks) rows e = go (cursors_of_lem ks) (t k) (cursors_of t ks) refl refl e
    where
      go :
          ((qs : List IndexerCursor) → cursors_of t ks ≡ some qs → AreCursorsOf t ks qs)
          → (o : Option IndexerCursor) (rest : Option (List IndexerCursor)) → t k ≡ o
          → cursors_of t ks ≡ rest
          → in_front o k rest ≡ some rows
          → AreCursorsOf t (k ∷ ks) rows
      go ih o none at same h = cc
      go ih none (some others) at same h = AreCursorsOf-skip k ks rows at (ih rows (same ∙ h))
      go ih (some r) (some others) at same h = elim (Bool-cases (str_eq r.contract_id k)) [
        | inr other_ ↦ cc (rw other_ at h)
        | inl own ↦
            subst (AreCursorsOf t (k ∷ ks)) (some-injective _ _ (rw own at h))
              (AreCursorsOf-cons k ks r others at ((eq_iff r.contract_id k).0 own) (ih others same))
      ]
