-- ===== src/Client/FirstMatch.antt =====
-- The message of the first entry that fits, or the first line.
use Prim.Native.Char.{code}
use agrocylo_pip.Prelude.{
  All, Bool-cases, List, String, [], ap, arith, inl, inr, refl, true, ◌∷◌, ◌≡◌, ◌⊎◌,
}
use agrocylo_pip.Prelude.Text.{concat}
use agrocylo_pip.Client.Failures.{
  Failure, KnownFailure, begins, describe_contract_error, first_known, full_error_text,
  known_failures, lower, occurs, or_else, test, to_user_facing_error,
}

-- Two texts that differ at most in the case of letters
abbrev pub SameLetters : String → String → Type 0
SameLetters String.[] String.[] = Unit {0}
SameLetters String.[] (String.◌∷◌ d t) = ⊥
SameLetters (String.◌∷◌ c s) String.[] = ⊥
SameLetters (String.◌∷◌ c s) (String.◌∷◌ d t) = (lower (code c) ≡ lower (code d)) × SameLetters s t

-- A text begins with a pattern, in letters of either case; it has the pattern somewhere.
abbrev pub Begins : String → String → Type 0
Begins p text = (own rest : String) × (text ≡ concat own rest) × SameLetters p own

abbrev pub Has : String → String → Type 0
Has p text = (before : String) × (rest : String) × (text ≡ concat before rest) × Begins p rest

abbrev pub FitsAny : List String → String → Type 0
FitsAny [] text = ⊥
FitsAny (p ∷ ps) text = Has p text ⊎ FitsAny ps text

-- One of the patterns occurs in the text, in letters of either case.
abbrev pub Fits : KnownFailure → String → Type 0
Fits k text = FitsAny k.match text

-- The message of the first entry that fits
abbrev pub IsFirst : List KnownFailure → String → String → Type 0
IsFirst [] text message = ⊥
IsFirst (k ∷ ks) text message =
    (Fits k text × (message ≡ k.message)) ⊎ ((¬ Fits k text) × IsFirst ks text message)

begins-Begins : (p s : String) → begins p s ≡ true → Begins p s
unfolding begins
begins-Begins String.[] s h = (String.[], s, refl, tt)
begins-Begins (String.◌∷◌ c p) String.[] h = cc
begins-Begins (String.◌∷◌ c p) (String.◌∷◌ d s) h =
    let (own, rest, e, same) = begins-Begins p s (ground arith) in
    (String.◌∷◌ d own, rest, ap (String.◌∷◌ d) e, (ground arith, same))

SameLetters-begins : (p own rest : String) → SameLetters p own → begins p (concat own rest) ≡ true
unfolding begins
SameLetters-begins String.[] String.[] rest h = refl
SameLetters-begins String.[] (String.◌∷◌ d own) rest h = absurd h
SameLetters-begins (String.◌∷◌ c p) String.[] rest h = absurd h
SameLetters-begins (String.◌∷◌ c p) (String.◌∷◌ d own) rest (same, h) =
    ground (arith, SameLetters-begins p own rest h)

Begins-begins : (p s : String) → Begins p s → begins p s ≡ true
Begins-begins p s (own, rest, e, same) = rw e (SameLetters-begins p own rest same)

occurs-Has : (p s : String) → occurs p s ≡ true → Has p s
unfolding occurs
occurs-Has p String.[] h = (String.[], String.[], refl, begins-Begins p String.[] h)
occurs-Has p (String.◌∷◌ c s) h = elim (Bool-cases (begins p (String.◌∷◌ c s))) [
  | inl here ↦ (String.[], String.◌∷◌ c s, refl, begins-Begins p (String.◌∷◌ c s) here)
  | inr later ↦
      let (before, rest, e, b) = occurs-Has p s (ground arith) in
      (String.◌∷◌ c before, rest, ap (String.◌∷◌ c) e, b)
]

Begins-occurs : (p s : String) → begins p s ≡ true → occurs p s ≡ true
unfolding occurs
Begins-occurs p String.[] h = h
Begins-occurs p (String.◌∷◌ c s) h = rw h refl

concat-occurs : (p before rest : String) → Begins p rest → occurs p (concat before rest) ≡ true
unfolding occurs
concat-occurs p String.[] rest b = Begins-occurs p rest (Begins-begins p rest b)
concat-occurs p (String.◌∷◌ c before) rest b = ground (arith, concat-occurs p before rest b)

Has-occurs : (p s : String) → Has p s → occurs p s ≡ true
Has-occurs p s (before, rest, e, b) = rw e (concat-occurs p before rest b)

test-FitsAny : (ps : List String) (s : String) → test ps s ≡ true → FitsAny ps s
unfolding test
test-FitsAny [] s h = cc
test-FitsAny (p ∷ ps) s h = elim (Bool-cases (occurs p s)) [
  | inl here ↦ inl (occurs-Has p s here)
  | inr not_here ↦ inr (test-FitsAny ps s (ground arith))
]

FitsAny-test : (ps : List String) (s : String) → FitsAny ps s → test ps s ≡ true
unfolding test
FitsAny-test [] s h = absurd h
FitsAny-test (p ∷ ps) s (inl h) = rw (Has-occurs p s h) refl
FitsAny-test (p ∷ ps) s (inr h) = ground (arith, FitsAny-test ps s h)

-- The message is that of the first entry that fits; or no entry fits, and it is the given one.
abbrev pub Tells : List KnownFailure → String → String → String → Type 0
Tells ks text otherwise message =
    IsFirst ks text message ⊎ (All (λ k. ¬ Fits k text) ks × (message ≡ otherwise))

Tells-cons :
    (k : KnownFailure) (ks : List KnownFailure) (text otherwise message : String)
    → ¬ Fits k text
    → Tells ks text otherwise message
    → Tells (k ∷ ks) text otherwise message
Tells-cons k ks text otherwise message unfit (inl first) = inl (inr (unfit, first))
Tells-cons k ks text otherwise message unfit (inr (unfits, e)) = inr ((unfit, unfits), e)

first_known_lem :
    (ks : List KnownFailure) (text otherwise : String)
    → Tells ks text otherwise (or_else (first_known ks text) otherwise)
unfolding first_known
first_known_lem [] text otherwise = inr (tt, refl)
first_known_lem (k ∷ ks) text otherwise = elim (Bool-cases (test k.match text)) [
  | inl fits ↦ rw fits (inl (inl (test-FitsAny k.match text fits, refl)))
  | inr unfit ↦ rw unfit (
      Tells-cons k ks text otherwise (or_else (first_known ks text) otherwise)
        (λ f. cc (FitsAny-test k.match text f, unfit)) (first_known_lem ks text otherwise))
]

-- `toUserFacingError` answers the message of the first entry of the table of which a pattern occurs in
-- the failure's text, in letters of either case; where no entry has one, it answers what
-- `describeContractError` says of the failure.
pub to_user_facing_error_lem :
    (err : Failure)
    → Tells known_failures
        (full_error_text err)
        (describe_contract_error err)
        (to_user_facing_error err)
unfolding to_user_facing_error
to_user_facing_error_lem err =
    first_known_lem known_failures (full_error_text err) (describe_contract_error err)
