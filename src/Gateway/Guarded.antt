-- ===== src/Gateway/Guarded.antt =====
-- What the guard of the private channels lets through, and what it keeps of the private rooms.
use agrocylo_pip.Prelude.{
  Bool-cases, IsListed, List, Option, String, [], ap, inl, inr, none, refl, some, sym, ℕ, ◌∙◌, ◌∷◌,
  ◌≡◌,
}
use agrocylo_pip.Prelude.Text.{has, has-IsListed, is_blank}
use agrocylo_pip.Js.{Value}
use agrocylo_pip.Gateway.Token.{Platform, Verified, WsAuthClaims, ok, thrown, verify_ws_token}
use agrocylo_pip.Gateway.Handshake.{Handshake, extract_token_from_handshake}
use agrocylo_pip.Gateway.Rooms.{notifications_read_scope}
use agrocylo_pip.Gateway.Io.{Io}
use agrocylo_pip.Gateway.Membership.{IsPrivate, disconnect-IsPrivate}
use agrocylo_pip.Gateway.Sockets.{
  Guarded, Reply, Sockets, admit, admit_claims, after_guard, allowed, authenticate, can_activate,
  connect_with, denied, guarded, missing, token_or_empty,
}
use mathlib.Core.Path.{subst}
use text.Mathlib.TextPositions.{eq_refl}

allowed-injective : {S : Type 0} {s t : S} → allowed s ≡ allowed t → s ≡ t
allowed-injective h = cc

missing-nil :
    (r : String) (granted : List String) → missing (r ∷ []) granted ≡ [] → IsListed r granted
unfolding missing
missing-nil r granted h = elim (Bool-cases (has granted r)) [
  | inl held ↦ has-IsListed granted r held
  | inr lacking ↦ cc (rw lacking at h)
]

module _ (io : Io) (platform : Platform) (secret : String) (handshake_of : String → Handshake)
    (template : Value → Option String) where
  abbrev State : Type 0
  State = Sockets (io.State)

  abbrev pub token_of : String → String
  token_of k = token_or_empty (extract_token_from_handshake (handshake_of k))

  -- A token of the socket's handshake was accepted, for this subject and with the scope.
  abbrev pub IsEntitled : String → String → Type 0
  IsEntitled k sub =
      (now : ℕ) × (claims : WsAuthClaims) × (verify_ws_token platform (token_of k) secret now
        ≡ ok claims)
      × IsListed notifications_read_scope claims.scopes
      × (claims.sub ≡ sub)

  abbrev pub IsSafe : State → Type 0
  IsSafe s = IsPrivate io IsEntitled s.rooms

  authenticate-IsSafe :
      (k : String) (v : Verified WsAuthClaims) (s : State)
      → IsSafe s
      → IsSafe (authenticate io platform secret handshake_of template k v s)
  unfolding authenticate
  authenticate-IsSafe k (ok claims) s h = h
  authenticate-IsSafe k (thrown x) s h = disconnect-IsPrivate io IsEntitled s.rooms h k

  pub connect_with-IsSafe :
      (now : ℕ) (k : String) (token : Option String) (s : State)
      → IsSafe s
      → IsSafe (connect_with io platform secret handshake_of template now k token s)
  unfolding connect_with
  connect_with-IsSafe now k none s h = h
  connect_with-IsSafe now k (some token) s h = elim (Bool-cases (is_blank token)) [
    | inl blank ↦ rw blank h
    | inr given ↦ rw given (authenticate-IsSafe k _ s h)
  ]

  admit_claims_allowed :
      (lacking : List String) (k : String) (claims : WsAuthClaims) (s s' : State)
      → admit_claims io platform secret handshake_of template lacking k claims s ≡ allowed s'
      → (lacking ≡ []) × (s'.auth k ≡ some claims) × (s'.rooms ≡ s.rooms)
  unfolding admit_claims
  admit_claims_allowed [] k claims s s' e =
      let same = allowed-injective e in
      (
        refl,
        ap (λ (t : State). t.auth k) (sym same) ∙ rw (eq_refl k) refl,
        ap (λ (t : State). t.rooms) (sym same),
      )
  admit_claims_allowed (r ∷ rs) k claims s s' e = cc

  admit_allowed :
      (k : String) (v : Verified WsAuthClaims) (s s' : State)
      → admit io platform secret handshake_of template (notifications_read_scope ∷ []) k v s
        ≡ allowed s'
      → (claims : WsAuthClaims) × (v ≡ ok claims)
        × IsListed notifications_read_scope claims.scopes
        × (s'.auth k ≡ some claims)
        × (s'.rooms ≡ s.rooms)
  unfolding admit
  admit_allowed k (ok claims) s s' e =
      let (none_lacks, kept, same) = admit_claims_allowed _ k claims s s' e in
      (claims, refl, missing-nil _ claims.scopes none_lacks, kept, same)
  admit_allowed k (thrown x) s s' e = cc

  -- A handler that is safe after a guard that allows is safe under the guard.
  pub guarded-IsSafe :
      (handler : String → State → Reply × State) (now : ℕ) (k : String) (s : State)
      → IsSafe s
      → ((s' : State) (claims : WsAuthClaims)
          → s'.auth k ≡ some claims
          → IsEntitled k claims.sub
          → IsSafe s'
          → IsSafe (handler k s').1)
      → IsSafe
          (guarded io platform secret handshake_of template
            (notifications_read_scope ∷ [])
            handler
            now
            k
            s).1
  unfolding guarded
  guarded-IsSafe handler now k s h safe = go _ refl
    where
      go :
          (g : Guarded State)
          → can_activate io platform secret handshake_of template
              (notifications_read_scope ∷ [])
              now
              k
              s
            ≡ g
          → IsSafe (after_guard io platform secret handshake_of template handler k s g).1
      go (denied why) e = h
      go (allowed s') e =
          let (claims, verified, scoped, kept, same) = admit_allowed k _ s s' e in
          safe s' claims kept (now, claims, verified, scoped, refl)
            (subst (IsPrivate io IsEntitled) (sym same) h)
