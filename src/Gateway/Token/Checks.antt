-- ===== src/Gateway/Token/Checks.antt =====
-- What each check of `verifyWsToken` lets pass.
use agrocylo_pip.Prelude.{
  Bool, Option, String, ap, arith, eq_iff, false, length, none, not, refl, some, true, ℕ, ◌↔◌, ◌∙◌,
  ◌≡◌, ◌≢◌,
}
use agrocylo_pip.Prelude.Int.{negsuc, pos}
use agrocylo_pip.Prelude.Text.{concat, is_blank}
use agrocylo_pip.Js.{Value, int, number, other, string}
use agrocylo_pip.Gateway.Token.{
  Platform, TokenError, Verified, WsAuthClaims, base64_url_decode, check_header, claims_of,
  decode_json, equals_text, expired, has_passed, is_signed_by, malformed_header, missing_sub, ok,
  or_throw, property_of, subject_of, throw_unless, thrown, ◌>>=◌,
}
use agrocylo_pip.Gateway.Token.Spec.{Carries, IsLive}

module _ {ℓ κ} {A : Type ℓ} {B : Type κ} where
  pub bind-eq-ok :
      (step : Verified A) (rest : A → Verified B) {b : B}
      → (step >>= rest) ≡ ok b
      → (a : A) × (step ≡ ok a) × (rest a ≡ ok b)
  bind-eq-ok (ok a) rest h = (a, refl, h)
  bind-eq-ok (thrown x) rest h = cc

ok-injective : {a b : WsAuthClaims} → ok a ≡ ok b → a ≡ b
ok-injective h = cc

pub throw_unless-eq-ok :
    (b : Bool) (x : TokenError) {r : Unit {0}} → throw_unless b x ≡ ok r → b ≡ true
throw_unless-eq-ok true x h = refl
throw_unless-eq-ok false x h = cc

pub or_throw-eq-ok {ℓ} :
    {A : Type ℓ} (o : Option A) (x : TokenError) {a : A} → or_throw o x ≡ ok a → o ≡ some a
or_throw-eq-ok none x h = cc
or_throw-eq-ok (some a) x h = cc

equals_text-eq-true : (s : String) (v : Value) → equals_text s v ≡ true → v ≡ string s
equals_text-eq-true s (string t) h = ap string ((eq_iff t s).0 h)
equals_text-eq-true s v h = cc

pub is_blank-eq-false : (s : String) → (is_blank s ≡ false) ↔ (s ≢ "")
is_blank-eq-false String.[] = (λ h e. cc, λ h. absurd (h refl))
is_blank-eq-false (String.◌∷◌ c s) = (λ h e. cc, λ h. refl)

subject_of-eq-some : (v : Value) (s : String) → subject_of v ≡ some s → (v ≡ string s) × (s ≢ "")
subject_of-eq-some (string t) s h = subject_lem (is_blank-eq-false t) h
  where
    subject_lem :
        (is_blank t ≡ false) ↔ (t ≢ "")
        → subject_of (string t) ≡ some s
        → (string t ≡ string s) × (s ≢ "")
    subject_lem iff h = ground arith
subject_of-eq-some v s h = cc

pub not-true : {b : Bool} → not b ≡ true → b ≡ false
not-true {b} h = ground arith

module _ (platform : Platform) where
  has_passed-IsLive :
      (now : ℕ) (v : Value) → (has_passed platform now v ≡ false) ↔ IsLive platform now v
  unfolding has_passed
  has_passed-IsLive now (number (int (pos z))) = (λ h. ground arith, λ h. ground arith)
  has_passed-IsLive now (number (int (negsuc z))) = (λ h. cc, λ h. absurd h)
  has_passed-IsLive now (number (other s)) = (λ h. h, λ h. h)
  has_passed-IsLive now v = (λ h. tt, λ h. refl)

  pub is_signed_by_iff :
      (secret header payload signature : String)
      → (is_signed_by platform secret header payload signature ≡ true) ↔ (
          base64_url_decode platform signature
          ≡ platform.hmac_sha256 secret (concat header (concat "." payload)))
  unfolding is_signed_by
  is_signed_by_iff secret header payload signature =
      let expected = platform.hmac_sha256 secret (concat header (concat "." payload)) in
      let provided = base64_url_decode platform signature in
      let safe = platform.timing_safe_equal_iff expected provided in
      (λ h. ground (arith, safe), λ e. ground (arith, safe, ap length e))

  pub claims_of_sound :
      (now : ℕ) (content : Value) (claims : WsAuthClaims)
      → claims_of platform now content ≡ ok claims
      → Carries platform now content claims
  unfolding claims_of
  claims_of_sound now content claims h =
      let (sub_claim, is_sub, h₁) = bind-eq-ok (property_of "sub" content) _ h in
      let (sub, is_text, h₂) = bind-eq-ok (or_throw (subject_of sub_claim) missing_sub) _ h₁ in
      let (exp, is_exp, h₃) = bind-eq-ok (property_of "exp" content) _ h₂ in
      let (_, lives, h₄) =
        bind-eq-ok (throw_unless (not (has_passed platform now exp)) expired) _ h₃ in
      let (scopes, is_scopes, h₅) = bind-eq-ok (property_of "scopes" content) _ h₄ in
      let (scope, is_scope, h₆) = bind-eq-ok (property_of "scope" content) _ h₅ in
      let (text, named) = subject_of-eq-some sub_claim sub (or_throw-eq-ok _ _ is_text) in
      let same = ok-injective h₆ in
      record {
        exp = exp;
        scopes = scopes;
        scope = scope;
        subject = is_sub ∙ ap ok (text ∙ ap (λ (c : WsAuthClaims). string c.sub) same);
        named = λ e. named (ap (λ (c : WsAuthClaims). c.sub) same ∙ e);
        exp_claim = is_exp;
        live = (has_passed-IsLive now exp).0 (not-true (throw_unless-eq-ok _ _ lives));
        exp_kept = ap (λ (c : WsAuthClaims). c.exp) same;
        scopes_claim = is_scopes;
        scope_claim = is_scope;
        granted = ap (λ (c : WsAuthClaims). c.scopes) same;
      }

  pub claims_of_complete :
      (now : ℕ) (content : Value) (claims : WsAuthClaims)
      → Carries platform now content claims
      → claims_of platform now content ≡ ok claims
  unfolding claims_of
  claims_of_complete now content claims c = rw c.subject (
      rw ((is_blank-eq-false claims.sub).1 c.named) (
        rw c.exp_claim (
          rw ((has_passed-IsLive now c.exp).1 c.live)
            (rw c.scopes_claim (rw c.scope_claim (rw (c.granted, c.exp_kept)))))))

  pub check_header_iff :
      (part : String)
      → (check_header platform part ≡ ok tt) ↔ (
          (v : Value) × (platform.parse_json (platform.utf8 (base64_url_decode platform part))
            ≡ some v)
          × (property_of "alg" v ≡ ok (string "HS256")))
  unfolding check_header
  check_header_iff part = (
    λ h.
        let (v, parsed, h₁) = bind-eq-ok (decode_json platform part malformed_header) _ h in
        let (alg, is_alg, h₂) = bind-eq-ok (property_of "alg" v) _ h₁ in
        (
          v,
          or_throw-eq-ok _ _ parsed,
          is_alg ∙ ap ok (equals_text-eq-true "HS256" alg (throw_unless-eq-ok _ _ h₂)),
        ),
    λ (v, parsed, is_alg). rw (parsed, is_alg) refl,
  )
