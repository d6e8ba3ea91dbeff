-- ===== src/Access.antt =====
-- app/config.py and app/api/auth.py: the checks of the internal token.
use py_wallet_snapshot_servi.Prelude.{
  ℕ, ◌≤◌, ◌≡◌, refl, Bool, true, false, not, ◌||◌, Option, none, some, List, [], ◌∷◌, length, ltb,
  if◌then◌else◌, arith, Text, codes, text_eq, text_eq_sound, text_in, strip, lower, is_empty,
}
use py_wallet_snapshot_servi.Result.{Result, ok, raise, value_error, http_exception}

pub data Environment : Type 0 where
  local development test staging production : Environment

abbrev pub is_secure : Environment → Bool
is_secure staging = true
is_secure production = true
is_secure _ = false

abbrev pub insecure_internal_api_tokens : List Text
insecure_internal_api_tokens =
    codes "change-me"
    ∷ codes "changeme"
    ∷ codes "password"
    ∷ codes "secret"
    ∷ codes "test-token"
    ∷ []

abbrev pub min_production_token_length : ℕ
min_production_token_length = 32

pub record AccessSettings : Type 0 where
  pub environment : Environment
  pub internal_api_token : Text

-- The checks in staging and production.
abbrev pub validate_secure : AccessSettings → Result AccessSettings
validate_secure s =
    if text_in (lower s.internal_api_token) insecure_internal_api_tokens
    then raise (value_error (codes "INTERNAL_API_TOKEN cannot use a known placeholder"))
    else if ltb (length s.internal_api_token) min_production_token_length
    then raise (
        value_error
          (codes "INTERNAL_API_TOKEN must be at least 32 characters in staging or production"))
    else ok s

unfoldable pub validate_internal_api_token : AccessSettings → Result AccessSettings
validate_internal_api_token s =
    if is_empty s.internal_api_token || is_empty (strip s.internal_api_token)
    then raise (value_error (codes "INTERNAL_API_TOKEN is required"))
    else if not (text_eq s.internal_api_token (strip s.internal_api_token))
    then raise (value_error (codes "INTERNAL_API_TOKEN must not contain surrounding whitespace"))
    else if is_secure s.environment
    then validate_secure s
    else ok s

-- `require_internal_token`, given the header of the request.
unfoldable pub require_internal_token : AccessSettings → Option Text → Result (Unit {0})
require_internal_token s none = raise (http_exception 401 (codes "invalid internal token"))
require_internal_token s (some token) =
    if text_eq token s.internal_api_token
    then ok tt
    else raise (http_exception 401 (codes "invalid internal token"))

-- What a request that is let in carries.
pub record IsAdmitted (s : AccessSettings) (token : Text) : Type 0 where
  pub is_configured : token ≡ s.internal_api_token
  pub nonblank : is_empty (strip token) ≡ false
  pub stripped : token ≡ strip token
  pub long : is_secure s.environment ≡ true → min_production_token_length ≤ length token
  pub unguessed :
      is_secure s.environment ≡ true → text_in (lower token) insecure_internal_api_tokens ≡ false

valid-IsAdmitted :
    (s : AccessSettings) → validate_internal_api_token s ≡ ok s → IsAdmitted s s.internal_api_token
unfolding validate_internal_api_token
valid-IsAdmitted s v = record {
  is_configured = refl;
  nonblank = ground arith;
  stripped = text_eq_sound s.internal_api_token (strip s.internal_api_token) (ground arith);
  long = λ e. ground arith;
  unguessed = λ e. ground arith;
}

-- Under settings that the validator accepts, a request is let in only with a header that holds the
-- configured token; this is not blank and has no space around it, and in staging and production it
-- has at least 32 characters and is none of the known placeholders, in any case of letters.
pub require_internal_token-IsAdmitted :
    (s : AccessSettings) (header : Option Text)
    → validate_internal_api_token s ≡ ok s
    → require_internal_token s header ≡ ok tt
    → (token : Text) × (header ≡ some token) × IsAdmitted s token
unfolding require_internal_token
require_internal_token-IsAdmitted s none v h = absurd (ground arith)
require_internal_token-IsAdmitted s (some token) v h =
    let same = text_eq_sound token s.internal_api_token (ground arith) in
    (token, refl, rw same (valid-IsAdmitted s v))
