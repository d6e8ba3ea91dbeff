-- ===== src/Tests/Tokens.antt =====
-- The internal token at a concrete input.
use py_wallet_snapshot_servi.Prelude.{◌≡◌, refl, some, Text, codes, strip, lower, text_eq, text_in}
use py_wallet_snapshot_servi.Result.{ok}
use py_wallet_snapshot_servi.Access.{
  production, AccessSettings, validate_internal_api_token, require_internal_token, IsAdmitted,
  require_internal_token-IsAdmitted,
}

abbrev pub token : Text
token = codes "0123456789abcdef0123456789ABCDEF"

abbrev pub access : AccessSettings
access = record { environment = production; internal_api_token = token }

pub access_valid : validate_internal_api_token access ≡ ok access
unfolding validate_internal_api_token strip lower text_eq text_in
access_valid = refl

access_granted : require_internal_token access (some token) ≡ ok tt
unfolding require_internal_token text_eq
access_granted = refl

require_internal_token-IsAdmitted_example : (t : Text) × (some token ≡ some t) × IsAdmitted access t
require_internal_token-IsAdmitted_example =
    require_internal_token-IsAdmitted access (some token) access_valid access_granted
