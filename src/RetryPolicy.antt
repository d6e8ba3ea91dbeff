-- ===== src/RetryPolicy.antt =====
-- app/services/retry_policy.py: which errors are worth another try.
use py_wallet_snapshot_servi.Prelude.{
  Bool, false, not, ◌&&◌, Option, none, some, List, [], ◌∷◌, Text, is_empty, text_in,
}
use py_wallet_snapshot_servi.Enums.{ErrorType, error_type_value}

abbrev pub temporary_errors : List Text
temporary_errors =
    error_type_value ErrorType.timeout
    ∷ error_type_value ErrorType.rate_limit
    ∷ error_type_value ErrorType.circuit_open
    ∷ error_type_value ErrorType.connection_error
    ∷ error_type_value ErrorType.rpc_error
    ∷ []

abbrev pub permanent_errors : List Text
permanent_errors =
    error_type_value ErrorType.invalid_address
    ∷ error_type_value ErrorType.unsupported_chain
    ∷ error_type_value ErrorType.missing_rpc_url
    ∷ error_type_value ErrorType.bad_config
    ∷ []

unfoldable pub should_retry : Option Text → Bool
unfolding text_in
should_retry none = false
should_retry (some error_type) =
    not (is_empty error_type)
    && text_in error_type temporary_errors
    && not (text_in error_type permanent_errors)
