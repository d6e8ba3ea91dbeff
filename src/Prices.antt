-- ===== src/Prices.antt =====
-- The price service as the collectors call it: a price with its source, or neither.
use py_wallet_snapshot_servi.Prelude.{Option, Text}
use py_wallet_snapshot_servi.Decimal.{Decimal}

pub record Prices : Type 1 where
  pub State : Type 0
  pub get_usd_price : Text → State → State × Option Decimal × Option Text
  pub get_token_usd_price : Text → Text → State → State × Option Decimal × Option Text
