-- ===== src/Session.antt =====
-- app/db.py: the tables and a session over them. `current` is what the session sees, its own writes
-- included; `committed` is what every other session sees.
pub mod Rows
use py_wallet_snapshot_servi.Prelude.{ℕ, Option, List, [], ◌∷◌, ◌==◌, if◌then◌else◌, find?}
use py_wallet_snapshot_servi.Models.{
  SnapshotRun, WalletSnapshot, ChainSnapshot, BalanceSnapshot, User, Wallet, Asset, ManualBalance,
  PriceHistory,
}

pub record Tables : Type 0 where
  pub runs : List SnapshotRun
  pub wallet_snapshots : List WalletSnapshot
  pub chain_snapshots : List ChainSnapshot
  pub balance_snapshots : List BalanceSnapshot
  pub users : List User
  pub wallets : List Wallet
  pub assets : List Asset
  pub manual_balances : List ManualBalance
  pub prices_history : List PriceHistory
  pub next_run : ℕ
  pub next_wallet_snapshot : ℕ
  pub next_chain_snapshot : ℕ
  pub next_balance_snapshot : ℕ
  pub next_asset : ℕ
  pub next_price : ℕ

pub record Session : Type 0 where
  pub committed : Tables
  pub current : Tables

-- `db.commit()`
abbrev pub commit : Session → Session
commit s = record { committed = s.current; current = s.current }

-- `db.rollback()`
abbrev pub rollback : Session → Session
rollback s = record { committed = s.committed; current = s.committed }

-- `db.get(SnapshotRun, id)`
abbrev pub get_run : ℕ → List SnapshotRun → Option SnapshotRun
get_run id = find? λ j. j.id == id

-- `UPDATE snapshot_runs ... WHERE id = ...`
abbrev pub update_run : ℕ → (SnapshotRun → SnapshotRun) → List SnapshotRun → List SnapshotRun
update_run id f [] = []
update_run id f (j ∷ js) = (if j.id == id then f j else j) ∷ update_run id f js

abbrev pub with_runs : List SnapshotRun → Session → Session
with_runs js s = record s { current = record s.current { runs = js } }
