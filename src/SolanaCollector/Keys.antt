-- ===== src/SolanaCollector/Keys.antt =====
-- The addresses that app/services/solana_collector.py accepts.
use py_wallet_snapshot_servi.Prelude.{
  ℕ, zero, suc, ◌+◌, ◌-◌, ◌/◌, ◌^◌, ◌≤◌, ◌<◌, ◌≡◌, refl, true, false, Option, none, some, is_empty,
  arith, Text, text_eq_sound, strip,
}
use native.Mathlib.Numerals.{unary_clauses}
use py_wallet_snapshot_servi.SolanaCollector.{
  base58_number, byte_length, byte_length_from, leading_ones, is_valid_address,
}

byte_length_from-lt : (f n : ℕ) → n ≤ f → n < 256 ^ byte_length_from f n
unfolding byte_length_from
byte_length_from-lt zero n h = omega arith
byte_length_from-lt (suc f) zero h = omega arith
byte_length_from-lt (suc f) (suc m) h =
    let bound = byte_length_from-lt f (suc m / 256) (omega arith) in
    simp unary_clauses (omega arith)

byte_length-lt : (n : ℕ) → n < 256 ^ byte_length n
unfolding byte_length
byte_length-lt n = byte_length_from-lt n n (omega arith)

byte_length_from-ge : (f n m : ℕ) → n ≤ f → byte_length_from f n ≡ suc m → 256 ^ m ≤ n
unfolding byte_length_from
byte_length_from-ge zero n m h e = absurd (ground arith)
byte_length_from-ge (suc f) zero m h e = absurd (ground arith)
byte_length_from-ge (suc f) (suc n) zero h e = simp unary_clauses (omega arith)
byte_length_from-ge (suc f) (suc n) (suc m) h e =
    let bound = byte_length_from-ge f (suc n / 256) m (omega arith) (omega arith) in
    simp unary_clauses (omega arith)

byte_length-ge : (n m : ℕ) → byte_length n ≡ suc m → 256 ^ m ≤ n
unfolding byte_length
byte_length-ge n m e = byte_length_from-ge n n m (omega arith) e

-- What an accepted address is: without space around it, in the alphabet of base 58, and with the bytes
-- of its leading ones a number that fits 32 bytes and fills those that are left.
pub record IsKey (address : Text) : Type 0 where
  pub stripped : address ≡ strip address
  pub nonempty : is_empty address ≡ false
  pub number : ℕ
  pub decoded : base58_number address ≡ some number
  pub fits : number < 256 ^ (32 - leading_ones address)
  pub fills : (m : ℕ) → 32 - leading_ones address ≡ suc m → 256 ^ m ≤ number
  pub ones : leading_ones address ≤ 32

-- An accepted address has no space around it, is in the alphabet of base 58, and its leading ones, at
-- most 32, leave of 32 bytes as many as the number that it writes needs and no more; so its key has
-- exactly 32 bytes.
pub is_valid_address-IsKey : (address : Text) → is_valid_address address ≡ true → IsKey address
unfolding is_valid_address
is_valid_address-IsKey address h = cases (base58_number address) refl
  where
    cases : (o : Option ℕ) → base58_number address ≡ o → IsKey address
    cases none e = absurd (ground arith)
    cases (some n) e =
        let length : leading_ones address + byte_length n ≡ 32 = ground arith in
        let bound : n < 256 ^ byte_length n = byte_length-lt n in
        let same : byte_length n ≡ 32 - leading_ones address = omega arith in
        record {
          stripped = text_eq_sound address (strip address) (ground arith);
          nonempty = ground arith;
          number = n;
          decoded = e;
          fits = rw (← same) bound;
          fills = λ m k. byte_length-ge n m (omega arith);
          ones = omega arith;
        }
