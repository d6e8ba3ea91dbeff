-- ===== src/Decimal.antt =====
-- Python's `decimal.Decimal` in its default context, as the service computes with it: 28 significant
-- digits, rounding half to even. A value is `coef * 10 ^ exp`; the sign of a zero, infinities and
-- NaN are not kept apart, and exponents are unbounded.
use py_wallet_snapshot_servi.Prelude.{
  ℕ, zero, suc, ◌+◌, ◌-◌, ◌*◌, ◌/◌, ◌%◌, ◌^◌, Bool, ◌&&◌, ◌||◌, ltb, ◌==◌, if◌then◌else◌, ℤ, pos,
  negsuc, pos_part, neg_part, not, Option, none, some, ◌+ℤ◌, ◌-ℤ◌, ◌*ℤ◌, ltb_ℤ,
}

pub record Decimal : Type 0 where
  pub coef : ℤ
  pub exp : ℤ

abbrev pub of_ℤ : ℤ → Decimal
of_ℤ a = record { coef = a; exp = pos 0 }

abbrev pub of_ℕ : ℕ → Decimal
of_ℕ n = record { coef = pos n; exp = pos 0 }

-- `Decimal("0")`
abbrev pub zero_usd : Decimal
zero_usd = of_ℕ 0

-- `value > 0`
abbrev pub is_positive : Decimal → Bool
is_positive d = ltb_ℤ (pos 0) d.coef

abbrev precision : ℕ
precision = 28

-- The number of decimal digits; the fuel `n` is more than enough, and what is left of it is not run.
digit_count_from : ℕ → ℕ → ℕ
digit_count_from zero n = 1
digit_count_from (suc f) n =
    let rest = digit_count_from f (n / 10) in if ltb n 10 then 1 else rest + 1

pub digit_count : ℕ → ℕ
unfolding digit_count_from
digit_count n = digit_count_from n n

-- n / 10 ^ k, rounded half to even.
pub round_shift : ℕ → ℕ → ℕ
round_shift n zero = n
round_shift n (suc k) =
    let q = n / 10 ^ suc k in
    let r = n % 10 ^ suc k in
    if ltb (10 ^ suc k) (2 * r) || ((2 * r == 10 ^ suc k) && (q % 2 == 1)) then q + 1 else q

-- A magnitude cut to the precision, and how far its exponent moves.
pub fix_magnitude : ℕ → ℕ × ℕ
unfolding digit_count round_shift
fix_magnitude n =
    let excess = digit_count n - precision in
    let q = round_shift n excess in
    if q == 10 ^ precision then (10 ^ (precision - 1), excess + 1) else (q, excess)

with_sign : Bool → ℕ → ℤ
with_sign negative zero = pos 0
with_sign negative (suc n) = if negative then negsuc n else pos (suc n)

magnitude : ℤ → ℕ
magnitude a = pos_part a + neg_part a

pub fix : Decimal → Decimal
unfolding fix_magnitude with_sign magnitude ◌+ℤ◌
fix d =
    let (q, excess) = fix_magnitude (magnitude d.coef) in
    record { coef = with_sign (ltb_ℤ d.coef (pos 0)) q; exp = d.exp +ℤ pos excess }

-- The coefficient of `d` at the exponent `e`, which is no greater than its own.
rescale : Decimal → ℤ → ℤ
unfolding ◌*ℤ◌ ◌-ℤ◌
rescale d e = d.coef *ℤ pos (10 ^ pos_part (d.exp -ℤ e))

abbrev min_ℤ : ℤ → ℤ → ℤ
min_ℤ a b = if ltb_ℤ b a then b else a

infixl 65 ◌⊞◌
infixl 70 ◌⊠◌
unfoldable pub ◌⊞◌ : Decimal → Decimal → Decimal
unfolding fix rescale
a ⊞ b = let e = min_ℤ a.exp b.exp in fix (record { coef = rescale a e +ℤ rescale b e; exp = e })

unfoldable pub ◌⊠◌ : Decimal → Decimal → Decimal
unfolding fix
a ⊠ b = fix (record { coef = a.coef *ℤ b.coef; exp = a.exp +ℤ b.exp })

-- The quotient of magnitudes with enough digits, and one more than enough.
divided : ℕ → ℕ → ℤ → ℕ × ℕ
divided a b (pos shift) = (a * 10 ^ shift / b, a * 10 ^ shift % b)
divided a b (negsuc n) = (a / (b * 10 ^ suc n), a % (b * 10 ^ suc n))

-- At most `limit` zeros stripped from the end, and how many were.
strip_zeros : ℕ → ℕ → ℕ → ℕ × ℕ
strip_zeros zero n count = (n, count)
strip_zeros (suc limit) n count =
    let rest = strip_zeros limit (n / 10) (count + 1) in if n % 10 == 0 then rest else (n, count)

-- An inexact quotient that ends in 0 or 5 is moved off, so that rounding sees that it is inexact; an
-- exact one comes as close to the exponent of the operands as it can.
settled : ℤ → ℕ × ℕ → ℕ × ℕ
unfolding strip_zeros
settled shift (q, zero) = strip_zeros (pos_part shift) q 0
settled shift (q, suc r) = (if q % 5 == 0 then q + 1 else q, 0)

quotient : ℕ → ℕ → ℤ → ℕ × ℕ
unfolding divided settled
quotient a b shift = settled shift (divided a b shift)

-- The divisor is not zero: the program divides by powers of ten.
infixl 70 ◌÷◌
unfoldable pub ◌÷◌ : Decimal → Decimal → Decimal
unfolding fix quotient digit_count with_sign magnitude ◌+ℤ◌ ◌-ℤ◌
a ÷ b =
    let shift =
      pos (digit_count (magnitude b.coef) + precision + 1)
      -ℤ pos (digit_count (magnitude a.coef)) in
    let (q, stripped) = quotient (magnitude a.coef) (magnitude b.coef) shift in
    let negative = ltb_ℤ a.coef (pos 0) in
    if magnitude a.coef == 0
    then record { coef = pos 0; exp = a.exp -ℤ b.exp }
    else fix (record {
      coef = with_sign (if ltb_ℤ b.coef (pos 0) then not negative else negative) q;
      exp = a.exp -ℤ b.exp -ℤ shift +ℤ pos stripped;
    })

-- `Decimal(10) ** n`, none where the power or the division by it signals an error: an exponent above
-- 999999 overflows, and one below -1000026 gives a zero.
unfoldable pub ten_to : ℤ → Option Decimal
ten_to (pos n) =
    if ltb 999999 n
    then none
    else if ltb n precision
    then some (record { coef = pos (10 ^ n); exp = pos 0 })
    else some (record { coef = pos (10 ^ (precision - 1)); exp = pos (n - (precision - 1)) })
ten_to (negsuc n) = if ltb 1000025 n then none else some (record { coef = pos 1; exp = negsuc n })
