-- ===== src/Prelude/Numbers.antt =====
-- Numbers as text: what `str(n)` prints and what `int(text)` and `int(text, 16)` read. Text is Latin-1
-- here; Python also reads the decimal digits of other scripts.
use Prim.Native.Nat.{ℕ, zero, suc, ◌+◌, ◌-◌, ◌*◌, ◌/◌, ◌%◌}
use mathlib.Core.Bool.{Bool, true, false, ◌&&◌, ◌||◌}
use mathlib.Core.List.{[], ◌∷◌, foldl}
use mathlib.Core.Option.{Option, none, some}
use py_wallet_snapshot_servi.Prelude.Tests.{◌==◌, ltb, leb, if◌then◌else◌}
use py_wallet_snapshot_servi.Prelude.Int.{ℤ, pos, negsuc}
use py_wallet_snapshot_servi.Prelude.Texts.{Text, strip}

-- The digits of `n` before `rest`; the fuel `n` is enough, and what is left of it is not run.
show_digits : ℕ → ℕ → Text → Text
show_digits zero n rest = (b'0' + n % 10) ∷ rest
show_digits (suc f) n rest =
    let more = show_digits f (n / 10) ((b'0' + n % 10) ∷ rest) in
    if ltb n 10 then (b'0' + n % 10) ∷ rest else more

unfoldable pub show_ℕ : ℕ → Text
unfolding show_digits
show_ℕ n = show_digits n n []

unfoldable pub show_ℤ : ℤ → Text
unfolding show_ℕ
show_ℤ (pos n) = show_ℕ n
show_ℤ (negsuc n) = b'-' ∷ show_ℕ (suc n)

-- The value of a digit, up to 35.
abbrev digit_of : ℕ → Option ℕ
digit_of c =
    if leb b'0' c && leb c b'9'
    then some (c - b'0')
    else if leb b'a' c && leb c b'z'
    then some (c - b'a' + 10)
    else if leb b'A' c && leb c b'Z'
    then some (c - b'A' + 10)
    else none

-- The value so far, the count of digits, and whether a digit must follow.
abbrev Reading : Type 0
Reading = Option (ℕ × ℕ × Bool)

abbrev add_digit : ℕ → ℕ → ℕ → Option ℕ → Reading
add_digit base value count none = none
add_digit base value count (some d) =
    if ltb d base then some (value * base + d, count + 1, false) else none

read_char : ℕ → Reading → ℕ → Reading
read_char base none c = none
read_char base (some (value, count, need)) c =
    if c == b'_'
    then (if need then none else some (value, count, true))
    else add_digit base value count (digit_of c)

abbrev read_end : ℕ → Reading → Option ℕ
read_end limit none = none
read_end limit (some (value, count, need)) =
    if need then none else if ltb limit count then none else some value

-- Digits with single underscores between them, at most `limit` of them.
read_digits : ℕ → ℕ → Text → Option ℕ
unfolding read_char
read_digits base limit s = read_end limit (foldl (read_char base) (some (0, 0, true)) s)

abbrev pub to_ℤ : ℕ → ℤ
to_ℤ n = pos n

abbrev pub negated : ℕ → ℤ
negated zero = pos 0
negated (suc n) = negsuc n

abbrev signed : Bool → Option ℕ → Option ℤ
signed negative none = none
signed negative (some n) = some (if negative then negated n else to_ℤ n)

abbrev with_sign : (Text → Option ℕ) → Text → Option ℤ
with_sign read [] = none
with_sign read (c ∷ s) =
    if c == b'-'
    then signed true (read s)
    else if c == b'+'
    then signed false (read s)
    else signed false (read (c ∷ s))

abbrev max_str_digits : ℕ
max_str_digits = 4300

-- `int(text)`, none where it raises ValueError.
unfoldable pub read_int : Text → Option ℤ
unfolding read_digits strip
read_int s = with_sign (read_digits 10 max_str_digits) (strip s)

read_all_digits : Text → Option ℕ
unfolding read_digits
read_all_digits s = read_digits 16 (foldl (λ n _. n + 1) 0 s) s

-- The digits after `0x` or `0X` and perhaps an underscore, or all. No limit holds for base 16.
read_hex_digits : Text → Option ℕ
unfolding read_all_digits
read_hex_digits (z ∷ x ∷ u ∷ s) =
    if z == b'0' && (x == b'x' || x == b'X')
    then read_all_digits (if u == b'_' then s else u ∷ s)
    else read_all_digits (z ∷ x ∷ u ∷ s)
read_hex_digits s = read_all_digits s

-- `int(text, 16)`
unfoldable pub read_int_16 : Text → Option ℤ
unfolding read_hex_digits strip
read_int_16 s = with_sign read_hex_digits (strip s)
