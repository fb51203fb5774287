-- ===== src/Prelude/Parse.antt =====
-- `str::parse` for the integers, and the functions on texts that take a part of one.
use Prim.Native.Nat.{ℕ, zero, suc, ◌+◌, ◌-◌, ◌*◌, ◌^◌}
use Prim.Native.Char.{Char, code}
use Prim.Native.String.{String}
use mathlib.Core.Bool.{Bool, ◌&&◌, ◌||◌}
use mathlib.Core.Option
use mathlib.Core.Option.{Option, none, some}
use rust_http3_gateway.Prelude.Tests.{leb, eqb, filter_option, if◌then◌else◌}
use rust_http3_gateway.Prelude.Int.{ℤ, pos, negsuc}
use rust_http3_gateway.Prelude.Text.{is_empty}

abbrev pub is_digit : Char → Bool
is_digit c = leb b'0' (code c) && leb (code c) b'9'

-- The value of a text of digits, after what has been read.
unfoldable pub digits_from : ℕ → String → Option ℕ
digits_from n String.[] = some n
digits_from n (String.◌∷◌ c s) =
    let rest = digits_from (n * 10 + (code c - b'0')) s in if is_digit c then rest else none

unfoldable pub digits : String → Option ℕ
unfolding digits_from
digits s = if is_empty s then none else digits_from 0 s

abbrev pub after_plus : String → String
after_plus String.[] = String.[]
after_plus (String.◌∷◌ c s) = if eqb (code c) b'+' then s else String.◌∷◌ c s

-- The types without a sign, by their largest value.
unfoldable pub parse_unsigned : ℕ → String → Option ℕ
unfolding digits
parse_unsigned largest s = filter_option (λ n. leb n largest) (digits (after_plus s))

abbrev negated : ℕ → ℤ
negated zero = pos 0
negated (suc n) = negsuc n

unfoldable pub parse_signed : String → Option ℤ
unfolding digits parse_unsigned
parse_signed String.[] = none
parse_signed (String.◌∷◌ c s) =
    if eqb (code c) b'-'
    then Option.map negated (filter_option (λ n. leb n (2 ^ 63)) (digits s))
    else Option.map pos (parse_unsigned (2 ^ 63 - 1) (String.◌∷◌ c s))

-- `chars().take(n).collect()`.
unfoldable pub take_chars : ℕ → String → String
take_chars zero s = String.[]
take_chars (suc n) String.[] = String.[]
take_chars (suc n) (String.◌∷◌ c s) = String.◌∷◌ c (take_chars n s)

-- `trim_end_matches('/')`.
unfoldable pub trim_end_slashes : String → String
trim_end_slashes String.[] = String.[]
trim_end_slashes (String.◌∷◌ c s) =
    let rest = trim_end_slashes s in
    if is_empty rest && eqb (code c) b'/' then String.[] else String.◌∷◌ c rest

-- `strip_prefix`.
unfoldable pub strip_prefix : String → String → Option String
strip_prefix String.[] s = some s
strip_prefix (String.◌∷◌ c p) String.[] = none
strip_prefix (String.◌∷◌ c p) (String.◌∷◌ d s) =
    let rest = strip_prefix p s in if eqb (code c) (code d) then rest else none

abbrev pub is_ascii_alphanumeric : Char → Bool
is_ascii_alphanumeric c =
    is_digit c
    || (leb b'A' (code c) && leb (code c) b'Z')
    || (leb b'a' (code c) && leb (code c) b'z')

-- `split_once` at a character: the parts before and after the first one.
unfoldable pub split_once : ℕ → String → Option (String × String)
split_once at String.[] = none
split_once at (String.◌∷◌ c s) =
    let rest = split_once at s in
    if eqb (code c) at
    then some (String.[], s)
    else elim rest [ none ↦ none | some (a, b) ↦ some (String.◌∷◌ c a, b) ]
