-- ===== src/Prelude/Text.antt =====
-- Texts: `trim`, `to_lowercase`, formatting of integers, and the tests on characters.
use Prim.Native.Nat.{ℕ, zero, suc, ◌+◌, ◌-◌, ◌/◌, ◌%◌}
use Prim.Native.Char.{Char, code}
use Prim.Native.String
use Prim.Native.String.{String, char_at}
use mathlib.Core.List.{List, [], ◌∷◌}
use mathlib.Core.Bool.{Bool, true, false, ◌&&◌, ◌||◌}
use rust_http3_gateway.Prelude.Tests.{ltb, leb, eqb, if◌then◌else◌}
use rust_http3_gateway.Prelude.Int.{ℤ, pos, negsuc}

abbrev pub is_empty : String → Bool
is_empty String.[] = true
is_empty (String.◌∷◌ c s) = false

-- The characters with the property White_Space of Unicode.
unfoldable pub is_whitespace : Char → Bool
is_whitespace c =
    (leb 9 (code c) && leb (code c) 13)
    || eqb (code c) 32
    || eqb (code c) 133
    || eqb (code c) 160
    || eqb (code c) 0x1680
    || (leb 0x2000 (code c) && leb (code c) 0x200a)
    || eqb (code c) 0x2028
    || eqb (code c) 0x2029
    || eqb (code c) 0x202f
    || eqb (code c) 0x205f
    || eqb (code c) 0x3000

unfoldable pub trim_start : String → String
unfolding is_whitespace
trim_start String.[] = String.[]
trim_start (String.◌∷◌ c s) =
    let rest = trim_start s in if is_whitespace c then rest else String.◌∷◌ c s

unfoldable pub trim_end : String → String
unfolding is_whitespace
trim_end String.[] = String.[]
trim_end (String.◌∷◌ c s) =
    let rest = trim_end s in
    if is_empty rest && is_whitespace c then String.[] else String.◌∷◌ c rest

unfoldable pub trim : String → String
unfolding trim_start trim_end
trim s = trim_end (trim_start s)

unfoldable pub is_ascii : Char → Bool
is_ascii c = ltb (code c) 128

abbrev pub all_chars : (Char → Bool) → String → Bool
all_chars p String.[] = true
all_chars p (String.◌∷◌ c s) = p c && all_chars p s

ascii_lower_char : Char → Char
ascii_lower_char c =
    if leb b'A' (code c) && leb (code c) b'Z'
    then char_at "abcdefghijklmnopqrstuvwxyz" (code c - b'A')
    else c

unfoldable pub ascii_lower : String → String
unfolding ascii_lower_char
ascii_lower String.[] = String.[]
ascii_lower (String.◌∷◌ c s) = String.◌∷◌ (ascii_lower_char c) (ascii_lower s)

-- The case tables of Unicode are a parameter: what `to_lowercase` makes of a text that has a
-- character outside ASCII.
pub record Unicode : Type 0 where
  pub lower : String → String

unfoldable pub to_lowercase : ⦃u : Unicode⦄ → String → String
unfolding ascii_lower is_ascii
to_lowercase ⦃u⦄ s = if all_chars is_ascii s then ascii_lower s else u.lower s

digit : ℕ → Char
digit d = char_at "0123456789" d

decimal_onto : ℕ → ℕ → String → String
decimal_onto zero n done = done
decimal_onto (suc fuel) n done =
    let more = decimal_onto fuel (n / 10) (String.◌∷◌ (digit (n % 10)) done) in
    if ltb n 10 then String.◌∷◌ (digit n) done else more

-- A number has at most as many digits as its value plus one.
unfoldable pub decimal : ℕ → String
unfolding decimal_onto digit
decimal n = decimal_onto (suc n) n ""

unfoldable pub decimal_ℤ : ℤ → String
unfolding decimal
decimal_ℤ (pos n) = decimal n
decimal_ℤ (negsuc n) = String.◌++◌ "-" (decimal (suc n))

-- `format!`: its pieces, one after the other.
unfoldable pub concat : List String → String
concat [] = ""
concat (s ∷ rest) = String.◌++◌ s (concat rest)

-- `str::len`: the bytes of the text in UTF-8.
abbrev pub char_bytes : Char → ℕ
char_bytes c =
    if ltb (code c) 0x80
    then 1
    else if ltb (code c) 0x800
    then 2
    else if ltb (code c) 0x10000
    then 3
    else 4

unfoldable pub byte_length : String → ℕ
byte_length String.[] = 0
byte_length (String.◌∷◌ c s) = char_bytes c + byte_length s
