-- ===== src/Prelude/Trim.antt =====
-- When a trimmed text is not empty.
use Prim.Native.String
use Prim.Native.String.{String}
use mathlib.Core.Path.{◌≡◌, refl}
use mathlib.Core.Bool.{Bool, false, ◌&&◌}
use mathlib.Core.List.{List, ◌∷◌}
use native.Mathlib.Omega.{arith}
use text.Mathlib.TextLemmas.{nil-append, cons-append}
use rust_http3_gateway.Prelude.Text.{
  is_empty, is_whitespace, trim_start, trim_end, trim, all_chars, concat,
}

-- All its characters are white space.
abbrev pub is_blank : String → Bool
is_blank s = all_chars is_whitespace s

trim_start-blank : (s : String) → is_blank s ≡ false → is_blank (trim_start s) ≡ false
unfolding trim_start
trim_start-blank String.[] h = h
trim_start-blank (String.◌∷◌ c s) h = ground (arith, trim_start-blank s)

trim_end_not_empty : (s : String) → is_blank s ≡ false → is_empty (trim_end s) ≡ false
unfolding trim_end
trim_end_not_empty String.[] h = cc
trim_end_not_empty (String.◌∷◌ c s) h = ground (arith, trim_end_not_empty s)

pub trim_not_empty : (s : String) → is_blank s ≡ false → is_empty (trim s) ≡ false
unfolding trim
trim_not_empty s h = trim_end_not_empty (trim_start s) (trim_start-blank s h)

is_blank-append : (s t : String) → is_blank (String.◌++◌ s t) ≡ (is_blank s && is_blank t)
is_blank-append String.[] t = rw nil-append
is_blank-append (String.◌∷◌ c s) t = rw cons-append (ground (arith, is_blank-append s t))

-- A text with a bar in it is not blank.
pub concat_with_bar :
    (s : String) (rest : List String) → is_empty (trim (concat (s ∷ "|" ∷ rest))) ≡ false
unfolding concat
concat_with_bar s rest = trim_not_empty _ (
    ground (
      arith,
      is_blank-append s (String.◌++◌ "|" (concat rest)),
      is_blank-append "|" (concat rest),
      bar_not_blank,
    ))
  where
    bar_not_blank : is_blank "|" ≡ false
    bar_not_blank = unfold is_whitespace in refl
