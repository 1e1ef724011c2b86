-- ===== src/Base/Text.antt =====
-- Text as the JavaScript runtime treats it: `trim().length === 0` and `${n}` of a natural number.
pub mod Decimal
pub mod Split
use Prim.Native.Nat.{ℕ, zero, suc, ◌/◌, ◌%◌}
use Prim.Native.Char.{Char, code}
use Prim.Native.String.{String, [], ◌∷◌, ◌++◌}
use mathlib.Core.Path.{◌≡◌, refl}
use mathlib.Core.Bool.{Bool, true, false, ◌&&◌, ◌||◌}
use native.Mathlib.Omega.{arith}
use text.Mathlib.TextLemmas.{cons-append}
use package.digital_life_memory_fabr.Base.Tests.{leb, ltb, eqb, if◌then◌else◌}

-- The code points that `String.prototype.trim` removes.
is_whitespace : ℕ → Bool
is_whitespace c =
    leb 9 c && leb c 13
    || eqb c 32
    || eqb c 160
    || eqb c 0x1680
    || leb 0x2000 c && leb c 0x200a
    || eqb c 0x2028
    || eqb c 0x2029
    || eqb c 0x202f
    || eqb c 0x205f
    || eqb c 0x3000
    || eqb c 0xfeff

-- `value.trim().length === 0`
unfoldable pub is_blank : String → Bool
unfolding is_whitespace
is_blank [] = true
is_blank (c ∷ s) = is_whitespace (code c) && is_blank s

pub is_blank-append : (s t : String) → is_blank s ≡ false → is_blank (s ++ t) ≡ false
unfolding is_blank
is_blank-append [] t h = absurd (ground arith)
is_blank-append (c ∷ s) t h = rw (cons-append, is_blank) (ground (arith, is_blank-append s t))

-- `text.slice(n)`
unfoldable pub slice_from : ℕ → String → String
slice_from zero text = text
slice_from (suc n) [] = []
slice_from (suc n) (c ∷ text) = slice_from n text

-- `text.slice(0, n)`
unfoldable pub slice_to : ℕ → String → String
slice_to zero text = []
slice_to (suc n) [] = []
slice_to (suc n) (c ∷ text) = c ∷ slice_to n text

unfoldable pub trim_start : String → String
unfolding is_whitespace
trim_start [] = []
trim_start (c ∷ s) = let rest = trim_start s in if is_whitespace (code c) then rest else c ∷ s

unfoldable pub trim_end : String → String
unfolding is_blank
trim_end [] = []
trim_end (c ∷ s) = let rest = trim_end s in if is_blank (c ∷ s) then [] else c ∷ rest

-- `text.trim()`
unfoldable pub trim : String → String
unfolding trim_start trim_end
trim s = trim_end (trim_start s)

trim_words : trim " a b \n" ≡ "a b"
unfolding trim
trim_words = refl

-- The character U+001F, which joins the parts of a key.
abbrev pub unit_separator : Char
unit_separator = Char.char 31 tt

unfoldable pub digit : ℕ → Char
digit zero = "0"
digit (suc zero) = "1"
digit (suc (suc zero)) = "2"
digit (suc (suc (suc zero))) = "3"
digit (suc (suc (suc (suc zero)))) = "4"
digit (suc (suc (suc (suc (suc zero))))) = "5"
digit (suc (suc (suc (suc (suc (suc zero)))))) = "6"
digit (suc (suc (suc (suc (suc (suc (suc zero))))))) = "7"
digit (suc (suc (suc (suc (suc (suc (suc (suc zero)))))))) = "8"
digit (suc (suc (suc (suc (suc (suc (suc (suc (suc n))))))))) = "9"

-- The digits of `n` before `rest`; a fuel above `n` is enough.
unfoldable pub digits_before : ℕ → ℕ → String → String
unfolding digit
digits_before zero n rest = rest
digits_before (suc f) n rest =
    let more = digits_before f (n / 10) (digit (n % 10) ∷ rest) in
    if ltb n 10 then digit n ∷ rest else more

-- `${n}`
unfoldable pub decimal : ℕ → String
unfolding digits_before
decimal n = digits_before (suc n) n []

decimal_120 : decimal 120 ≡ "120"
unfolding decimal
decimal_120 = refl
