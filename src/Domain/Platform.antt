-- ===== src/Domain/Platform.antt =====
-- What the code takes from outside the repository, as a parameter of the model, and the numbers of
-- its callers. `stableStringify` and `sha256` are those of src/domain/utils.ts.
use Prim.Native.Nat.{Ordering}
use Prim.Native.String as Str
use digital_life_memory_fabr.Base.{
  zero, suc, ℕ, ◌+◌, ◌^◌, ◌-◌, Bool, true, false, not, String, Option, none, some, leb, ltb, eqb,
  if◌then◌else◌,
}
use digital_life_memory_fabr.Domain.Json.{Json, normalize}

-- `createHash("sha256")…digest("hex")`, `JSON.stringify`, `Date.parse` (`none` is NaN; times count
-- milliseconds from the first representable date), `new Date(t).toISOString()`, `localeCompare`.
pub record Platform : Type 0 where
  pub digest : String → String
  pub json_stringify : Json → String
  pub date_parse : String → Option ℕ
  pub to_iso_string : ℕ → String
  pub locale_compare : String → String → Ordering

-- `left.localeCompare(right) <= 0`
unfoldable pub locale_le : Platform → String → String → Bool
locale_le p left right = elim (p.locale_compare left right) [ Ordering.gt ↦ false | _ ↦ true ]

pub stable_stringify : Platform → Json → String
stable_stringify p value = p.json_stringify (normalize value)

unfoldable pub sha256 : Platform → Json → String
sha256 p value = Str.◌++◌ "sha256:" (p.digest (stable_stringify p value))

-- A JavaScript number: a natural, an integer -(n + 1), or neither (a fraction, NaN, an infinity).
pub data Number : Type 0 where
  nat : ℕ → Number
  negative : ℕ → Number
  other : Number

abbrev pub max_safe_integer : ℕ
max_safe_integer = 2 ^ 53 - 1

-- The value, where `Number.isSafeInteger(value) && value >= 0`.
unfoldable pub safe_natural : Number → Option ℕ
safe_natural (nat n) = if leb n max_safe_integer then some n else none
safe_natural (negative n) = none
safe_natural other = none

-- A JavaScript number read as a real: a sign with a fraction `n / (d + 1)`, an infinity, or NaN.
pub data Double : Type 0 where
  fraction : Bool → ℕ → ℕ → Double
  infinity : Bool → Double
  nan : Double

-- `value < 0`
unfoldable pub below_zero : Double → Bool
below_zero (fraction true n d) = not (eqb n 0)
below_zero (fraction false n d) = false
below_zero (infinity sign) = sign
below_zero nan = false

-- `value > 1`
unfoldable pub above_one : Double → Bool
above_one (fraction true n d) = false
above_one (fraction false n d) = ltb (d + 1) n
above_one (infinity sign) = not sign
above_one nan = false

-- `Number.isInteger(baseRevision) && baseRevision >= 1`, and the value.
unfoldable pub positive_integer : Number → Option ℕ
positive_integer (nat zero) = none
positive_integer (nat (suc n)) = some (suc n)
positive_integer (negative n) = none
positive_integer other = none
