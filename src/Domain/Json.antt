-- ===== src/Domain/Json.antt =====
-- JSON values and `normalize` of src/domain/utils.ts.
use Prim.Native.Nat.{compare, Ordering}
use Prim.Native.Char.{code}
use Prim.Native.String as Str
use digital_life_memory_fabr.Base.{ℕ, ◌+◌, ◌-◌, Bool, true, false, String, ltb, if◌then◌else◌}

-- A number is held by its printed text, an object by its keys in order of insertion.
mutual
  pub data Json : Type 0 where
    null : Json
    boolean : Bool → Json
    number : String → Json
    string : String → Json
    array : Items → Json
    object : Fields → Json

  pub data Items : Type 0 where
    nil : Items
    cons : Json → Items → Items

  pub data Fields : Type 0 where
    end : Fields
    field : String → Json → Fields → Fields

-- The place of a character among UTF-16 code units: a surrogate pair stands below U+E000.
utf16_rank : ℕ → ℕ
utf16_rank c = if ltb c 0xe000 then c else if ltb c 0x10000 then c + 0x100000 else c - 0x2000

-- `left <= right` on texts, and the order of `Array.prototype.sort`.
unfoldable pub text_le : String → String → Bool
unfolding utf16_rank
text_le Str.[] t = true
text_le (Str.◌∷◌ c s) Str.[] = false
text_le (Str.◌∷◌ c s) (Str.◌∷◌ d t) =
    let rest = text_le s t in
    elim (compare (utf16_rank (code c)) (utf16_rank (code d))) [
      | Ordering.lt ↦ true
      | Ordering.eq ↦ rest
      | Ordering.gt ↦ false
    ]

-- One entry put into its place among sorted keys.
unfoldable pub insert_field : String → Json → Fields → Fields
insert_field k v end = field k v end
insert_field k v (field j w fs) =
    let rest = insert_field k v fs in
    if text_le k j then field k v (field j w fs) else field j w rest

unfoldable mutual
  pub normalize : Json → Json
  normalize null = null
  normalize (boolean b) = boolean b
  normalize (number n) = number n
  normalize (string s) = string s
  normalize (array xs) = array (normalize_items xs)
  normalize (object fs) = object (normalize_fields fs)

  pub normalize_items : Items → Items
  normalize_items nil = nil
  normalize_items (cons x xs) = cons (normalize x) (normalize_items xs)

  pub normalize_fields : Fields → Fields
  normalize_fields end = end
  normalize_fields (field k v fs) = insert_field k (normalize v) (normalize_fields fs)
