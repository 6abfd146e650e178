-- ===== src/Axdr/Value.antt =====
-- include/dlms/core/dlms_variant.hpp: the variant `DlmsValue`. A signed alternative holds an integer,
-- an unsigned one a number, `float` and `double` the bytes of their representation, which is all
-- that the code does with them (memcpy). The shared pointers of an array are never null: every one
-- is made by `make_shared`.
use dlms_cosem_cpp.Base.{ℕ, suc, ◌^◌, ◌<◌, ◌≡◌, Bool, List, length, true, false}
use dlms_cosem_cpp.Base.Int.{ℤ, IsSigned, pos, to_signed}
use dlms_cosem_cpp.Core.Tag

mutual
  pub data DlmsValue : Type 0 where
    null : DlmsValue
    bool : Bool → DlmsValue
    int8 int16 int32 int64 : ℤ → DlmsValue
    uint8 uint16 uint32 uint64 : ℕ → DlmsValue
    float double : List ℕ → DlmsValue
    octets string : List ℕ → DlmsValue
    array structure : DlmsValues → DlmsValue

  pub data DlmsValues : Type 0 where
    nil : DlmsValues
    cons : DlmsValue → DlmsValues → DlmsValues

-- `items.size()`
abbrev pub count : DlmsValues → ℕ
count nil = 0
count (cons v vs) = suc (count vs)

-- `get_tag`: the code of the tag under which a value is written.
unfoldable pub get_tag : DlmsValue → ℕ
get_tag null = Tag.null
get_tag (bool _) = Tag.boolean
get_tag (int8 _) = Tag.integer
get_tag (int16 _) = Tag.long
get_tag (int32 _) = Tag.double_long
get_tag (int64 _) = Tag.long64
get_tag (uint8 _) = Tag.unsigned_integer
get_tag (uint16 _) = Tag.unsigned_long
get_tag (uint32 _) = Tag.double_long_unsigned
get_tag (uint64 _) = Tag.unsigned_long64
get_tag (float _) = Tag.float32
get_tag (double _) = Tag.float64
get_tag (octets _) = Tag.octet_string
get_tag (string _) = Tag.visible_string
get_tag (array _) = Tag.array
get_tag (structure _) = Tag.structure

-- What the C++ types of the alternatives promise, and lengths that `read_variable_length` accepts.
mutual
  pub data IsEncodable : DlmsValue → Type 0 where
    null_fits : IsEncodable null
    bool_fits : (b : Bool) → IsEncodable (bool b)
    int8_fits : (z : ℤ) → IsSigned (2 ^ 8) z → IsEncodable (int8 z)
    int16_fits : (z : ℤ) → IsSigned (2 ^ 16) z → IsEncodable (int16 z)
    int32_fits : (z : ℤ) → IsSigned (2 ^ 32) z → IsEncodable (int32 z)
    int64_fits : (z : ℤ) → IsSigned (2 ^ 64) z → IsEncodable (int64 z)
    uint8_fits : (n : ℕ) → n < 2 ^ 8 → IsEncodable (uint8 n)
    uint16_fits : (n : ℕ) → n < 2 ^ 16 → IsEncodable (uint16 n)
    uint32_fits : (n : ℕ) → n < 2 ^ 32 → IsEncodable (uint32 n)
    uint64_fits : (n : ℕ) → n < 2 ^ 64 → IsEncodable (uint64 n)
    float_fits : (xs : List ℕ) → length xs ≡ 4 → IsEncodable (float xs)
    double_fits : (xs : List ℕ) → length xs ≡ 8 → IsEncodable (double xs)
    octets_fit : (xs : List ℕ) → length xs < 2 ^ 32 → IsEncodable (octets xs)
    string_fits : (xs : List ℕ) → length xs < 2 ^ 32 → IsEncodable (string xs)
    array_fits : (vs : DlmsValues) → count vs < 2 ^ 32 → AreEncodable vs → IsEncodable (array vs)
    structure_fits :
        (vs : DlmsValues) → count vs < 2 ^ 32 → AreEncodable vs → IsEncodable (structure vs)

  pub data AreEncodable : DlmsValues → Type 0 where
    nil_fits : AreEncodable nil
    cons_fits :
        (v : DlmsValue) (vs : DlmsValues)
        → IsEncodable v
        → AreEncodable vs
        → AreEncodable (cons v vs)

unfoldable pub is_null : DlmsValue → Bool
is_null null = true
is_null _ = false

unfoldable pub is_bool : DlmsValue → Bool
is_bool (bool _) = true
is_bool _ = false

unfoldable pub is_array : DlmsValue → Bool
is_array (array _) = true
is_array _ = false

unfoldable pub is_structure : DlmsValue → Bool
is_structure (structure _) = true
is_structure _ = false

unfoldable pub is_octet_string : DlmsValue → Bool
is_octet_string (octets _) = true
is_octet_string _ = false

unfoldable pub is_string : DlmsValue → Bool
is_string (string _) = true
is_string _ = false

-- Zero for a value that is no integer; an unsigned one of 64 bits is cast.
unfoldable pub to_int64 : DlmsValue → ℤ
to_int64 (int8 z) = z
to_int64 (int16 z) = z
to_int64 (int32 z) = z
to_int64 (int64 z) = z
to_int64 (uint8 n) = pos n
to_int64 (uint16 n) = pos n
to_int64 (uint32 n) = pos n
to_int64 (uint64 n) = to_signed (2 ^ 64) n
to_int64 _ = pos 0
