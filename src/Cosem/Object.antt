-- ===== src/Cosem/Object.antt =====
-- include/dlms/core/cosem_object.hpp: the base class `CosemObject`, and what its subclasses in
-- include/dlms/cosem share: the chains `if (id == …)` and the tests `std::get_if<…>(&v)`.
pub mod Store
pub mod Requests
use Prim.Native.String.{String}
use dlms_cosem_cpp.Base.{
  zero, suc, ℕ, ◌+◌, take, drop, ◌++◌, Bool, false, true, Option, none, length, List, [], ◌∷◌, ◌==◌,
  if◌then◌else◌,
}
use dlms_cosem_cpp.Base.Int.{ℤ}
use dlms_cosem_cpp.DateTime.{CosemDateTime, datetime_of}
use dlms_cosem_cpp.Core.{Result, ok, err, object_undefined, access_denied}
use dlms_cosem_cpp.Axdr.Value.{
  DlmsValue, DlmsValues, bool, int8, int16, int32, uint8, uint16, uint32, uint64, octets, string,
  array, structure, nil, cons,
}

pub record AttributeAccess : Type 0 where
  pub attribute_id : ℕ
  pub name : String
  pub is_static : Bool

abbrev pub attribute : ℕ → String → Bool → AttributeAccess
attribute id name is_static = record { attribute_id = id; name = name; is_static = is_static }

-- The bytes of the name of an `ObisCode` that is made without arguments.
abbrev pub default_name : List ℕ
default_name = 0 ∷ 0 ∷ 0 ∷ 0 ∷ 0 ∷ 255 ∷ []

-- What a class overrides. `S` is the state of its objects, with the bytes of the member `ln_`.
pub record CosemClass {ℓ} (S : Type ℓ) : Type ℓ where
  pub class_id : ℕ
  pub version : ℕ
  pub class_name : String
  pub logical_name : S → List ℕ
  pub set_logical_name : List ℕ → S → S
  pub get_attributes : List AttributeAccess
  pub get_attribute : S → ℕ → Result DlmsValue
  pub set_attribute : S → ℕ → DlmsValue → Result (Unit {0}) × S

unfoldable pub static_among : List AttributeAccess → ℕ → Bool
static_among [] id = false
static_among (a ∷ rest) id = if a.attribute_id == id then a.is_static else static_among rest id

unfoldable pub is_static_attribute {ℓ} : {S : Type ℓ} → CosemClass S → ℕ → Bool
is_static_attribute c id = static_among c.get_attributes id

-- The chain of `get_attribute`: `if (id == k) return DlmsValue(…);` for each case.
unfoldable pub read : ℕ → List (ℕ × DlmsValue) → Result DlmsValue
read id [] = err object_undefined
read id ((k, a) ∷ cases) = if id == k then ok a else read id cases

-- The chain of `set_attribute`: `if (id == k) { …; return make_void_ok(); }` for each case, which
-- leaves the object `o'`.
unfoldable pub write {ℓ} : {S : Type ℓ} → S → ℕ → List (ℕ × S) → Result (Unit {0}) × S
write o id [] = (err access_denied, o)
write o id ((k, o') ∷ cases) = if id == k then (ok tt, o') else write o id cases

-- A class that overrides the pure members only: its objects have nothing but a name.
unfoldable pub base_get : List ℕ → ℕ → Result DlmsValue
base_get ln id = if id == 1 then ok (octets ln) else err object_undefined

unfoldable pub base_set : List ℕ → ℕ → DlmsValue → Result (Unit {0}) × List ℕ
base_set ln id v = (err access_denied, ln)

abbrev pub base : ℕ → String → CosemClass (List ℕ)
base id name = record {
  class_id = id;
  version = 0;
  class_name = name;
  logical_name = λ ln. ln;
  set_logical_name = λ ln _. ln;
  get_attributes = attribute 1 "logical_name" true ∷ [];
  get_attribute = base_get;
  set_attribute = base_set;
}

-- The elements that a vector of values holds, and back.
abbrev pub values_of : List DlmsValue → DlmsValues
values_of [] = nil
values_of (v ∷ vs) = cons v (values_of vs)

abbrev pub items_of : DlmsValues → List DlmsValue
items_of nil = []
items_of (cons v vs) = v ∷ items_of vs

-- `v.erase(v.begin() + n)` and `v.insert(v.begin() + n, x)`; the callers keep `n` within the vector.
abbrev pub erase {ℓ} : {A : Type ℓ} → ℕ → List A → List A
erase n [] = []
erase zero (x ∷ xs) = xs
erase (suc n) (x ∷ xs) = x ∷ erase n xs

abbrev pub insert {ℓ} : {A : Type ℓ} → ℕ → A → List A → List A
insert zero y xs = y ∷ xs
insert (suc n) y [] = []
insert (suc n) y (x ∷ xs) = x ∷ insert n y xs

abbrev pub make_dlms_array : List DlmsValue → DlmsValue
make_dlms_array items = array (values_of items)

abbrev pub make_dlms_structure : List DlmsValue → DlmsValue
make_dlms_structure elements = structure (values_of elements)

-- `if (auto* p = std::get_if<…>(&v)) field = *p;`: the field keeps its value when `v` is of another
-- type.
abbrev pub bool_or : Bool → DlmsValue → Bool
bool_or old (bool b) = b
bool_or old _ = old

abbrev pub int8_or : ℤ → DlmsValue → ℤ
int8_or old (int8 z) = z
int8_or old _ = old

abbrev pub int16_or : ℤ → DlmsValue → ℤ
int16_or old (int16 z) = z
int16_or old _ = old

abbrev pub int32_or : ℤ → DlmsValue → ℤ
int32_or old (int32 z) = z
int32_or old _ = old

abbrev pub uint8_or : ℕ → DlmsValue → ℕ
uint8_or old (uint8 n) = n
uint8_or old _ = old

abbrev pub uint16_or : ℕ → DlmsValue → ℕ
uint16_or old (uint16 n) = n
uint16_or old _ = old

abbrev pub uint32_or : ℕ → DlmsValue → ℕ
uint32_or old (uint32 n) = n
uint32_or old _ = old

abbrev pub uint64_or : ℕ → DlmsValue → ℕ
uint64_or old (uint64 n) = n
uint64_or old _ = old

abbrev pub octets_or : List ℕ → DlmsValue → List ℕ
octets_or old (octets xs) = xs
octets_or old _ = old

abbrev pub string_or : List ℕ → DlmsValue → List ℕ
string_or old (string xs) = xs
string_or old _ = old

-- `if (… && p->size() == 12) field = CosemDateTime::from_bytes(p->data());`
abbrev pub datetime_or : CosemDateTime → DlmsValue → CosemDateTime
datetime_or old (octets xs) = if length xs == 12 then datetime_of xs else old
datetime_or old _ = old

-- `CosemDateTime time_{};`
abbrev pub new_datetime : CosemDateTime
new_datetime = record {
  date = record { year = none; month = none; day = none; day_of_week = none };
  time = record { hour = none; minute = none; second = none; hundredths = none };
  deviation = none;
  clock_status = record {
    invalid = false;
    doubtful = false;
    different_base = false;
    invalid_status = false;
    daylight_saving_active = false;
  };
}
