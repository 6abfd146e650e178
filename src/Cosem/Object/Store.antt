-- ===== src/Cosem/Object/Store.antt =====
-- What a client may expect of the attributes of a COSEM object: a table of typed cells, each read
-- and written by its number and by nothing else.
use Prim.Native.String.{String}
use dlms_cosem_cpp.Base.{
  ℕ, ◌≡◌, refl, Bool, true, false, ◌||◌, ◌&&◌, not, length, ap, arith, ◌%◌, ◌^◌, List, [], ◌∷◌,
  ◌==◌, if◌then◌else◌,
}
use dlms_cosem_cpp.Base.Int.{ℤ}
use dlms_cosem_cpp.Core.{is_ok, Result, ok, err, access_denied}
use dlms_cosem_cpp.DateTime.{CosemDateTime, datetime_of, datetime_bytes}
use dlms_cosem_cpp.Axdr.Value.{
  DlmsValue, DlmsValues, bool, int8, int16, int32, uint8, uint16, uint32, uint64, octets, string,
  array, structure, nil, cons,
}
use dlms_cosem_cpp.Cosem.Object.{
  AttributeAccess, CosemClass, bool_or, int8_or, int16_or, int32_or, uint8_or, uint16_or, uint32_or,
  uint64_or, octets_or, string_or, datetime_or, values_of, items_of, base, base_get, base_set,
}

-- What a cell does with a value that is written to it: it refuses it, accepts it and drops it, or
-- accepts it and holds it from then on when it is of the cell's type. A cell that `needs` a type
-- refuses a value of another one.
pub data Cell : Type 0 where
  refuses drops : Cell
  holds_any holds_bool holds_octets holds_string : Cell
  holds_int8 holds_int16 holds_int32 : Cell
  holds_uint8 holds_uint16 holds_uint32 holds_uint64 : Cell
  holds_low_byte holds_datetime holds_pair : Cell
  needs_array needs_uint8 : Cell

abbrev pub takes : Cell → DlmsValue → Bool
takes holds_any _ = true
takes holds_bool (bool _) = true
takes holds_octets (octets _) = true
takes holds_string (string _) = true
takes holds_int8 (int8 _) = true
takes holds_int16 (int16 _) = true
takes holds_int32 (int32 _) = true
takes holds_uint8 (uint8 _) = true
takes holds_uint16 (uint16 _) = true
takes holds_uint32 (uint32 _) = true
takes holds_uint64 (uint64 _) = true
takes needs_array (array _) = true
takes needs_uint8 (uint8 _) = true
takes _ _ = false

abbrev pub answer : Cell → DlmsValue → Result (Unit {0})
answer refuses v = err access_denied
answer needs_array v = if takes needs_array v then ok tt else err access_denied
answer needs_uint8 v = if takes needs_uint8 v then ok tt else err access_denied
answer _ v = ok tt

-- The low eight bits of a byte.
abbrev pub held_low_byte : DlmsValue → Result DlmsValue → Result DlmsValue
held_low_byte (uint8 n) old = ok (uint8 (n % 2 ^ 8))
held_low_byte _ old = old

-- The date and time that twelve octets spell, spelt again.
abbrev pub held_datetime : DlmsValue → Result DlmsValue → Result DlmsValue
held_datetime (octets xs) old =
    if length xs == 12 then ok (octets (datetime_bytes (datetime_of xs))) else old
held_datetime _ old = old

abbrev pub word_of : DlmsValue → DlmsValue → DlmsValue
word_of v old = if takes holds_uint16 v then v else old

-- Two words, each of which an element of another type leaves as it is.
abbrev pub held_pair : DlmsValue → Result DlmsValue → Result DlmsValue
held_pair (structure (cons a (cons b vs))) (ok (structure (cons c (cons d nil)))) =
    ok (structure (cons (word_of a c) (cons (word_of b d) nil)))
held_pair _ old = old

-- What a cell reads after `v` was written to it, where it read `old`.
abbrev pub held : Cell → DlmsValue → Result DlmsValue → Result DlmsValue
held holds_low_byte v old = held_low_byte v old
held holds_datetime v old = held_datetime v old
held holds_pair v old = held_pair v old
held c v old = if takes c v then ok v else old

-- A number that the table does not list is that of a cell that refuses.
unfoldable pub cell_of : List (ℕ × Cell) → ℕ → Cell
cell_of [] id = refuses
cell_of ((k, c) ∷ table) id = if id == k then c else cell_of table id

-- What is read under `id` after `v` was written under `written`, where `old` was read before.
unfoldable pub reads_after :
    List (ℕ × Cell) → ℕ → DlmsValue → ℕ → Result DlmsValue → Result DlmsValue
reads_after table written v id old =
    if id == written then held (cell_of table written) v old else old

unfoldable pub is_member : List ℕ → ℕ → Bool
is_member [] id = false
is_member (k ∷ ks) id = id == k || is_member ks id

unfoldable pub is_listed : List AttributeAccess → ℕ → Bool
is_listed [] id = false
is_listed (a ∷ rest) id = id == a.attribute_id || is_listed rest id

-- The attributes of a class are the cells of `table`. A list of the attributes names those that can
-- be read, and besides those of `unread`.
pub record IsAttributeStore {ℓ} {S : Type ℓ} (c : CosemClass S) (table : List (ℕ × Cell))
    (unread : List ℕ) : Type ℓ where
  pub answers :
      (o : S) (id : ℕ) (v : DlmsValue) → (c.set_attribute o id v).0 ≡ answer (cell_of table id) v
  pub stores :
      (o : S) (written : ℕ) (v : DlmsValue) (id : ℕ)
      → c.get_attribute (c.set_attribute o written v).1 id
        ≡ reads_after table written v id (c.get_attribute o id)
  pub renames :
      (ln : List ℕ) (o : S) (id : ℕ)
      → c.get_attribute (c.set_logical_name ln o) id
        ≡ (if id == 1 then ok (octets ln) else c.get_attribute o id)
  pub lists :
      (o : S) (id : ℕ)
      → is_ok (c.get_attribute o id) ≡ is_listed c.get_attributes id && not (is_member unread id)

pub bool_or-takes :
    (old : Bool) (v : DlmsValue)
    → bool (bool_or old v) ≡ (if takes holds_bool v then v else bool old)
bool_or-takes old (bool a) = refl
bool_or-takes old _ = refl

pub octets_or-takes :
    (old : List ℕ) (v : DlmsValue)
    → octets (octets_or old v) ≡ (if takes holds_octets v then v else octets old)
octets_or-takes old (octets a) = refl
octets_or-takes old _ = refl

pub string_or-takes :
    (old : List ℕ) (v : DlmsValue)
    → string (string_or old v) ≡ (if takes holds_string v then v else string old)
string_or-takes old (string a) = refl
string_or-takes old _ = refl

pub int8_or-takes :
    (old : ℤ) (v : DlmsValue) → int8 (int8_or old v) ≡ (if takes holds_int8 v then v else int8 old)
int8_or-takes old (int8 a) = refl
int8_or-takes old _ = refl

pub int16_or-takes :
    (old : ℤ) (v : DlmsValue)
    → int16 (int16_or old v) ≡ (if takes holds_int16 v then v else int16 old)
int16_or-takes old (int16 a) = refl
int16_or-takes old _ = refl

pub int32_or-takes :
    (old : ℤ) (v : DlmsValue)
    → int32 (int32_or old v) ≡ (if takes holds_int32 v then v else int32 old)
int32_or-takes old (int32 a) = refl
int32_or-takes old _ = refl

pub uint8_or-takes :
    (old : ℕ) (v : DlmsValue)
    → uint8 (uint8_or old v) ≡ (if takes holds_uint8 v then v else uint8 old)
uint8_or-takes old (uint8 a) = refl
uint8_or-takes old _ = refl

pub uint16_or-takes :
    (old : ℕ) (v : DlmsValue)
    → uint16 (uint16_or old v) ≡ (if takes holds_uint16 v then v else uint16 old)
uint16_or-takes old (uint16 a) = refl
uint16_or-takes old _ = refl

pub uint32_or-takes :
    (old : ℕ) (v : DlmsValue)
    → uint32 (uint32_or old v) ≡ (if takes holds_uint32 v then v else uint32 old)
uint32_or-takes old (uint32 a) = refl
uint32_or-takes old _ = refl

pub uint64_or-takes :
    (old : ℕ) (v : DlmsValue)
    → uint64 (uint64_or old v) ≡ (if takes holds_uint64 v then v else uint64 old)
uint64_or-takes old (uint64 a) = refl
uint64_or-takes old _ = refl

pub datetime_or-holds :
    (old : CosemDateTime) (v : DlmsValue)
    → ok (octets (datetime_bytes (datetime_or old v)))
      ≡ held_datetime v (ok (octets (datetime_bytes old)))
datetime_or-holds old (octets xs) = ground arith
datetime_or-holds old _ = refl

pub items_of-values : (vs : DlmsValues) → values_of (items_of vs) ≡ vs
items_of-values nil = refl
items_of-values (cons v vs) = ap (λ t. cons v t) (items_of-values vs)

pub base-IsAttributeStore : (id : ℕ) (name : String) → IsAttributeStore (base id name) [] []
unfolding base_get base_set cell_of reads_after is_ok is_listed is_member
base-IsAttributeStore id name = record {
  answers = λ o k v. refl;
  stores = λ o k v i. ground arith;
  renames = λ ln o i. ground arith;
  lists = λ o i. ground arith;
}
