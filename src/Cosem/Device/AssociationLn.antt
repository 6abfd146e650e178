-- ===== src/Cosem/Device/AssociationLn.antt =====
-- include/dlms/cosem/association_ln.hpp: the class AssociationLN.
use dlms_cosem_cpp.Base.{ℕ, ◌≡◌, refl, ap₂, Bool, true, false, List, [], ◌∷◌, ◌++◌, map, arith}
use dlms_cosem_cpp.Core.{Result, is_ok, ok}
use dlms_cosem_cpp.Axdr.Value.{DlmsValue, null, bool, uint16, octets, structure, nil, cons}
use dlms_cosem_cpp.Cosem.Object.{
  AttributeAccess, CosemClass, attribute, read, write, bool_or, octets_or, uint16_or,
  make_dlms_array, make_dlms_structure,
}
use dlms_cosem_cpp.Cosem.Object.Store.{
  Cell, answer, IsAttributeStore, cell_of, reads_after, is_listed, is_member, held_pair, word_of,
  holds_bool, holds_octets, holds_pair, bool_or-takes, octets_or-takes, uint16_or-takes,
}

pub record ObjectEntry : Type 0 where
  pub class_id : ℕ
  pub logical_name : List ℕ

abbrev entry_value : ObjectEntry → DlmsValue
entry_value obj = make_dlms_structure (uint16 obj.class_id ∷ octets obj.logical_name ∷ [])

-- The first and the second element of a structure of two or more, `null` of any other value.
abbrev pub first : DlmsValue → DlmsValue
first (structure (cons a (cons b vs))) = a
first _ = null

abbrev pub second : DlmsValue → DlmsValue
second (structure (cons a (cons b vs))) = b
second _ = null

pub record AssociationLn : Type 0 where
  pub logical_name : List ℕ
  pub object_list : List ObjectEntry
  pub client_sap : ℕ
  pub server_sap : ℕ
  pub application_context_name : List ℕ
  pub authentication_mechanism_name : List ℕ
  pub lls_secret : List ℕ
  pub hls_secret : List ℕ
  pub authentication_status : Bool
  pub security_setup_reference : List ℕ

unfoldable pub new_association_ln : List ℕ → AssociationLn
new_association_ln ln = record {
  logical_name = ln;
  object_list = [];
  client_sap = 16;
  server_sap = 1;
  application_context_name = [];
  authentication_mechanism_name = [];
  lls_secret = [];
  hls_secret = [];
  authentication_status = false;
  security_setup_reference = [];
}

abbrev get_attributes : List AttributeAccess
get_attributes =
    attribute 1 "logical_name" true
    ∷ attribute 2 "object_list" false
    ∷ attribute 3 "associated_partners" true
    ∷ attribute 4 "application_context_name" true
    ∷ attribute 5 "authentication_mechanism_name" true
    ∷ attribute 6 "lls_secret" true
    ∷ attribute 7 "hls_secret" true
    ∷ attribute 8 "authentication_status" false
    ∷ attribute 9 "security_setup_reference" true
    ∷ []

unfoldable pub get_attribute : AssociationLn → ℕ → Result DlmsValue
get_attribute o id = read id (
    (1, octets o.logical_name)
    ∷ (2, make_dlms_array (map entry_value o.object_list))
    ∷ (3, make_dlms_structure (uint16 o.client_sap ∷ uint16 o.server_sap ∷ []))
    ∷ (4, octets o.application_context_name)
    ∷ (5, octets o.authentication_mechanism_name)
    ∷ (6, octets o.lls_secret)
    ∷ (7, octets o.hls_secret)
    ∷ (8, bool o.authentication_status)
    ∷ (9, octets o.security_setup_reference)
    ∷ [])

unfoldable pub set_attribute : AssociationLn → ℕ → DlmsValue → Result (Unit {0}) × AssociationLn
set_attribute o id v = write o id (
    (
      3,
      record o {
        client_sap = uint16_or o.client_sap (first v);
        server_sap = uint16_or o.server_sap (second v);
      },
    )
    ∷ (4, record o { application_context_name = octets_or o.application_context_name v })
    ∷ (5, record o { authentication_mechanism_name = octets_or o.authentication_mechanism_name v })
    ∷ (6, record o { lls_secret = octets_or o.lls_secret v })
    ∷ (7, record o { hls_secret = octets_or o.hls_secret v })
    ∷ (8, record o { authentication_status = bool_or o.authentication_status v })
    ∷ (9, record o { security_setup_reference = octets_or o.security_setup_reference v })
    ∷ [])

unfoldable pub set_authenticated : Bool → AssociationLn → AssociationLn
set_authenticated status o = record o { authentication_status = status }

unfoldable pub add_object : ℕ → List ℕ → AssociationLn → AssociationLn
add_object class_id ln o = record o {
  object_list = o.object_list ++ (record { class_id = class_id; logical_name = ln } ∷ []);
}

unfoldable pub get_partners : AssociationLn → ℕ × ℕ
get_partners o = (o.client_sap, o.server_sap)

unfoldable pub set_partners : ℕ → ℕ → AssociationLn → AssociationLn
set_partners client server o = record o { client_sap = client; server_sap = server }

unfoldable pub is_authenticated : AssociationLn → Bool
is_authenticated o = o.authentication_status

word_of-uint16 : (old : ℕ) (v : DlmsValue) → uint16 (uint16_or old v) ≡ word_of v (uint16 old)
word_of-uint16 old v = uint16_or-takes old v

partners-held :
    (client server : ℕ) (v : DlmsValue)
    → ok (
        structure (
          cons
            (uint16 (uint16_or client (first v)))
            (cons (uint16 (uint16_or server (second v))) nil)))
      ≡ held_pair v (ok (structure (cons (uint16 client) (cons (uint16 server) nil))))
partners-held client server (structure (cons a (cons b vs))) =
    ap₂ (λ x y. ok (structure (cons x (cons y nil)))) (word_of-uint16 client a)
      (word_of-uint16 server b)
partners-held client server (structure (cons a nil)) = refl
partners-held client server (structure nil) = refl
partners-held client server _ = refl

abbrev pub class : CosemClass AssociationLn
class = record {
  class_id = 15;
  version = 0;
  class_name = "AssociationLN";
  logical_name = λ o. o.logical_name;
  set_logical_name = λ ln o. record o { logical_name = ln };
  get_attributes = get_attributes;
  get_attribute = get_attribute;
  set_attribute = set_attribute;
}

abbrev pub cells : List (ℕ × Cell)
cells =
    (3, holds_pair)
    ∷ (4, holds_octets)
    ∷ (5, holds_octets)
    ∷ (6, holds_octets)
    ∷ (7, holds_octets)
    ∷ (8, holds_bool)
    ∷ (9, holds_octets)
    ∷ []

-- Listed but never read.
abbrev pub unread : List ℕ
unread = []

accepts :
    (o : AssociationLn) (id : ℕ) (v : DlmsValue)
    → (set_attribute o id v).0 ≡ answer (cell_of cells id) v
unfolding set_attribute write cell_of
accepts o id v = ground arith

reads_back :
    (o : AssociationLn) (written : ℕ) (v : DlmsValue) (id : ℕ)
    → get_attribute (set_attribute o written v).1 id
      ≡ reads_after cells written v id (get_attribute o id)
unfolding get_attribute set_attribute read write cell_of reads_after
reads_back o written v id = ground (
  arith,
  octets_or-takes o.application_context_name v,
  octets_or-takes o.authentication_mechanism_name v,
  octets_or-takes o.lls_secret v,
  octets_or-takes o.hls_secret v,
  bool_or-takes o.authentication_status v,
  octets_or-takes o.security_setup_reference v,
  partners-held o.client_sap o.server_sap v,
)

pub class-IsAttributeStore : IsAttributeStore class cells unread
unfolding get_attribute read is_ok is_listed is_member
class-IsAttributeStore = record {
  answers = accepts;
  stores = reads_back;
  renames = λ ln o id. ground arith;
  lists = λ o id. ground arith;
}
