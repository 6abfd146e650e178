-- ===== src/Cosem/Link/NbiotSetup.antt =====
-- include/dlms/cosem/nbiot_setup.hpp: the class NbiotSetup.
use dlms_cosem_cpp.Base.{ℕ, ◌≡◌, true, List, [], ◌∷◌, arith}
use dlms_cosem_cpp.Core.{Result, is_ok}
use dlms_cosem_cpp.Axdr.Value.{DlmsValue, octets, string}
use dlms_cosem_cpp.Cosem.Object.{AttributeAccess, CosemClass, attribute, read, write, string_or}
use dlms_cosem_cpp.Cosem.Object.Store.{
  Cell, answer, IsAttributeStore, cell_of, reads_after, is_listed, is_member, holds_string,
  string_or-takes,
}

pub record NbiotSetup : Type 0 where
  pub logical_name : List ℕ
  pub apn : List ℕ
  pub server : List ℕ
  pub port : ℕ

unfoldable pub new_nbiot_setup : List ℕ → NbiotSetup
new_nbiot_setup ln = record { logical_name = ln; apn = []; server = []; port = 5683 }

abbrev get_attributes : List AttributeAccess
get_attributes =
    attribute 1 "logical_name" true
    ∷ attribute 2 "apn" true
    ∷ attribute 3 "server" true
    ∷ attribute 4 "port" true
    ∷ []

unfoldable pub get_attribute : NbiotSetup → ℕ → Result DlmsValue
get_attribute o id = read id ((1, octets o.logical_name) ∷ (2, string o.apn) ∷ [])

unfoldable pub set_attribute : NbiotSetup → ℕ → DlmsValue → Result (Unit {0}) × NbiotSetup
set_attribute o id v = write o id ((2, record o { apn = string_or o.apn v }) ∷ [])

abbrev pub class : CosemClass NbiotSetup
class = record {
  class_id = 41;
  version = 0;
  class_name = "NBIoTSetup";
  logical_name = λ o. o.logical_name;
  set_logical_name = λ ln o. record o { logical_name = ln };
  get_attributes = get_attributes;
  get_attribute = get_attribute;
  set_attribute = set_attribute;
}

abbrev pub cells : List (ℕ × Cell)
cells = (2, holds_string) ∷ []

-- Listed but never read.
abbrev pub unread : List ℕ
unread = 3 ∷ 4 ∷ []

accepts :
    (o : NbiotSetup) (id : ℕ) (v : DlmsValue)
    → (set_attribute o id v).0 ≡ answer (cell_of cells id) v
unfolding set_attribute write cell_of
accepts o id v = ground arith

reads_back :
    (o : NbiotSetup) (written : ℕ) (v : DlmsValue) (id : ℕ)
    → get_attribute (set_attribute o written v).1 id
      ≡ reads_after cells written v id (get_attribute o id)
unfolding get_attribute set_attribute read write cell_of reads_after
reads_back o written v id = ground (arith, string_or-takes o.apn v)

pub class-IsAttributeStore : IsAttributeStore class cells unread
unfolding get_attribute read is_ok is_listed is_member
class-IsAttributeStore = record {
  answers = accepts;
  stores = reads_back;
  renames = λ ln o id. ground arith;
  lists = λ o id. ground arith;
}
