-- ===== src/Cosem/Schedule/TariffTable.antt =====
-- include/dlms/cosem/tariff_table.hpp: the class TariffTable.
use dlms_cosem_cpp.Base.{ℕ, ◌≡◌, true, List, [], ◌∷◌, arith}
use dlms_cosem_cpp.Core.{Result, is_ok}
use dlms_cosem_cpp.Axdr.Value.{DlmsValue, octets}
use dlms_cosem_cpp.Cosem.Object.{AttributeAccess, CosemClass, attribute, read, write, octets_or}
use dlms_cosem_cpp.Cosem.Object.Store.{
  Cell, answer, IsAttributeStore, cell_of, reads_after, is_listed, is_member, holds_octets,
  octets_or-takes,
}

pub record TariffTable : Type 0 where
  pub logical_name : List ℕ
  pub table_data : List ℕ

unfoldable pub new_tariff_table : List ℕ → TariffTable
new_tariff_table ln = record { logical_name = ln; table_data = [] }

abbrev get_attributes : List AttributeAccess
get_attributes = attribute 1 "logical_name" true ∷ attribute 2 "data" true ∷ []

unfoldable pub get_attribute : TariffTable → ℕ → Result DlmsValue
get_attribute o id = read id ((1, octets o.logical_name) ∷ (2, octets o.table_data) ∷ [])

unfoldable pub set_attribute : TariffTable → ℕ → DlmsValue → Result (Unit {0}) × TariffTable
set_attribute o id v = write o id ((2, record o { table_data = octets_or o.table_data v }) ∷ [])

abbrev pub class : CosemClass TariffTable
class = record {
  class_id = 26;
  version = 0;
  class_name = "TariffTable";
  logical_name = λ o. o.logical_name;
  set_logical_name = λ ln o. record o { logical_name = ln };
  get_attributes = get_attributes;
  get_attribute = get_attribute;
  set_attribute = set_attribute;
}

abbrev pub cells : List (ℕ × Cell)
cells = (2, holds_octets) ∷ []

-- Listed but never read.
abbrev pub unread : List ℕ
unread = []

accepts :
    (o : TariffTable) (id : ℕ) (v : DlmsValue)
    → (set_attribute o id v).0 ≡ answer (cell_of cells id) v
unfolding set_attribute write cell_of
accepts o id v = ground arith

reads_back :
    (o : TariffTable) (written : ℕ) (v : DlmsValue) (id : ℕ)
    → get_attribute (set_attribute o written v).1 id
      ≡ reads_after cells written v id (get_attribute o id)
unfolding get_attribute set_attribute read write cell_of reads_after
reads_back o written v id = ground (arith, octets_or-takes o.table_data v)

pub class-IsAttributeStore : IsAttributeStore class cells unread
unfolding get_attribute read is_ok is_listed is_member
class-IsAttributeStore = record {
  answers = accepts;
  stores = reads_back;
  renames = λ ln o id. ground arith;
  lists = λ o id. ground arith;
}
