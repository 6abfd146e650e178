-- ===== src/Cosem/ImageTransfer/Class.antt =====
-- include/dlms/cosem/image_transfer.hpp: the class ImageTransfer as a store of attributes.
use dlms_cosem_cpp.Base.{ℕ, ◌≡◌, refl, true, false, List, [], ◌∷◌, arith}
use dlms_cosem_cpp.Core.{is_ok}
use dlms_cosem_cpp.Axdr.Value.{DlmsValue, uint32, octets}
use dlms_cosem_cpp.Cosem.Object.{AttributeAccess, CosemClass, attribute, octets_or, uint32_or}
use dlms_cosem_cpp.Cosem.Object.Store.{
  Cell, answer, IsAttributeStore, cell_of, reads_after, is_listed, is_member, holds_octets,
  holds_uint32, octets_or-takes, uint32_or-takes,
}
use dlms_cosem_cpp.Cosem.ImageTransfer.{
  ImageTransfer, get_attribute, set_attribute, with_identifier, with_size,
}

abbrev get_attributes : List AttributeAccess
get_attributes =
    attribute 1 "logical_name" true
    ∷ attribute 2 "image_identifier" false
    ∷ attribute 3 "image_size" false
    ∷ attribute 4 "image_transfer_status" false
    ∷ attribute 5 "image_to_activate_info" false
    ∷ []

abbrev pub class : CosemClass ImageTransfer
class = record {
  class_id = 18;
  version = 0;
  class_name = "ImageTransfer";
  logical_name = λ o. o.logical_name;
  set_logical_name = λ ln o. record o { logical_name = ln };
  get_attributes = get_attributes;
  get_attribute = get_attribute;
  set_attribute = set_attribute;
}

abbrev pub cells : List (ℕ × Cell)
cells = (2, holds_octets) ∷ (3, holds_uint32) ∷ []

identifier_held :
    (o : ImageTransfer) (v : DlmsValue)
    → with_identifier o v ≡ record o { image_identifier = octets_or o.image_identifier v }
identifier_held o (octets xs) = refl
identifier_held o _ = refl

size_held :
    (o : ImageTransfer) (v : DlmsValue)
    → with_size o v ≡ record o { image_size = uint32_or o.image_size v }
size_held o (uint32 n) = refl
size_held o _ = refl

accepts :
    (o : ImageTransfer) (id : ℕ) (v : DlmsValue)
    → (set_attribute o id v).0 ≡ answer (cell_of cells id) v
unfolding set_attribute cell_of
accepts o id v = ground arith

reads_back :
    (o : ImageTransfer) (written : ℕ) (v : DlmsValue) (id : ℕ)
    → get_attribute (set_attribute o written v).1 id
      ≡ reads_after cells written v id (get_attribute o id)
unfolding get_attribute set_attribute cell_of reads_after
reads_back o written v id = ground (
  arith,
  identifier_held o v,
  size_held o v,
  octets_or-takes o.image_identifier v,
  uint32_or-takes o.image_size v,
)

pub class-IsAttributeStore : IsAttributeStore class cells []
unfolding get_attribute is_ok is_listed is_member
class-IsAttributeStore = record {
  answers = accepts;
  stores = reads_back;
  renames = λ ln o id. ground arith;
  lists = λ o id. ground arith;
}
