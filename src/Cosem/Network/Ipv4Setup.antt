-- ===== src/Cosem/Network/Ipv4Setup.antt =====
-- include/dlms/cosem/ipv4_setup.hpp: the class Ipv4Setup.
use dlms_cosem_cpp.Base.{ℕ, ◌≡◌, Bool, true, false, List, [], ◌∷◌, arith}
use dlms_cosem_cpp.Core.{Result, is_ok}
use dlms_cosem_cpp.Axdr.Value.{DlmsValue, bool, octets}
use dlms_cosem_cpp.Cosem.Object.{
  AttributeAccess, CosemClass, attribute, read, write, bool_or, octets_or,
}
use dlms_cosem_cpp.Cosem.Object.Store.{
  Cell, answer, IsAttributeStore, cell_of, reads_after, is_listed, is_member, holds_bool,
  holds_octets, bool_or-takes, octets_or-takes,
}

pub record Ipv4Setup : Type 0 where
  pub logical_name : List ℕ
  pub ip_address : List ℕ
  pub subnet_mask : List ℕ
  pub gateway : List ℕ
  pub primary_dns : List ℕ
  pub secondary_dns : List ℕ
  pub dhcp_enabled : Bool

unfoldable pub new_ipv4_setup : List ℕ → Ipv4Setup
new_ipv4_setup ln = record {
  logical_name = ln;
  ip_address = 0 ∷ 0 ∷ 0 ∷ 0 ∷ [];
  subnet_mask = 255 ∷ 255 ∷ 255 ∷ 0 ∷ [];
  gateway = 0 ∷ 0 ∷ 0 ∷ 0 ∷ [];
  primary_dns = 0 ∷ 0 ∷ 0 ∷ 0 ∷ [];
  secondary_dns = 0 ∷ 0 ∷ 0 ∷ 0 ∷ [];
  dhcp_enabled = false;
}

abbrev get_attributes : List AttributeAccess
get_attributes =
    attribute 1 "logical_name" true
    ∷ attribute 2 "ip_address" true
    ∷ attribute 3 "subnet_mask" true
    ∷ attribute 4 "gateway" true
    ∷ attribute 5 "primary_dns" true
    ∷ attribute 6 "secondary_dns" true
    ∷ attribute 7 "dhcp_enabled" true
    ∷ []

unfoldable pub get_attribute : Ipv4Setup → ℕ → Result DlmsValue
get_attribute o id = read id (
    (1, octets o.logical_name)
    ∷ (2, octets o.ip_address)
    ∷ (3, octets o.subnet_mask)
    ∷ (4, octets o.gateway)
    ∷ (5, octets o.primary_dns)
    ∷ (6, octets o.secondary_dns)
    ∷ (7, bool o.dhcp_enabled)
    ∷ [])

unfoldable pub set_attribute : Ipv4Setup → ℕ → DlmsValue → Result (Unit {0}) × Ipv4Setup
set_attribute o id v = write o id (
    (2, record o { ip_address = octets_or o.ip_address v })
    ∷ (3, record o { subnet_mask = octets_or o.subnet_mask v })
    ∷ (4, record o { gateway = octets_or o.gateway v })
    ∷ (5, record o { primary_dns = octets_or o.primary_dns v })
    ∷ (6, record o { secondary_dns = octets_or o.secondary_dns v })
    ∷ (7, record o { dhcp_enabled = bool_or o.dhcp_enabled v })
    ∷ [])

unfoldable pub set_ip_address : List ℕ → Ipv4Setup → Ipv4Setup
set_ip_address ip o = record o { ip_address = ip }

unfoldable pub set_subnet_mask : List ℕ → Ipv4Setup → Ipv4Setup
set_subnet_mask mask o = record o { subnet_mask = mask }

unfoldable pub set_gateway : List ℕ → Ipv4Setup → Ipv4Setup
set_gateway gw o = record o { gateway = gw }

unfoldable pub set_dhcp_enabled : Bool → Ipv4Setup → Ipv4Setup
set_dhcp_enabled enabled o = record o { dhcp_enabled = enabled }

abbrev pub class : CosemClass Ipv4Setup
class = record {
  class_id = 42;
  version = 0;
  class_name = "Ipv4Setup";
  logical_name = λ o. o.logical_name;
  set_logical_name = λ ln o. record o { logical_name = ln };
  get_attributes = get_attributes;
  get_attribute = get_attribute;
  set_attribute = set_attribute;
}

abbrev pub cells : List (ℕ × Cell)
cells =
    (2, holds_octets)
    ∷ (3, holds_octets)
    ∷ (4, holds_octets)
    ∷ (5, holds_octets)
    ∷ (6, holds_octets)
    ∷ (7, holds_bool)
    ∷ []

-- Listed but never read.
abbrev pub unread : List ℕ
unread = []

accepts :
    (o : Ipv4Setup) (id : ℕ) (v : DlmsValue)
    → (set_attribute o id v).0 ≡ answer (cell_of cells id) v
unfolding set_attribute write cell_of
accepts o id v = ground arith

reads_back :
    (o : Ipv4Setup) (written : ℕ) (v : DlmsValue) (id : ℕ)
    → get_attribute (set_attribute o written v).1 id
      ≡ reads_after cells written v id (get_attribute o id)
unfolding get_attribute set_attribute read write cell_of reads_after
reads_back o written v id = ground (
  arith,
  octets_or-takes o.ip_address v,
  octets_or-takes o.subnet_mask v,
  octets_or-takes o.gateway v,
  octets_or-takes o.primary_dns v,
  octets_or-takes o.secondary_dns v,
  bool_or-takes o.dhcp_enabled v,
)

pub class-IsAttributeStore : IsAttributeStore class cells unread
unfolding get_attribute read is_ok is_listed is_member
class-IsAttributeStore = record {
  answers = accepts;
  stores = reads_back;
  renames = λ ln o id. ground arith;
  lists = λ o id. ground arith;
}
