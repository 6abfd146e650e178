-- ===== src/Cosem/Network/Route.antt =====
-- include/dlms/cosem/route.hpp: the class Route.
use dlms_cosem_cpp.Base.{ℕ, ◌≡◌, true, List, [], ◌∷◌, arith}
use dlms_cosem_cpp.Core.{Result, is_ok}
use dlms_cosem_cpp.Axdr.Value.{DlmsValue, uint8, octets}
use dlms_cosem_cpp.Cosem.Object.{
  AttributeAccess, CosemClass, attribute, read, write, octets_or, uint8_or,
}
use dlms_cosem_cpp.Cosem.Object.Store.{
  Cell, answer, IsAttributeStore, cell_of, reads_after, is_listed, is_member, holds_octets,
  holds_uint8, octets_or-takes, uint8_or-takes,
}

pub record Route : Type 0 where
  pub logical_name : List ℕ
  pub destination : List ℕ
  pub next_hop : List ℕ
  pub metric : ℕ
  pub route_status : ℕ

unfoldable pub new_route : List ℕ → Route
new_route ln = record {
  logical_name = ln;
  destination = [];
  next_hop = [];
  metric = 0;
  route_status = 0;
}

abbrev get_attributes : List AttributeAccess
get_attributes =
    attribute 1 "logical_name" true
    ∷ attribute 2 "destination" true
    ∷ attribute 3 "next_hop" true
    ∷ attribute 4 "metric" true
    ∷ attribute 5 "route_status" true
    ∷ []

unfoldable pub get_attribute : Route → ℕ → Result DlmsValue
get_attribute o id = read id (
    (1, octets o.logical_name)
    ∷ (2, octets o.destination)
    ∷ (3, octets o.next_hop)
    ∷ (4, uint8 o.metric)
    ∷ (5, uint8 o.route_status)
    ∷ [])

unfoldable pub set_attribute : Route → ℕ → DlmsValue → Result (Unit {0}) × Route
set_attribute o id v = write o id (
    (2, record o { destination = octets_or o.destination v })
    ∷ (3, record o { next_hop = octets_or o.next_hop v })
    ∷ (4, record o { metric = uint8_or o.metric v })
    ∷ (5, record o { route_status = uint8_or o.route_status v })
    ∷ [])

unfoldable pub set_destination : List ℕ → Route → Route
set_destination dest o = record o { destination = dest }

unfoldable pub set_next_hop : List ℕ → Route → Route
set_next_hop hop o = record o { next_hop = hop }

unfoldable pub set_metric : ℕ → Route → Route
set_metric metric o = record o { metric = metric }

abbrev pub class : CosemClass Route
class = record {
  class_id = 219;
  version = 0;
  class_name = "Route";
  logical_name = λ o. o.logical_name;
  set_logical_name = λ ln o. record o { logical_name = ln };
  get_attributes = get_attributes;
  get_attribute = get_attribute;
  set_attribute = set_attribute;
}

abbrev pub cells : List (ℕ × Cell)
cells = (2, holds_octets) ∷ (3, holds_octets) ∷ (4, holds_uint8) ∷ (5, holds_uint8) ∷ []

-- Listed but never read.
abbrev pub unread : List ℕ
unread = []

accepts :
    (o : Route) (id : ℕ) (v : DlmsValue) → (set_attribute o id v).0 ≡ answer (cell_of cells id) v
unfolding set_attribute write cell_of
accepts o id v = ground arith

reads_back :
    (o : Route) (written : ℕ) (v : DlmsValue) (id : ℕ)
    → get_attribute (set_attribute o written v).1 id
      ≡ reads_after cells written v id (get_attribute o id)
unfolding get_attribute set_attribute read write cell_of reads_after
reads_back o written v id = ground (
  arith,
  octets_or-takes o.destination v,
  octets_or-takes o.next_hop v,
  uint8_or-takes o.metric v,
  uint8_or-takes o.route_status v,
)

pub class-IsAttributeStore : IsAttributeStore class cells unread
unfolding get_attribute read is_ok is_listed is_member
class-IsAttributeStore = record {
  answers = accepts;
  stores = reads_back;
  renames = λ ln o id. ground arith;
  lists = λ o id. ground arith;
}
