-- ===== src/Cosem/Network/SmtpSetup.antt =====
-- include/dlms/cosem/smtp_setup.hpp: the class SmtpSetup.
use dlms_cosem_cpp.Base.{ℕ, ◌≡◌, Bool, true, false, List, [], ◌∷◌, arith}
use dlms_cosem_cpp.Core.{Result, is_ok}
use dlms_cosem_cpp.Axdr.Value.{DlmsValue, bool, uint16, octets}
use dlms_cosem_cpp.Cosem.Object.{
  AttributeAccess, CosemClass, attribute, read, write, bool_or, octets_or, uint16_or,
}
use dlms_cosem_cpp.Cosem.Object.Store.{
  Cell, answer, IsAttributeStore, cell_of, reads_after, is_listed, is_member, holds_bool,
  holds_octets, holds_uint16, bool_or-takes, octets_or-takes, uint16_or-takes,
}

pub record SmtpSetup : Type 0 where
  pub logical_name : List ℕ
  pub smtp_server : List ℕ
  pub smtp_port : ℕ
  pub username : List ℕ
  pub password : List ℕ
  pub from_address : List ℕ
  pub authentication_enabled : Bool
  pub tls_enabled : Bool

unfoldable pub new_smtp_setup : List ℕ → SmtpSetup
new_smtp_setup ln = record {
  logical_name = ln;
  smtp_server = [];
  smtp_port = 25;
  username = [];
  password = [];
  from_address = [];
  authentication_enabled = false;
  tls_enabled = false;
}

abbrev get_attributes : List AttributeAccess
get_attributes =
    attribute 1 "logical_name" true
    ∷ attribute 2 "smtp_server" true
    ∷ attribute 3 "smtp_port" true
    ∷ attribute 4 "username" true
    ∷ attribute 5 "password" true
    ∷ attribute 6 "from_address" true
    ∷ attribute 7 "authentication_enabled" true
    ∷ attribute 8 "tls_enabled" true
    ∷ []

unfoldable pub get_attribute : SmtpSetup → ℕ → Result DlmsValue
get_attribute o id = read id (
    (1, octets o.logical_name)
    ∷ (2, octets o.smtp_server)
    ∷ (3, uint16 o.smtp_port)
    ∷ (4, octets o.username)
    ∷ (5, octets o.password)
    ∷ (6, octets o.from_address)
    ∷ (7, bool o.authentication_enabled)
    ∷ (8, bool o.tls_enabled)
    ∷ [])

unfoldable pub set_attribute : SmtpSetup → ℕ → DlmsValue → Result (Unit {0}) × SmtpSetup
set_attribute o id v = write o id (
    (2, record o { smtp_server = octets_or o.smtp_server v })
    ∷ (3, record o { smtp_port = uint16_or o.smtp_port v })
    ∷ (4, record o { username = octets_or o.username v })
    ∷ (5, record o { password = octets_or o.password v })
    ∷ (6, record o { from_address = octets_or o.from_address v })
    ∷ (7, record o { authentication_enabled = bool_or o.authentication_enabled v })
    ∷ (8, record o { tls_enabled = bool_or o.tls_enabled v })
    ∷ [])

unfoldable pub set_smtp_port : ℕ → SmtpSetup → SmtpSetup
set_smtp_port port o = record o { smtp_port = port }

unfoldable pub set_smtp_server : List ℕ → SmtpSetup → SmtpSetup
set_smtp_server server o = record o { smtp_server = server }

abbrev pub class : CosemClass SmtpSetup
class = record {
  class_id = 102;
  version = 0;
  class_name = "SmtpSetup";
  logical_name = λ o. o.logical_name;
  set_logical_name = λ ln o. record o { logical_name = ln };
  get_attributes = get_attributes;
  get_attribute = get_attribute;
  set_attribute = set_attribute;
}

abbrev pub cells : List (ℕ × Cell)
cells =
    (2, holds_octets)
    ∷ (3, holds_uint16)
    ∷ (4, holds_octets)
    ∷ (5, holds_octets)
    ∷ (6, holds_octets)
    ∷ (7, holds_bool)
    ∷ (8, holds_bool)
    ∷ []

-- Listed but never read.
abbrev pub unread : List ℕ
unread = []

accepts :
    (o : SmtpSetup) (id : ℕ) (v : DlmsValue)
    → (set_attribute o id v).0 ≡ answer (cell_of cells id) v
unfolding set_attribute write cell_of
accepts o id v = ground arith

reads_back :
    (o : SmtpSetup) (written : ℕ) (v : DlmsValue) (id : ℕ)
    → get_attribute (set_attribute o written v).1 id
      ≡ reads_after cells written v id (get_attribute o id)
unfolding get_attribute set_attribute read write cell_of reads_after
reads_back o written v id = ground (
  arith,
  octets_or-takes o.smtp_server v,
  uint16_or-takes o.smtp_port v,
  octets_or-takes o.username v,
  octets_or-takes o.password v,
  octets_or-takes o.from_address v,
  bool_or-takes o.authentication_enabled v,
  bool_or-takes o.tls_enabled v,
)

pub class-IsAttributeStore : IsAttributeStore class cells unread
unfolding get_attribute read is_ok is_listed is_member
class-IsAttributeStore = record {
  answers = accepts;
  stores = reads_back;
  renames = λ ln o id. ground arith;
  lists = λ o id. ground arith;
}
