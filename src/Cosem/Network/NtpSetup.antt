-- ===== src/Cosem/Network/NtpSetup.antt =====
-- include/dlms/cosem/ntp_setup.hpp: the class NtpSetup.
use dlms_cosem_cpp.Base.{ℕ, ◌≡◌, true, List, [], ◌∷◌, arith}
use dlms_cosem_cpp.Base.Int.{ℤ, pos}
use dlms_cosem_cpp.Core.{Result, is_ok}
use dlms_cosem_cpp.Axdr.Value.{DlmsValue, int32, uint8, uint16, uint32, octets}
use dlms_cosem_cpp.Cosem.Object.{
  AttributeAccess, CosemClass, attribute, read, write, octets_or, int32_or, uint8_or, uint16_or,
  uint32_or,
}
use dlms_cosem_cpp.Cosem.Object.Store.{
  Cell, answer, IsAttributeStore, cell_of, reads_after, is_listed, is_member, holds_octets,
  holds_int32, holds_uint8, holds_uint16, holds_uint32, octets_or-takes, int32_or-takes,
  uint8_or-takes, uint16_or-takes, uint32_or-takes,
}

pub record NtpSetup : Type 0 where
  pub logical_name : List ℕ
  pub ntp_server_address : List ℕ
  pub ntp_port : ℕ
  pub authentication_method : ℕ
  pub randomization_interval : ℕ
  pub time_offset : ℤ
  pub time_threshold : ℕ

unfoldable pub new_ntp_setup : List ℕ → NtpSetup
new_ntp_setup ln = record {
  logical_name = ln;
  ntp_server_address = [];
  ntp_port = 123;
  authentication_method = 0;
  randomization_interval = 300;
  time_offset = pos 0;
  time_threshold = 1;
}

abbrev get_attributes : List AttributeAccess
get_attributes =
    attribute 1 "logical_name" true
    ∷ attribute 2 "ntp_server_address" true
    ∷ attribute 3 "ntp_port" true
    ∷ attribute 4 "authentication_method" true
    ∷ attribute 5 "randomization_interval" true
    ∷ attribute 6 "time_offset" true
    ∷ attribute 7 "time_threshold" true
    ∷ []

unfoldable pub get_attribute : NtpSetup → ℕ → Result DlmsValue
get_attribute o id = read id (
    (1, octets o.logical_name)
    ∷ (2, octets o.ntp_server_address)
    ∷ (3, uint16 o.ntp_port)
    ∷ (4, uint8 o.authentication_method)
    ∷ (5, uint32 o.randomization_interval)
    ∷ (6, int32 o.time_offset)
    ∷ (7, uint32 o.time_threshold)
    ∷ [])

unfoldable pub set_attribute : NtpSetup → ℕ → DlmsValue → Result (Unit {0}) × NtpSetup
set_attribute o id v = write o id (
    (2, record o { ntp_server_address = octets_or o.ntp_server_address v })
    ∷ (3, record o { ntp_port = uint16_or o.ntp_port v })
    ∷ (4, record o { authentication_method = uint8_or o.authentication_method v })
    ∷ (5, record o { randomization_interval = uint32_or o.randomization_interval v })
    ∷ (6, record o { time_offset = int32_or o.time_offset v })
    ∷ (7, record o { time_threshold = uint32_or o.time_threshold v })
    ∷ [])

unfoldable pub set_ntp_port : ℕ → NtpSetup → NtpSetup
set_ntp_port port o = record o { ntp_port = port }

unfoldable pub set_ntp_server : List ℕ → NtpSetup → NtpSetup
set_ntp_server server o = record o { ntp_server_address = server }

abbrev pub class : CosemClass NtpSetup
class = record {
  class_id = 100;
  version = 0;
  class_name = "NtpSetup";
  logical_name = λ o. o.logical_name;
  set_logical_name = λ ln o. record o { logical_name = ln };
  get_attributes = get_attributes;
  get_attribute = get_attribute;
  set_attribute = set_attribute;
}

abbrev pub cells : List (ℕ × Cell)
cells =
    (2, holds_octets)
    ∷ (3, holds_uint16)
    ∷ (4, holds_uint8)
    ∷ (5, holds_uint32)
    ∷ (6, holds_int32)
    ∷ (7, holds_uint32)
    ∷ []

-- Listed but never read.
abbrev pub unread : List ℕ
unread = []

accepts :
    (o : NtpSetup) (id : ℕ) (v : DlmsValue) → (set_attribute o id v).0 ≡ answer (cell_of cells id) v
unfolding set_attribute write cell_of
accepts o id v = ground arith

reads_back :
    (o : NtpSetup) (written : ℕ) (v : DlmsValue) (id : ℕ)
    → get_attribute (set_attribute o written v).1 id
      ≡ reads_after cells written v id (get_attribute o id)
unfolding get_attribute set_attribute read write cell_of reads_after
reads_back o written v id = ground (
  arith,
  octets_or-takes o.ntp_server_address v,
  uint16_or-takes o.ntp_port v,
  uint8_or-takes o.authentication_method v,
  uint32_or-takes o.randomization_interval v,
  int32_or-takes o.time_offset v,
  uint32_or-takes o.time_threshold v,
)

pub class-IsAttributeStore : IsAttributeStore class cells unread
unfolding get_attribute read is_ok is_listed is_member
class-IsAttributeStore = record {
  answers = accepts;
  stores = reads_back;
  renames = λ ln o id. ground arith;
  lists = λ o id. ground arith;
}
