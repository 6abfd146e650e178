-- ===== src/Cosem/DisconnectControl.antt =====
-- include/dlms/cosem/disconnect_control.hpp: the class DisconnectControl.
pub mod Class
use dlms_cosem_cpp.Base.{ℕ, ◌≡◌, refl, List, [], ◌==◌, if◌then◌else◌}
use dlms_cosem_cpp.Core.{Result, ok, err, object_undefined, access_denied, not_supported}
use dlms_cosem_cpp.Axdr.Value.{DlmsValue, uint8, octets}

-- The codes of `DisconnectState`. The enumeration has the underlying type uint8_t, and
-- `static_cast` makes any byte a value of it, so a state is its byte.
abbrev pub disconnected : ℕ
disconnected = 0

abbrev pub connected : ℕ
connected = 1

abbrev ready_for_disconnect : ℕ
ready_for_disconnect = 2

abbrev ready_for_reconnect : ℕ
ready_for_reconnect = 3

pub record DisconnectControl : Type 0 where
  pub logical_name : List ℕ
  pub control_state : ℕ
  pub output_state : ℕ

unfoldable pub new_control : List ℕ → DisconnectControl
new_control ln = record { logical_name = ln; control_state = connected; output_state = connected }

unfoldable pub get_attribute : DisconnectControl → ℕ → Result DlmsValue
get_attribute o id =
    if id == 1
    then ok (octets o.logical_name)
    else (if id == 2
        then ok (uint8 o.control_state)
        else (if id == 3 then ok (uint8 o.output_state) else err object_undefined))

-- `if (auto* p = std::get_if<uint8_t>(&v))`
abbrev with_state : DisconnectControl → DlmsValue → Result (Unit {0}) × DisconnectControl
with_state o (uint8 n) = (ok tt, record o { control_state = n })
with_state o _ = (err access_denied, o)

unfoldable pub set_attribute :
    DisconnectControl → ℕ → DlmsValue → Result (Unit {0}) × DisconnectControl
set_attribute o id v = if id == 2 then with_state o v else (err access_denied, o)

unfoldable pub execute_method : DisconnectControl → ℕ → Result (List ℕ) × DisconnectControl
execute_method o id =
    if id == 1
    then (ok [], record o { control_state = disconnected; output_state = disconnected })
    else (if id == 2
        then (ok [], record o { control_state = connected; output_state = connected })
        else (err not_supported, o))

unfoldable set_control_state : ℕ → DisconnectControl → DisconnectControl
set_control_state state o = record o { control_state = state }

-- A state that is written reads back under the same attribute, and the output does not follow it.
pub get_attribute-set_attribute :
    (o : DisconnectControl) (n : ℕ)
    → let o' = (set_attribute o 2 (uint8 n)).1 in
      (get_attribute o' 2 ≡ ok (uint8 n)) × (get_attribute o' 3 ≡ get_attribute o 3)
unfolding get_attribute set_attribute
get_attribute-set_attribute o n = (refl, refl)
