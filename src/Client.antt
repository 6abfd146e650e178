-- ===== src/Client.antt =====
-- include/dlms/client/client.hpp and src/dlms/client/client.cpp: `DlmsClient` over the interface
-- `ITransport` of include/dlms/transport/transport.hpp, whose implementations open sockets and are a
-- parameter.
pub mod Steps
pub mod Answers
mod Runs
use dlms_cosem_cpp.Base.{ℕ, ◌+◌, Bool, true, false, List, [], ◌∷◌, Option, none, some, bit_and}
use dlms_cosem_cpp.Base.Bits.{u8}
use dlms_cosem_cpp.Core.{Result, ok, err, stuck, connection_error}
use dlms_cosem_cpp.ByteBuffer.{ByteBuffer, Writer, of_bytes, ◌>>◌, write_u8, write_u16, write_bytes}
use dlms_cosem_cpp.Axdr.Value.{DlmsValue}
use dlms_cosem_cpp.Axdr.Encoder.{encode_value}
use dlms_cosem_cpp.Axdr.Decoder.{decode}
use dlms_cosem_cpp.Hdlc.Frame.{
  HdlcFrame, make_snrm, make_information, make_disconnect, frame_bytes, from_bytes,
}

-- The fields of the configuration that the client's messages depend on; the others go to the
-- transport.
pub record DlmsConnectionConfig : Type 0 where
  pub client_address : ℕ
  pub server_address : ℕ

-- `ITransport`: its calls change the state `S` of a transport. `create` is the constructor of the
-- transport that the configuration names.
pub record Transport (S : Type 0) : Type 0 where
  pub create : DlmsConnectionConfig → S
  pub connect_to : DlmsConnectionConfig → S → Result (Unit {0}) × S
  pub send_and_receive : List ℕ → S → Result (List ℕ) × S
  pub close : S → S

pub record DlmsClient (S : Type 0) : Type 0 where
  pub config : DlmsConnectionConfig
  pub transport : Option S
  pub connected : Bool
  pub send_seq : ℕ
  pub recv_seq : ℕ

unfoldable is_connected : {S : Type 0} → DlmsClient S → Bool
is_connected c = c.connected

-- An operation of the client.
abbrev pub Call : Type 0 → Type 0 → Type 0
Call S A = DlmsClient S → Result A × DlmsClient S

abbrev pub new_client : {S : Type 0} → DlmsConnectionConfig → DlmsClient S
new_client c = record {
  config = c;
  transport = none;
  connected = false;
  send_seq = 0;
  recv_seq = 0;
}

-- What follows a call of the transport: with its value, or with its error passed on.
abbrev pub after : {S A B : Type 0} → Result A → (A → Call S B) → Call S B
after (ok a) next c = next a c
after (err e) next c = (err e, c)
after stuck next c = (stuck, c)

abbrev pub request : ℕ → ℕ → List ℕ → ℕ → Writer
request tag class_id obis id = do
  write_u8 tag
  write_u8 0x01
  write_u16 class_id
  write_bytes obis
  write_u8 (u8 id)

unfoldable pub get_request : List ℕ → ℕ → ℕ → List ℕ
get_request obis class_id attribute_id =
    (request 0xC0 class_id obis attribute_id (of_bytes [])).bytes

unfoldable pub set_request : List ℕ → ℕ → ℕ → DlmsValue → List ℕ
set_request obis class_id attribute_id value =
    ((request 0x01 class_id obis attribute_id >> encode_value value) (of_bytes [])).bytes

unfoldable pub action_request : List ℕ → ℕ → ℕ → DlmsValue → List ℕ
action_request obis class_id method_id args =
    ((request 0x06 class_id obis method_id >> encode_value args) (of_bytes [])).bytes

module _ {S : Type 0} (t : Transport S) where
  -- `transport_->send_and_receive(bytes)`, on the transport that the client has.
  abbrev pub exchange : List ℕ → S → DlmsClient S → Result (List ℕ) × DlmsClient S
  exchange bytes s c =
      let (r, s') = t.send_and_receive bytes s in (r, record c { transport = some s' })

  -- The end of `connect`, behind the parsed answer.
  abbrev pub established : HdlcFrame → Call S (Unit {0})
  established frame c = (ok tt, record c { connected = true; send_seq = 0; recv_seq = 0 })

  -- The part of `connect` behind the opened transport: SNRM, then UA.
  abbrev pub negotiate : S → Call S (Unit {0})
  negotiate s c =
      let snrm = make_snrm c.config.client_address c.config.server_address in
      let (resp, c') = exchange (frame_bytes snrm) s c in
      after resp (λ bytes. after (from_bytes bytes) established) c'

  unfoldable pub connect : Call S (Unit {0})
  connect c =
      let (r, s) = t.connect_to c.config (t.create c.config) in
      after r (λ _. negotiate s) (record c { transport = some s })

  -- `disconnect`, by the transport; what the exchange answers is dropped.
  abbrev pub disconnect_with : Bool → Option S → DlmsClient S → Option S
  disconnect_with connected none c = none
  disconnect_with false (some s) c = some (t.close s)
  disconnect_with true (some s) c =
      let disc = make_disconnect c.config.client_address c.config.server_address in
      some (t.close (t.send_and_receive (frame_bytes disc) s).1)

  unfoldable pub disconnect : Call S (Unit {0})
  disconnect c =
      (ok tt, record c { transport = disconnect_with c.connected c.transport c; connected = false })

  -- `send_seq_ = (send_seq_ + 1) & 0x07`, and the answer as it came.
  abbrev pub answered : List ℕ → Call S (List ℕ)
  answered bytes c = (ok bytes, record c { send_seq = bit_and (c.send_seq + 1) 0x07 })

  abbrev pub send_over : Option S → List ℕ → Call S (List ℕ)
  send_over none payload c = (err connection_error, c)
  send_over (some s) payload c =
      let frame =
        make_information c.config.client_address c.config.server_address c.send_seq c.recv_seq
          payload in
      let (resp, c') = exchange (frame_bytes frame) s c in after resp answered c'

  unfoldable pub send_hdlc : List ℕ → Call S (List ℕ)
  send_hdlc payload c = send_over c.transport payload c

  abbrev pub informed : HdlcFrame → Call S (List ℕ)
  informed frame c = (ok frame.information_field, c)

  abbrev pub receive_over : Option S → DlmsClient S → Option (Result (List ℕ) × DlmsClient S)
  receive_over none c = none
  receive_over (some s) c =
      let (resp, c') = exchange [] s c in
      some (after resp (λ bytes. after (from_bytes bytes) informed) c')

  -- `none`: a client without a transport calls through a null pointer.
  unfoldable pub receive_hdlc : DlmsClient S → Option (Result (List ℕ) × DlmsClient S)
  receive_hdlc c = receive_over c.transport c

  -- `dec(get_val(resp)); return dec.decode();`
  abbrev pub decoded : List ℕ → Call S DlmsValue
  decoded bytes c = ((decode (of_bytes bytes)).0, c)

  unfoldable pub get : List ℕ → ℕ → ℕ → Call S DlmsValue
  get obis class_id attribute_id c =
      let (resp, c') = send_hdlc (get_request obis class_id attribute_id) c in after resp decoded c'

  unfoldable pub set_value : List ℕ → ℕ → ℕ → DlmsValue → Call S (Unit {0})
  set_value obis class_id attribute_id value c =
      let (resp, c') = send_hdlc (set_request obis class_id attribute_id value) c in
      after resp (λ bytes d. (ok tt, d)) c'

  unfoldable pub action : List ℕ → ℕ → ℕ → DlmsValue → Call S DlmsValue
  action obis class_id method_id args c =
      let (resp, c') = send_hdlc (action_request obis class_id method_id args) c in
      after resp decoded c'
