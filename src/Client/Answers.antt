-- ===== src/Client/Answers.antt =====
-- src/dlms/client/client.cpp: what the client makes of the frames that a transport answers with.
use dlms_cosem_cpp.Base.{
  ℕ, ◌+◌, suc, ◌-◌, ◌*◌, ◌≡◌, refl, arith, true, List, [], ◌∷◌, length, some, some,
}
use dlms_cosem_cpp.Core.{ok, err, invalid_tag}
use dlms_cosem_cpp.ByteBuffer.{of_bytes}
use dlms_cosem_cpp.ByteBuffer.View.{of_bytes-Left, read_u8-Reads}
use dlms_cosem_cpp.Axdr.Decoder.{decode_by_tag, decode_one, decode}
use dlms_cosem_cpp.Hdlc.Escape.{hdlc_flag_byte}
use dlms_cosem_cpp.Hdlc.Frame.{HdlcFrame, make_snrm, make_information, frame_bytes}
use dlms_cosem_cpp.Hdlc.Frame.Written.{IsShortFrame}
use dlms_cosem_cpp.Hdlc.Frame.RoundTrip.{from_bytes-frame_bytes}
use dlms_cosem_cpp.Client.{
  DlmsConnectionConfig, Transport, DlmsClient, get_request, connect, send_hdlc, get, receive_hdlc,
}

-- The decoder knows no value with the tag 0x7E, the flag that every frame begins with.
decode_one-flag :
    (fuel n : ℕ) (rest : List ℕ)
    → fuel ≡ suc n
    → (decode_one fuel (of_bytes (hdlc_flag_byte ∷ rest))).0 ≡ err invalid_tag
unfolding decode_one decode_by_tag
decode_one-flag fuel n rest e =
    rw
      (
        e,
        read_u8-Reads hdlc_flag_byte (of_bytes (hdlc_flag_byte ∷ rest)) rest
            (of_bytes-Left (hdlc_flag_byte ∷ rest)),
      )
      refl

decode-flag : (f : HdlcFrame) → (decode (of_bytes (frame_bytes f))).0 ≡ err invalid_tag
unfolding decode frame_bytes
decode-flag f =
    let bytes = frame_bytes f in
    decode_one-flag (2 * (length bytes - 0) + 1) (2 * length bytes) _ (omega arith)

module _ {S : Type 0} (t : Transport S) where
  -- The bytes that the client sends with a payload.
  abbrev pub sent : DlmsClient S → List ℕ → List ℕ
  sent c payload = frame_bytes (
      make_information c.config.client_address c.config.server_address c.send_seq c.recv_seq
        payload)

  send_hdlc-answer :
      (c : DlmsClient S) (s : S) (payload answer : List ℕ)
      → c.transport ≡ some s
      → (t.send_and_receive (sent c payload) s).0 ≡ ok answer
      → (send_hdlc t payload c).0 ≡ ok answer
  unfolding send_hdlc
  send_hdlc-answer c s payload answer link e = rw (link, e)

  -- When the transport answers with an HDLC frame, `get` fails with `InvalidTag`, whatever the
  -- frame carries: it decodes the frame in place of its information.
  pub get-frame :
      (c : DlmsClient S) (s : S) (obis : List ℕ) (class_id attribute_id : ℕ) (f : HdlcFrame)
      → c.transport ≡ some s
      → (t.send_and_receive (sent c (get_request obis class_id attribute_id)) s).0
        ≡ ok (frame_bytes f)
      → (get t obis class_id attribute_id c).0 ≡ err invalid_tag
  unfolding get
  get-frame c s obis class_id attribute_id f link e =
      rw (send_hdlc-answer c s (get_request obis class_id attribute_id) (frame_bytes f) link e)
        (decode-flag f)

  -- The state of the transport that `connect` opened.
  abbrev pub opened : DlmsConnectionConfig → S
  opened config = (t.connect_to config (t.create config)).1

  -- `connect` succeeds when the transport opens and answers with any short frame, of any known
  -- type, and the client is then connected with both numbers at zero.
  pub connect-frame :
      (c : DlmsClient S) (f : HdlcFrame)
      → IsShortFrame f
      → (t.connect_to c.config (t.create c.config)).0 ≡ ok tt
      → (t.send_and_receive
          (frame_bytes (make_snrm c.config.client_address c.config.server_address))
          (opened c.config)).0
        ≡ ok (frame_bytes f)
      → let (r, c') = connect t c in
        (r ≡ ok tt) × ((c'.connected ≡ true) × ((c'.send_seq ≡ 0) × (c'.recv_seq ≡ 0)))
  unfolding connect
  connect-frame c f h e answer =
      rw (e, answer, from_bytes-frame_bytes f h) (refl, (refl, (refl, refl)))

  -- When the transport answers with any short frame, of any known type, `receive_hdlc` returns the
  -- information that the frame carries, and the client keeps its state but for the transport's.
  pub receive_hdlc-frame :
      (c : DlmsClient S) (s : S) (f : HdlcFrame)
      → IsShortFrame f
      → c.transport ≡ some s
      → (t.send_and_receive [] s).0 ≡ ok (frame_bytes f)
      → receive_hdlc t c
        ≡ some (ok f.information_field, record c { transport = some (t.send_and_receive [] s).1 })
  unfolding receive_hdlc
  receive_hdlc-frame c s f h link answer = rw (link, answer, from_bytes-frame_bytes f h) refl
