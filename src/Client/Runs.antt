-- ===== src/Client/Runs.antt =====
-- Runs of src/dlms/client/client.cpp over a transport that answers every message with one frame.
use dlms_cosem_cpp.Base.{ℕ, ◌+◌, ◌≡◌, refl, arith, true, List, [], ◌∷◌, some}
use dlms_cosem_cpp.Core.{ok, err, invalid_tag}
use dlms_cosem_cpp.Hdlc.Frame.{HdlcFrame, make_rr, make_information, frame_bytes}
use dlms_cosem_cpp.Hdlc.Frame.Written.{IsShortFrame}
use dlms_cosem_cpp.Client.{
  receive_hdlc, DlmsConnectionConfig, Transport, DlmsClient, new_client, connect, get,
}
use dlms_cosem_cpp.Client.Steps.{
  IsWellFormed, do_connect, do_get, do_disconnect, operate, Reached, at_start, then_do,
  Reached-IsWellFormed,
}
use dlms_cosem_cpp.Client.Answers.{get-frame, connect-frame, receive_hdlc-frame}

-- A frame that is no UA.
abbrev receiver_ready : HdlcFrame
receiver_ready = make_rr 16 1 0

receiver_ready-IsShortFrame : IsShortFrame receiver_ready
unfolding make_rr
receiver_ready-IsShortFrame = record {
  dest_short = omega arith;
  dest_logical = refl;
  source_short = omega arith;
  source_logical = refl;
  format_fits = omega arith;
  known = λ e. cc;
  send_fits = omega arith;
  recv_fits = omega arith;
  carries = refl;
}

-- Its state is the count of the messages that it was sent.
abbrev echo : Transport ℕ
echo = record {
  create = λ c. 0;
  connect_to = λ c n. (ok tt, n);
  send_and_receive = λ bytes n. (ok (frame_bytes receiver_ready), n + 1);
  close = λ n. n;
}

abbrev settings : DlmsConnectionConfig
settings = record { client_address = 16; server_address = 1 }

abbrev linked : DlmsClient ℕ
linked = record {
  config = settings;
  transport = some 1;
  connected = true;
  send_seq = 7;
  recv_seq = 0;
}

abbrev clock : List ℕ
clock = 0 ∷ (0 ∷ (1 ∷ (0 ∷ (0 ∷ (255 ∷ [])))))

get-frame_example : (get echo clock 8 2 linked).0 ≡ err invalid_tag
get-frame_example = get-frame echo linked 1 clock 8 2 receiver_ready refl refl

connect-frame_example :
    let (r, c') = connect echo linked in
    (r ≡ ok tt) × ((c'.connected ≡ true) × ((c'.send_seq ≡ 0) × (c'.recv_seq ≡ 0)))
connect-frame_example =
    connect-frame echo linked receiver_ready receiver_ready-IsShortFrame refl refl

-- A transport that answers with two bytes of information.
abbrev informing_frame : HdlcFrame
informing_frame = make_information 16 1 2 3 (0x7E ∷ 0x01 ∷ [])

informing_frame-IsShortFrame : IsShortFrame informing_frame
unfolding make_information
informing_frame-IsShortFrame = record {
  dest_short = omega arith;
  dest_logical = refl;
  source_short = omega arith;
  source_logical = refl;
  format_fits = omega arith;
  known = λ e. cc;
  send_fits = omega arith;
  recv_fits = omega arith;
  carries = refl;
}

abbrev informing : Transport ℕ
informing = record echo { send_and_receive = λ bytes n. (ok (frame_bytes informing_frame), n + 1) }

receive_hdlc-frame_example :
    receive_hdlc informing linked
    ≡ some (ok informing_frame.information_field, record linked { transport = some 2 })
receive_hdlc-frame_example =
    receive_hdlc-frame informing linked 1 informing_frame informing_frame-IsShortFrame refl refl

-- After a connection, a read and a disconnection.
abbrev fresh : DlmsClient ℕ
fresh = new_client settings

abbrev connected_client : DlmsClient ℕ
connected_client = operate echo do_connect fresh

abbrev used_client : DlmsClient ℕ
used_client = operate echo (do_get clock 8 2) connected_client

session : Reached echo settings (operate echo do_disconnect used_client)
session =
    then_do used_client do_disconnect
      (then_do connected_client (do_get clock 8 2) (then_do fresh do_connect at_start))

Reached-IsWellFormed_example : IsWellFormed (operate echo do_disconnect used_client)
Reached-IsWellFormed_example =
    Reached-IsWellFormed echo settings (operate echo do_disconnect used_client) session
