-- ===== src/Client/Steps.antt =====
-- src/dlms/client/client.cpp: the states that a client reaches by its operations, over any transport.
use dlms_cosem_cpp.Base.{ℕ, ◌+◌, ◌<◌, ◌≡◌, refl, arith, Bool, true, false, List, Option, none, some}
use dlms_cosem_cpp.Base.Bits.{bit_and-mask}
use dlms_cosem_cpp.Core.{Result, ok, err, stuck}
use dlms_cosem_cpp.Hdlc.Frame.{make_snrm, make_information, frame_bytes, from_bytes}
use dlms_cosem_cpp.Axdr.Value.{DlmsValue}
use dlms_cosem_cpp.Client.{
  DlmsConnectionConfig, Transport, DlmsClient, Call, new_client, after, get_request, set_request,
  action_request, established, negotiate, connect, disconnect, answered, send_over, send_hdlc,
  decoded, get, set_value, action,
}

-- A connected client has a transport.
abbrev pub has_link : {S : Type 0} → Bool → Option S → Bool
has_link false link = true
has_link true none = false
has_link true (some s) = true

-- The sequence number has three bits, the received one is never counted, and a connected client has
-- a transport.
pub record IsWellFormed {S : Type 0} (c : DlmsClient S) : Type 0 where
  pub send_fits : c.send_seq < 8
  pub recv_still : c.recv_seq ≡ 0
  pub linked : has_link c.connected c.transport ≡ true

pub data Operation : Type 0 where
  do_connect : Operation
  do_disconnect : Operation
  do_get : List ℕ → ℕ → ℕ → Operation
  do_set : List ℕ → ℕ → ℕ → DlmsValue → Operation
  do_action : List ℕ → ℕ → ℕ → DlmsValue → Operation

some_is_link : {S : Type 0} (connected : Bool) (s : S) → has_link connected (some s) ≡ true
some_is_link true s = refl
some_is_link false s = refl

module _ {S : Type 0} (t : Transport S) where
  abbrev pub operate : Operation → DlmsClient S → DlmsClient S
  operate do_connect c = (connect t c).1
  operate do_disconnect c = (disconnect t c).1
  operate (do_get obis k i) c = (get t obis k i c).1
  operate (do_set obis k i v) c = (set_value t obis k i v c).1
  operate (do_action obis k i v) c = (action t obis k i v c).1

  -- The clients that some operations lead to, from a new one on.
  pub data Reached (config : DlmsConnectionConfig) : DlmsClient S → Type 0 where
    at_start : Reached config (new_client config)
    then_do : (c : DlmsClient S) (o : Operation) → Reached config c → Reached config (operate o c)

  after-IsWellFormed :
      {A B : Type 0} (r : Result A) (next : A → Call S B) (c : DlmsClient S)
      → ((a : A) → IsWellFormed (next a c).1)
      → IsWellFormed c
      → IsWellFormed (after r next c).1
  after-IsWellFormed (ok a) next c h w = h a
  after-IsWellFormed (err e) next c h w = w
  after-IsWellFormed stuck next c h w = w

  over_transport :
      (c : DlmsClient S) (s : S) → IsWellFormed c → IsWellFormed (record c { transport = some s })
  over_transport c s w = record {
    send_fits = w.send_fits;
    recv_still = w.recv_still;
    linked = some_is_link c.connected s;
  }

  send_over-IsWellFormed :
      (link : Option S) (payload : List ℕ) (c : DlmsClient S)
      → IsWellFormed c
      → IsWellFormed (send_over t link payload c).1
  send_over-IsWellFormed none payload c w = w
  send_over-IsWellFormed (some s) payload c w =
      let bytes = frame_bytes (
        make_information c.config.client_address c.config.server_address c.send_seq c.recv_seq
          payload) in
      let (resp, s') = t.send_and_receive bytes s in
      let next = record c { transport = some s' } in
      after-IsWellFormed resp (answered t) next
        (λ a. record {
          send_fits = omega (arith, bit_and-mask 3 (c.send_seq + 1));
          recv_still = w.recv_still;
          linked = some_is_link c.connected s';
        })
        (over_transport c s' w)

  send_hdlc-IsWellFormed :
      (payload : List ℕ) (c : DlmsClient S)
      → IsWellFormed c
      → IsWellFormed (send_hdlc t payload c).1
  unfolding send_hdlc
  send_hdlc-IsWellFormed payload c w = send_over-IsWellFormed c.transport payload c w

  connect-IsWellFormed : (c : DlmsClient S) → IsWellFormed c → IsWellFormed (connect t c).1
  unfolding connect
  connect-IsWellFormed c w =
      let (opened, s) = t.connect_to c.config (t.create c.config) in
      let snrm = frame_bytes (make_snrm c.config.client_address c.config.server_address) in
      let (resp, s') = t.send_and_receive snrm s in
      let next = record c { transport = some s' } in
      after-IsWellFormed opened (λ _. negotiate t s) (record c { transport = some s })
        (λ _.
          after-IsWellFormed resp (λ bytes. after (from_bytes bytes) (established t)) next
            (λ bytes.
              after-IsWellFormed (from_bytes bytes) (established t) next
                (λ frame. record {
                  send_fits = omega arith;
                  recv_still = refl;
                  linked = some_is_link true s';
                })
                (over_transport c s' w))
            (over_transport c s' w))
        (over_transport c s w)

  disconnect-IsWellFormed : (c : DlmsClient S) → IsWellFormed c → IsWellFormed (disconnect t c).1
  unfolding disconnect
  disconnect-IsWellFormed c w = record {
    send_fits = w.send_fits;
    recv_still = w.recv_still;
    linked = refl;
  }

  operate-IsWellFormed :
      (o : Operation) (c : DlmsClient S) → IsWellFormed c → IsWellFormed (operate o c)
  unfolding get set_value action
  operate-IsWellFormed do_connect c w = connect-IsWellFormed c w
  operate-IsWellFormed do_disconnect c w = disconnect-IsWellFormed c w
  operate-IsWellFormed (do_get obis k i) c w =
      let w' = send_hdlc-IsWellFormed (get_request obis k i) c w in
      let (resp, c') = send_hdlc t (get_request obis k i) c in
      after-IsWellFormed resp (decoded t) c' (λ a. w') w'
  operate-IsWellFormed (do_set obis k i v) c w =
      let w' = send_hdlc-IsWellFormed (set_request obis k i v) c w in
      let (resp, c') = send_hdlc t (set_request obis k i v) c in
      after-IsWellFormed resp (λ bytes d. (ok tt, d)) c' (λ a. w') w'
  operate-IsWellFormed (do_action obis k i v) c w =
      let w' = send_hdlc-IsWellFormed (action_request obis k i v) c w in
      let (resp, c') = send_hdlc t (action_request obis k i v) c in
      after-IsWellFormed resp (decoded t) c' (λ a. w') w'

  -- Whatever operations are called, in whatever order, and whatever the transport answers, the
  -- number sent stays below eight, the number received is never counted, and a client is connected
  -- only with a transport.
  pub Reached-IsWellFormed :
      (config : DlmsConnectionConfig) (c : DlmsClient S) → Reached config c → IsWellFormed c
  Reached-IsWellFormed config _ at_start = record {
    send_fits = omega arith;
    recv_still = refl;
    linked = refl;
  }
  Reached-IsWellFormed config _ (then_do c o r) =
      operate-IsWellFormed o c (Reached-IsWellFormed config c r)
