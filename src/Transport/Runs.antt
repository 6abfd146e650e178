-- ===== src/Transport/Runs.antt =====
-- Runs of the transport over a small system: its state counts the open sockets.
use dlms_cosem_cpp.Base.{
  ℕ, zero, suc, ◌+◌, ◌-◌, ◌≤◌, ◌<◌, ◌≡◌, refl, true, false, some, List, [], ◌∷◌, length, arith,
}
use dlms_cosem_cpp.Base.Int.{ℤ, pos, negsuc}
use dlms_cosem_cpp.Core.{ok, err, connection_error}
use dlms_cosem_cpp.Client.{DlmsConnectionConfig, new_client}
use dlms_cosem_cpp.Client
use dlms_cosem_cpp.Transport.{
  Sockets, TcpTransport, new_tcp, send_and_receive, is_connected, tcp_transport,
}
use dlms_cosem_cpp.Transport.Laws.{send_and_receive-bounds, refused-open}

-- One byte, where there is room for it.
abbrev stored : ℕ → ℤ
stored zero = pos 0
stored (suc n) = pos 1

abbrev byte_for : ℕ → List ℕ
byte_for zero = []
byte_for (suc n) = 7 ∷ []

-- Socket 3 opens, nobody listens, and what was sent is answered by one byte.
abbrev small_system : Sockets ℕ
small_system = record {
  socket = λ n. (pos 3, n + 1);
  connect = λ fd address port n. (negsuc 0, n);
  send = λ fd bytes n. n;
  poll = λ fd ms n. (pos 1, n);
  recv = λ fd size n. ((stored size, byte_for size), n);
  closesocket = λ fd n. n - 1;
}

byte_for-fills :
    (fd : ℤ) (size : ℕ) (e n : ℕ)
    → (small_system.recv fd size e).0.0 ≡ pos n
    → (length (small_system.recv fd size e).0.1 ≡ n) × (n ≤ size)
byte_for-fills fd zero e n h = ground arith
byte_for-fills fd (suc size) e n h = ground arith

abbrev open_tcp : TcpTransport
open_tcp = record { socket_fd = pos 3 }

abbrev one_byte : List ℕ
one_byte = 7 ∷ []

received_lem : (send_and_receive small_system [] (pos 5000) (0, open_tcp)).0 ≡ ok one_byte
unfolding send_and_receive
received_lem = refl

send_and_receive-bounds_example :
    (is_connected open_tcp ≡ true) × (0 < length one_byte) × (length one_byte ≤ 4096)
send_and_receive-bounds_example =
    send_and_receive-bounds small_system byte_for-fills [] (pos 5000) 0 open_tcp one_byte
      received_lem

abbrev config : DlmsConnectionConfig
config = record { client_address = 16; server_address = 1 }

refused-open_example :
    let t = tcp_transport small_system 0 [] 4059 in
    let (r, c) = Client.connect t (new_client config) in
    (r ≡ err connection_error)
    × (c.connected ≡ false)
    × (c.transport ≡ some (1, open_tcp))
    × ((Client.disconnect t c).1.transport ≡ some (0, new_tcp))
refused-open_example = refused-open small_system config 0 [] 4059 refl refl
