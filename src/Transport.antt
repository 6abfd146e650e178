-- ===== src/Transport.antt =====
-- src/dlms/transport/transport.cpp: TcpTransport over the system's sockets. The model
-- is of a system with `poll`; on Windows the source does not wait before it reads.
pub mod Serial
pub mod Laws
mod Runs
use dlms_cosem_cpp.Base.{
  ℕ, ◌≤◌, Bool, true, false, not, List, [], length, take, leb, ◌==◌, if◌then◌else◌,
}
use dlms_cosem_cpp.Base.Int.{ℤ, pos, negsuc}
use dlms_cosem_cpp.Core.{Result, ok, err, connection_error, timeout, not_supported}
use dlms_cosem_cpp.Client.{Transport}

-- The system calls: each changes the state `E` of the system and returns an int. `connect` takes the
-- text of the address and the port, which the code packs into a sockaddr_in; `recv` also returns the
-- bytes with which it filled the buffer of the given size.
pub record Sockets (E : Type 0) : Type 0 where
  pub socket : E → ℤ × E
  pub connect : ℤ → List ℕ → ℕ → E → ℤ × E
  pub send : ℤ → List ℕ → E → E
  pub poll : ℤ → ℤ → E → ℤ × E
  pub recv : ℤ → ℕ → E → (ℤ × List ℕ) × E
  pub closesocket : ℤ → E → E

pub record TcpTransport : Type 0 where
  pub socket_fd : ℤ

abbrev pub new_tcp : TcpTransport
new_tcp = record { socket_fd = negsuc 0 }

-- `fd == INVALID_SOCK`
abbrev pub is_invalid : ℤ → Bool
is_invalid (pos n) = false
is_invalid (negsuc n) = n == 0

-- `n <= 0`
abbrev pub is_none : ℤ → Bool
is_none (pos n) = leb n 0
is_none (negsuc n) = true

-- `n != 0`
abbrev pub is_failure : ℤ → Bool
is_failure (pos n) = not (leb n 0)
is_failure (negsuc n) = true

-- `response.resize(n)` of a positive `n`
abbrev pub resized : ℤ → List ℕ → List ℕ
resized (pos n) xs = take n xs
resized (negsuc n) xs = []

unfoldable pub is_connected : TcpTransport → Bool
is_connected o = not (is_invalid o.socket_fd)

module _ {E : Type 0} (sys : Sockets E) where
  unfoldable pub connect : List ℕ → ℕ → E × TcpTransport → Result (Unit {0}) × (E × TcpTransport)
  connect address port (e, o) =
      let s = sys.socket e in
      let o' : TcpTransport = record { socket_fd = s.0 } in
      if is_invalid s.0
      then (err connection_error, (s.1, o'))
      else (let c = sys.connect s.0 address port s.1 in
          if is_failure c.0 then (err connection_error, (c.1, o')) else (ok tt, (c.1, o')))

  unfoldable pub disconnect : E × TcpTransport → Result (Unit {0}) × (E × TcpTransport)
  disconnect (e, o) =
      if is_invalid o.socket_fd
      then (ok tt, (e, o))
      else (ok tt, (sys.closesocket o.socket_fd e, record { socket_fd = negsuc 0 }))

  abbrev pub received : (ℤ × List ℕ) × E → TcpTransport → Result (List ℕ) × (E × TcpTransport)
  received r o =
      if is_none r.0.0
      then (err connection_error, (r.1, o))
      else (ok (resized r.0.0 r.0.1), (r.1, o))

  unfoldable pub send_and_receive :
      List ℕ → ℤ → E × TcpTransport → Result (List ℕ) × (E × TcpTransport)
  send_and_receive bytes timeout_ms (e, o) =
      if is_invalid o.socket_fd
      then (err connection_error, (e, o))
      else (let ready = sys.poll o.socket_fd timeout_ms (sys.send o.socket_fd bytes e) in
          if is_none ready.0
          then (err timeout, (ready.1, o))
          else received (sys.recv o.socket_fd 4096 ready.1) o)

  -- The transport of a client, over a system in state `e` and to the given address and port.
  unfoldable pub tcp_transport : E → List ℕ → ℕ → Transport (E × TcpTransport)
  tcp_transport e address port = record {
    create = λ config. (e, new_tcp);
    connect_to = λ config s. connect address port s;
    send_and_receive = λ bytes s. send_and_receive bytes (pos 5000) s;
    close = λ s. (disconnect s).1;
  }
