-- ===== src/Transport/Laws.antt =====
-- src/dlms/transport/transport.cpp: what TcpTransport answers, and a client over it.
use dlms_cosem_cpp.Base.{
  ℕ, zero, suc, ◌≤◌, ◌<◌, ◌≡◌, refl, ap, true, false, not, some, List, [], ◌∷◌, Bool-cases, inl,
  inr, length, take, arith,
}
use dlms_cosem_cpp.Base.Int.{ℤ, pos, negsuc}
use dlms_cosem_cpp.Core.{ok, err, connection_error}
use dlms_cosem_cpp.Client.{DlmsConnectionConfig, DlmsClient, new_client, after}
use dlms_cosem_cpp.Client
use dlms_cosem_cpp.Transport.{
  Sockets, TcpTransport, new_tcp, is_invalid, is_none, is_failure, resized, received, connect,
  disconnect, send_and_receive, is_connected, tcp_transport,
}

take-all : (n : ℕ) (xs : List ℕ) → length xs ≡ n → length (take n xs) ≡ n
take-all zero xs h = refl
take-all (suc n) [] h = absurd (omega arith)
take-all (suc n) (x ∷ xs) h = omega (arith, take-all n xs (omega arith))

resized-bounds :
    (z : ℤ) (ys : List ℕ)
    → is_none z ≡ false
    → ((n : ℕ) → z ≡ pos n → (length ys ≡ n) × (n ≤ 4096))
    → (0 < length (resized z ys)) × (length (resized z ys) ≤ 4096)
resized-bounds (pos n) ys some_read fits =
    let fit = fits n refl in
    let positive : 0 < n = ground arith in omega (arith, take-all n ys fit.0, fit.1)
resized-bounds (negsuc n) ys some_read fits = cc

-- `fills` is what the system says of `recv`: a positive answer is the number of bytes that it stored,
-- which is at most the size of the buffer.
module _ {E : Type 0} (sys : Sockets E)
    (fills : (fd : ℤ) (size : ℕ) (e : E) (n : ℕ)
      → (sys.recv fd size e).0.0 ≡ pos n
      → (length (sys.recv fd size e).0.1 ≡ n) × (n ≤ size)) where
  received-bounds :
      (fd : ℤ) (e : E) (o : TcpTransport) (xs : List ℕ)
      → (received sys (sys.recv fd 4096 e) o).0 ≡ ok xs
      → (0 < length xs) × (length xs ≤ 4096)
  received-bounds fd e o xs h =
      let z = (sys.recv fd 4096 e).0.0 in
      elim (Bool-cases (is_none z)) [
        | inl t ↦ cc
        | inr f ↦
            let same_bytes : resized z (sys.recv fd 4096 e).0.1 ≡ xs = cc in
            rw (← same_bytes)
              (resized-bounds z (sys.recv fd 4096 e).0.1 f (λ n p. fills fd 4096 e n p))
      ]

  -- Bytes that TcpTransport receives are at least one and at most 4096, and come only over a socket
  -- that is open, where `recv` stores as many bytes as it says and no more than the buffer holds.
  pub send_and_receive-bounds :
      (bytes : List ℕ) (timeout_ms : ℤ) (e : E) (o : TcpTransport) (xs : List ℕ)
      → (send_and_receive sys bytes timeout_ms (e, o)).0 ≡ ok xs
      → (is_connected o ≡ true) × (0 < length xs) × (length xs ≤ 4096)
  unfolding send_and_receive is_connected
  send_and_receive-bounds bytes timeout_ms e o xs h =
      let ready = sys.poll o.socket_fd timeout_ms (sys.send o.socket_fd bytes e) in
      elim (Bool-cases (is_invalid o.socket_fd)) [
        | inl t ↦ cc
        | inr f ↦ elim (Bool-cases (is_none ready.0)) [
          | inl t ↦ cc
          | inr g ↦
              let bounds = received-bounds o.socket_fd ready.1 o xs cc in
              (ap not f, bounds.0, bounds.1)
        ]
      ]

module _ {E : Type 0} (sys : Sockets E) where
  -- A client whose first connection the system refuses, behind a socket that it did open, fails with
  -- ConnectionError and is not connected, and yet its transport is; disconnecting the client closes
  -- that socket and no other.
  pub refused-open :
      (config : DlmsConnectionConfig) (e : E) (address : List ℕ) (port : ℕ)
      → is_invalid (sys.socket e).0 ≡ false
      → is_failure (sys.connect (sys.socket e).0 address port (sys.socket e).1).0 ≡ true
      → let t = tcp_transport sys e address port in
        let fd = (sys.socket e).0 in
        let e' = (sys.connect fd address port (sys.socket e).1).1 in
        let (r, c) = Client.connect t (new_client config) in
        (r ≡ err connection_error)
        × (c.connected ≡ false)
        × (c.transport ≡ some (e', record { socket_fd = fd }))
        × ((Client.disconnect t c).1.transport ≡ some (sys.closesocket fd e', new_tcp))
  unfolding connect disconnect tcp_transport Client.connect Client.disconnect
  refused-open config e address port opened refused =
      rw (opened, refused) (refl, refl, refl, rw opened refl)
