-- ===== src/Transport/Serial.antt =====
-- src/dlms/transport/transport.cpp: SerialTransport, a placeholder.
use dlms_cosem_cpp.Base.{ℕ, Bool, false, List}
use dlms_cosem_cpp.Base.Int.{ℤ}
use dlms_cosem_cpp.Core.{Result, ok, err, not_supported}

pub record SerialTransport : Type 0 where
  pub port : List ℕ
  pub baud_rate : ℕ
  pub connected : Bool

abbrev pub new_serial : List ℕ → ℕ → SerialTransport
new_serial port baud_rate = record { port = port; baud_rate = baud_rate; connected = false }

unfoldable pub connect : List ℕ → ℕ → SerialTransport → Result (Unit {0}) × SerialTransport
connect address port o = (err not_supported, o)

unfoldable pub disconnect : SerialTransport → Result (Unit {0}) × SerialTransport
disconnect o = (ok tt, record o { connected = false })

unfoldable pub send_and_receive : List ℕ → ℤ → SerialTransport → Result (List ℕ) × SerialTransport
send_and_receive bytes timeout_ms o = (err not_supported, o)

unfoldable pub is_connected : SerialTransport → Bool
is_connected o = o.connected
