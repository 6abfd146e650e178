-- ===== src/Cosem/Link/MbusClient/Count.antt =====
-- include/dlms/cosem/mbus_client.hpp: the number of slaves that MbusClient shows, under all its calls.
use dlms_cosem_cpp.Base.{ℕ, ◌%◌, ◌^◌, ◌≡◌, refl, List, length, arith}
use dlms_cosem_cpp.Axdr.Value.{DlmsValue, uint16}
use dlms_cosem_cpp.Core.{ok}
use dlms_cosem_cpp.Cosem.Object.{write, read}
use dlms_cosem_cpp.Cosem.Link.MbusClient.{
  MbusClient, add_mbus_slave, clear_slaves, scan_slaves, set_attribute, get_attribute,
  new_mbus_client,
}

-- The calls that change the object.
pub data Call : Type 0 where
  do_add_mbus_slave : ℕ → List ℕ → ℕ → ℕ → Call
  do_clear_slaves do_scan_slaves : Call
  do_set_attribute : ℕ → DlmsValue → Call

abbrev pub call : Call → MbusClient → MbusClient
call (do_add_mbus_slave address id_number version medium) o =
    add_mbus_slave address id_number version medium o
call do_clear_slaves o = clear_slaves o
call do_scan_slaves o = (scan_slaves o).1
call (do_set_attribute id v) o = (set_attribute o id v).1

-- The objects that calls make of a new one.
pub data Reached (ln : List ℕ) : MbusClient → Type 0 where
  at_start : Reached ln (new_mbus_client ln)
  then_call : (o : MbusClient) (c : Call) → Reached ln o → Reached ln (call c o)

abbrev IsCounted : MbusClient → Type 0
IsCounted o = o.number_of_mbus_clients ≡ length o.mbus_client_list % 2 ^ 16

call-IsCounted : (c : Call) (o : MbusClient) → IsCounted o → IsCounted (call c o)
unfolding add_mbus_slave clear_slaves scan_slaves set_attribute write
call-IsCounted (do_add_mbus_slave address id_number version medium) o h = refl
call-IsCounted do_clear_slaves o h = refl
call-IsCounted do_scan_slaves o h = h
call-IsCounted (do_set_attribute id v) o h = ground arith

Reached-IsCounted : (ln : List ℕ) (o : MbusClient) → Reached ln o → IsCounted o
unfolding new_mbus_client
Reached-IsCounted ln _ at_start = refl
Reached-IsCounted ln _ (then_call o c r) = call-IsCounted c o (Reached-IsCounted ln o r)

-- After any calls, attribute 5 reads the number of slaves in the list, without what 16 bits cannot
-- hold.
pub get_attribute-slaves :
    (ln : List ℕ) (o : MbusClient)
    → Reached ln o
    → get_attribute o 5 ≡ ok (uint16 (length o.mbus_client_list % 2 ^ 16))
unfolding get_attribute read
get_attribute-slaves ln o r = rw (Reached-IsCounted ln o r) refl
