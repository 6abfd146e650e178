-- ===== src/Cosem/Runs.antt =====
-- Runs of the classes of include/dlms/cosem.
use dlms_cosem_cpp.Base.{ℕ, ◌+◌, ◌%◌, ◌^◌, ◌≡◌, ◌≤◌, refl, some, List, [], ◌∷◌, ◌++◌, map, length}
use dlms_cosem_cpp.Cosem.ImageTransfer.{
  ImageTransfer, initiated, activation_successful, new_transfer, initiate, transfer_block, verify,
  activate,
}
use dlms_cosem_cpp.Cosem.ImageTransfer.Steps
use dlms_cosem_cpp.Cosem.ImageTransfer.Steps.{
  do_initiate, do_transfer_block, do_verify, do_activate, Reached, at_start, then_call,
  activated_complete, transfer_blocks, joined, transfer_blocks-joined,
}
use dlms_cosem_cpp.Base.{arith}
use dlms_cosem_cpp.Core.{ok}
use dlms_cosem_cpp.Axdr.Value.{DlmsValue, uint16, uint32, octets}
use dlms_cosem_cpp.Cosem.Object.{insert}
use dlms_cosem_cpp.Cosem.Object.Store.{IsAttributeStore, answer, cell_of, reads_after}
use dlms_cosem_cpp.Cosem.Object.Requests.{requests, answers_to, reads_after_all}
use dlms_cosem_cpp.Cosem.Registry.{class_of, cells_of, unread_of, serial_port}
use dlms_cosem_cpp.Cosem.Registry.Laws.{class_of-IsAttributeStore, requests-refine}
use dlms_cosem_cpp.Cosem.Link.SerialPort.{SerialPort, new_serial_port}
use dlms_cosem_cpp.Cosem.Link.MbusClient.{MbusClient, new_mbus_client, get_attribute}
use dlms_cosem_cpp.Cosem.Link.MbusClient.Count.{
  do_add_mbus_slave, call, Reached as MbusReached, at_start as mbus_at_start,
  then_call as mbus_then_call, get_attribute-slaves,
}
use dlms_cosem_cpp.Cosem.Schedule.SpecialDaysTable.{
  SpecialDaysTable, entry, entry_count, execute_insert, execute_delete,
}
use dlms_cosem_cpp.Cosem.Schedule.SpecialDaysTable.Order.{execute_delete-execute_insert}

-- Four bytes announced, sent in two blocks, verified and activated.
abbrev begun : ImageTransfer
begun = Steps.call (do_initiate (9 ∷ []) 4) (new_transfer [])

abbrev half : ImageTransfer
half = Steps.call (do_transfer_block 0 (1 ∷ (2 ∷ []))) begun

abbrev whole : ImageTransfer
whole = Steps.call (do_transfer_block 1 (3 ∷ (4 ∷ []))) half

abbrev finished : ImageTransfer
finished = Steps.call do_activate (Steps.call do_verify whole)

finished-Reached : Reached [] finished
finished-Reached = then_call _ do_activate (
    then_call whole do_verify (
      then_call half (do_transfer_block 1 (3 ∷ (4 ∷ []))) (
        then_call begun (do_transfer_block 0 (1 ∷ (2 ∷ [])))
          (then_call (new_transfer []) (do_initiate (9 ∷ []) 4) at_start))))

finished_lem : finished.status ≡ activation_successful
unfolding initiate transfer_block verify activate
finished_lem = refl

activated_complete_example : finished.image_size ≤ length finished.image_data
activated_complete_example = activated_complete [] finished finished-Reached finished_lem

abbrev blocks : List (List ℕ)
blocks = (1 ∷ (2 ∷ [])) ∷ ((3 ∷ []) ∷ [])

begun_lem : begun.status ≡ initiated
unfolding initiate
begun_lem = refl

transfer_blocks-joined_example :
    ((transfer_blocks 0 blocks begun).image_data ≡ begun.image_data ++ joined blocks)
    × ((transfer_blocks 0 blocks begun).status ≡ initiated)
    × ((transfer_blocks 0 blocks begun).image_size ≡ begun.image_size)
transfer_blocks-joined_example = transfer_blocks-joined blocks 0 begun begun_lem

-- A serial port: a rate is set, a rate of the wrong type is dropped, its name cannot be written.
abbrev port : SerialPort
port = new_serial_port []

abbrev settings : List (ℕ × DlmsValue)
settings = (2, uint32 19200) ∷ (2, uint16 300) ∷ (1, octets []) ∷ []

class_of-IsAttributeStore_example :
    IsAttributeStore (class_of serial_port) (cells_of serial_port) (unread_of serial_port)
class_of-IsAttributeStore_example = class_of-IsAttributeStore serial_port

requests-refine_example :
    ((class_of serial_port).get_attribute (requests (class_of serial_port) settings port) 2
      ≡ reads_after_all
          (cells_of serial_port)
          settings
          2
          ((class_of serial_port).get_attribute port 2))
    × (answers_to (class_of serial_port) settings port
        ≡ map (λ r. answer (cell_of (cells_of serial_port) r.0) r.1) settings)
requests-refine_example = requests-refine serial_port port settings 2

-- What the specification makes of these requests: the first rate is read.
settings_read :
    reads_after_all (cells_of serial_port) settings 2 (ok (uint32 9600)) ≡ ok (uint32 19200)
unfolding reads_after_all reads_after cell_of
settings_read = refl

-- Two slaves are added.
abbrev one_slave : MbusClient
one_slave = call (do_add_mbus_slave 1 [] 0 2) (new_mbus_client [])

abbrev two_slaves : MbusClient
two_slaves = call (do_add_mbus_slave 2 [] 0 7) one_slave

two_slaves-Reached : MbusReached [] two_slaves
two_slaves-Reached =
    mbus_then_call one_slave (do_add_mbus_slave 2 [] 0 7)
      (mbus_then_call (new_mbus_client []) (do_add_mbus_slave 1 [] 0 2) mbus_at_start)

get_attribute-slaves_example :
    get_attribute two_slaves 5 ≡ ok (uint16 (length two_slaves.mbus_client_list % 2 ^ 16))
get_attribute-slaves_example = get_attribute-slaves [] two_slaves two_slaves-Reached

abbrev one_day : SpecialDaysTable
one_day = record { logical_name = []; entries = entry 0 [] 1 ∷ [] }

execute_delete-execute_insert_example :
    let o' : SpecialDaysTable = record one_day {
      entries = insert 1 (entry 1 [] 2) one_day.entries;
    } in
    (execute_insert 1 [] 2 one_day ≡ some (ok [], o'))
    × (entry_count o' ≡ entry_count one_day + 1)
    × (execute_delete 1 o' ≡ (ok [], one_day))
unfolding entry_count
execute_delete-execute_insert_example = execute_delete-execute_insert 1 [] 2 one_day (omega arith)
