-- ===== src/Cosem/ImageTransfer.antt =====
-- include/dlms/cosem/image_transfer.hpp: the class ImageTransfer.
pub mod Steps
pub mod Class
use dlms_cosem_cpp.Base.{
  ℕ, ◌+◌, ◌%◌, ◌^◌, Bool, true, false, List, [], ◌∷◌, ◌++◌, length, leb, ◌==◌, if◌then◌else◌,
}
use dlms_cosem_cpp.Base.Bits.{u32}
use dlms_cosem_cpp.Core.{Result, ok, err, object_undefined, access_denied, not_supported}
use dlms_cosem_cpp.Axdr.Value.{DlmsValue, DlmsValues, uint8, uint32, octets, array, nil}

pub data ImageTransferStatus : Type 0 where
  not_initiated initiated verification_successful verification_failed : ImageTransferStatus
  waiting_for_activation activation_successful activation_failed : ImageTransferStatus

abbrev pub status_code : ImageTransferStatus → ℕ
status_code not_initiated = 0
status_code initiated = 1
status_code verification_successful = 2
status_code verification_failed = 3
status_code waiting_for_activation = 4
status_code activation_successful = 5
status_code activation_failed = 6

-- `logical_name` is the six bytes of `ln_`.
pub record ImageTransfer : Type 0 where
  pub logical_name : List ℕ
  pub image_identifier : List ℕ
  pub image_size : ℕ
  pub status : ImageTransferStatus
  pub image_data : List ℕ
  pub transferred_blocks : ℕ

unfoldable pub new_transfer : List ℕ → ImageTransfer
new_transfer ln = record {
  logical_name = ln;
  image_identifier = [];
  image_size = 0;
  status = not_initiated;
  image_data = [];
  transferred_blocks = 0;
}

unfoldable pub get_attribute : ImageTransfer → ℕ → Result DlmsValue
get_attribute o id =
    if id == 1
    then ok (octets o.logical_name)
    else (if id == 2
        then ok (octets o.image_identifier)
        else (if id == 3
            then ok (uint32 o.image_size)
            else (if id == 4
                then ok (uint8 (status_code o.status))
                else (if id == 5 then ok (array nil) else err object_undefined))))

-- `if (auto* p = std::get_if<…>(&v)) … = *p;`: a value of another type changes nothing.
abbrev pub with_identifier : ImageTransfer → DlmsValue → ImageTransfer
with_identifier o (octets xs) = record o { image_identifier = xs }
with_identifier o _ = o

abbrev pub with_size : ImageTransfer → DlmsValue → ImageTransfer
with_size o (uint32 n) = record o { image_size = n }
with_size o _ = o

unfoldable pub set_attribute : ImageTransfer → ℕ → DlmsValue → Result (Unit {0}) × ImageTransfer
set_attribute o id v =
    if id == 2
    then (ok tt, with_identifier o v)
    else (if id == 3 then (ok tt, with_size o v) else (err access_denied, o))

unfoldable pub initiate : List ℕ → ℕ → ImageTransfer → Result (Unit {0}) × ImageTransfer
initiate identifier size o = (
  ok tt,
  record {
    logical_name = o.logical_name;
    image_identifier = identifier;
    image_size = size;
    status = initiated;
    image_data = [];
    transferred_blocks = 0;
  },
)

abbrev pub is_initiated : ImageTransferStatus → Bool
is_initiated initiated = true
is_initiated _ = false

-- The index of the block has no part in it.
unfoldable pub transfer_block : ℕ → List ℕ → ImageTransfer → Result (Unit {0}) × ImageTransfer
transfer_block block_index block_data o =
    if is_initiated o.status
    then (
      ok tt,
      record o {
        image_data = o.image_data ++ block_data;
        transferred_blocks = u32 (o.transferred_blocks + 1);
      },
    )
    else (err not_supported, o)

unfoldable pub verify : ImageTransfer → Result (Unit {0}) × ImageTransfer
verify o = (
  ok tt,
  record o {
    status =
        if leb o.image_size (length o.image_data)
        then verification_successful
        else verification_failed;
  },
)

abbrev pub activated : ImageTransferStatus → ImageTransferStatus
activated verification_successful = activation_successful
activated _ = activation_failed

unfoldable pub activate : ImageTransfer → Result (Unit {0}) × ImageTransfer
activate o = (ok tt, record o { status = activated o.status })
