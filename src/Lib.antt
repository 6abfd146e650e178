-- ===== src/Lib.antt =====
-- The DLMS/COSEM library: the byte buffer and the two codecs on it (A-XDR for values, BER for the
-- association), the HDLC link layer, the SM4 cipher and the security wrappers, the client that sends
-- requests in HDLC frames over a transport, the transports, and the COSEM interface classes.
--
-- How the parts interact: every codec reads and writes a byte buffer, which is its bytes and a
-- position. A reader returns a value or an error with the buffer it leaves; a writer appends. The
-- client encodes a request, puts it into an information frame, hands the bytes of the frame to the
-- transport and decodes what comes back. A COSEM object answers get and set requests for its
-- attributes, which are numbered and hold values of the A-XDR codec.
--
-- The files and the code they model:
--   Base, and its children Tests, Lists, Bits, Xor and Int: Boolean tests on numbers, lists, bit
--     operations on numbers with their laws, and two's complement integers.
--   Core, Core/Tag: include/dlms/core/types.hpp (DlmsError, Result, DlmsTag). The value `stuck` of
--     the model's Result stands for a loop that ran out of fuel; it is no value of the program.
--   ByteBuffer: include/dlms/core/byte_buffer.hpp. Children: View (what is left at a position),
--     RoundTrip and Length (writers against readers), Bounds (positions), Runs (concrete runs).
--   Axdr: include/dlms/core/dlms_variant.hpp (Value: DlmsValue, get_tag),
--     src/dlms/axdr/encoder.cpp (Encoder: AxdEncoder) and src/dlms/axdr/decoder.cpp (Decoder:
--     AxdDecoder). Bytes, RoundTrip and Total hold lemmas and proofs.
--   Ber: src/dlms/asn1/ber.cpp (Tlv: BerEncoder and BerDecoder; Apdu: AarqApdu and AareApdu).
--     Fields, RoundTrip, Aarq, Aare and Total hold lemmas and proofs.
--   Hdlc: src/dlms/hdlc/frame.cpp (Escape: hdlc_escape, hdlc_unescape; Control: FrameFormat and
--     ControlField; Frame: HdlcFrame), src/dlms/hdlc/address.cpp (Address), src/dlms/hdlc/crc.cpp
--     (Crc: Crc16; Reversed and Bitwise compare it with
--     the bitwise definition of CRC-16/X-25; Frame/Accepted: frames that from_bytes accepts).
--   Sm4: src/dlms/security/sm4.cpp (Tables: SBOX, CK, FK; Block: key_expansion, encrypt_block,
--     decrypt_block; Gcm: gcm_encrypt, gcm_decrypt, gmac). The round keys stand for the object.
--   Security: include/dlms/security/security.hpp and src/dlms/security/security.cpp
--     (SecurityControlField, SecuritySuite, make_iv, encrypt, decrypt, gmac; Derive: the key
--     derivation; Evp: aes_gcm_encrypt and aes_gcm_decrypt over the calls of OpenSSL).
--   Client: src/dlms/client/client.cpp (DlmsClient: connect, disconnect, send_hdlc, receive_hdlc, get,
--     set as set_value, action) over ITransport of include/dlms/transport/transport.hpp, a record of
--     operations that change a state of any type.
--   DateTime: include/dlms/core/datetime.hpp (ClockStatus, CosemDate, CosemTime, CosemDateTime as
--     bytes).
--   Obis: include/dlms/core/obis.hpp (ObisCode: from_bytes as obis_of, to_array, the
--     order; Text: from_string and to_canonical over the standard streams in the C locale).
--   Transport: src/dlms/transport/transport.cpp (TcpTransport over the system calls, a record of
--     operations on a state of any type; Serial: SerialTransport).
--   Cosem/Object: include/dlms/core/cosem_object.hpp (CosemObject as CosemClass, the default
--     members as base) and what the classes share: read and write are the chains of cases of
--     get_attribute and set_attribute, bool_or and its like are the tests std::get_if. Store is the
--     interface of a store of typed attributes, Requests is its client: sequences of set requests.
--   Cosem/Metering, Schedule, Link, Network, Device: the classes of include/dlms/cosem, one file
--     each and named as the header. A file has the state as a record, get_attributes,
--     get_attribute, set_attribute, the other operations, the class record, and the table of its
--     cells with the proof that it fills the interface.
--   Cosem/ImageTransfer, DisconnectControl, Limiter: three more classes, with Class for the interface.
--   Cosem/Registry: all concrete classes by name; Registry/Laws speaks of every one of them.
--
-- Numbers are natural numbers; a cast to a width of w bits is written as a remainder by 2^w where
-- the source can exceed it, and signed integers are cast by two's complement. A floating point number
-- is the list of its bytes, which is all that the code uses of it.
--
-- An attribute number is an int of the source; a negative one is a number that no case names.
--
-- Fuel: the decoder recurses on bytes that a call leaves unread, so it takes fuel, twice the bytes
-- that are left and one; the loop over BER elements takes one unit of fuel for each byte that is
-- left. Both are enough, since every call or round reads a byte. All other loops are by recursion on
-- their data or on a number of rounds that the source fixes.
--
-- Undefined behaviour of the source is the result `none` in these places: a nonce that is longer
-- than the counter, a remainder by a tag length of zero, the loop of kdf_hmac_sha256 that
-- nothing leaves, numbers of an OBIS text that were never read, a special day that is inserted
-- past the end of its table.
--
-- The tables of cells in the Cosem modules say what the code of a class reads and writes. The comments
-- above the classes number and type some attributes otherwise, in ClockControl above all, whose
-- comment has an attribute adjustment_time at 3 that the code does not have, and in AutoConnect,
-- GprsModemSetup, InfraredSetup, MaximumDemand, MbusMaster, NtpSetup, SerialPort, SmtpSetup, Ups and
-- WisunSetup, whose comments give narrower or other types; what the comments call an enum is an
-- unsigned byte. The tables are no specification by the comments or by the DLMS standard.
--
-- Not modelled: the text forms of dates and times, the system calls (a parameter of
-- TcpTransport), the calls of OpenSSL (a parameter of Evp). A second connect of a client
-- destroys its old transport, which closes the socket; the client's model makes a new transport
-- and forgets the old one.
pub mod Base
pub mod Core
pub mod ByteBuffer
pub mod Axdr
pub mod Ber
pub mod Hdlc
pub mod Sm4
pub mod Security
pub mod Client
pub mod Transport
pub mod DateTime
pub mod Obis
pub mod Cosem
