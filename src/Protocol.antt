-- ===== src/Protocol.antt =====
-- include/protocol.h: constants, message types, reason and error codes, headers and payloads.
-- An `enum class` over uint8_t can hold any byte: `unnamed` is a byte that names no enumerator.
-- A std::string is the list of its bytes; integers are natural numbers, their width is in the
-- predicates `IsWire` below.
pub mod Crc
pub mod Reader
pub mod Header
pub mod Offer
pub mod Payload
pub mod InBounds
mod Tests
use net_transfer.Base.{ℕ, ◌<◌, ◌^◌, ◌≡◌, Bool, List, ◌==◌, if◌then◌else◌, arith, length}

abbrev pub nt_magic : ℕ
nt_magic = 0x4E544652

abbrev pub nt_version : ℕ
nt_version = 1

abbrev pub udp_discovery_port : ℕ
udp_discovery_port = 50000

abbrev pub tcp_port_min : ℕ
tcp_port_min = 50001

abbrev pub tcp_port_max : ℕ
tcp_port_max = 50100

abbrev pub header_size : ℕ
header_size = 22

pub data MessageType : Type 0 where
  discovery_broadcast discovery_reply : MessageType
  transfer_offer transfer_accept transfer_reject transfer_done transfer_ack : MessageType
  data_chunk keepalive error_msg : MessageType
  unnamed : ℕ → MessageType

pub data RejectReason : Type 0 where
  user_declined disk_full invalid_filename unknown : RejectReason
  unnamed : ℕ → RejectReason

pub data ErrorCode : Type 0 where
  checksum_mismatch timeout protocol_violation unknown : ErrorCode
  unnamed : ℕ → ErrorCode

-- static_cast<uint8_t>(msg_type)
unfoldable pub type_code : MessageType → ℕ
type_code discovery_broadcast = 0x01
type_code discovery_reply = 0x02
type_code transfer_offer = 0x10
type_code transfer_accept = 0x11
type_code transfer_reject = 0x12
type_code transfer_done = 0x13
type_code transfer_ack = 0x14
type_code data_chunk = 0x20
type_code keepalive = 0x30
type_code error_msg = 0x40
type_code (unnamed b) = b

-- static_cast<MessageType>(b)
unfoldable pub type_of : ℕ → MessageType
type_of b =
    if b == 0x01
    then discovery_broadcast
    else if b == 0x02
    then discovery_reply
    else if b == 0x10
    then transfer_offer
    else if b == 0x11
    then transfer_accept
    else if b == 0x12
    then transfer_reject
    else if b == 0x13
    then transfer_done
    else if b == 0x14
    then transfer_ack
    else if b == 0x20
    then data_chunk
    else if b == 0x30
    then keepalive
    else if b == 0x40
    then error_msg
    else unnamed b

-- static_cast<uint8_t>(reason)
unfoldable pub reason_code : RejectReason → ℕ
reason_code user_declined = 0x01
reason_code disk_full = 0x02
reason_code invalid_filename = 0x03
reason_code unknown = 0xFF
reason_code (unnamed b) = b

-- static_cast<RejectReason>(b)
unfoldable pub reason_of : ℕ → RejectReason
reason_of b =
    if b == 0x01
    then user_declined
    else if b == 0x02
    then disk_full
    else if b == 0x03
    then invalid_filename
    else if b == 0xFF
    then unknown
    else unnamed b

-- static_cast<uint8_t>(code)
unfoldable pub error_code : ErrorCode → ℕ
error_code checksum_mismatch = 0x01
error_code timeout = 0x02
error_code protocol_violation = 0x03
error_code unknown = 0xFF
error_code (unnamed b) = b

-- static_cast<ErrorCode>(b)
unfoldable pub error_of : ℕ → ErrorCode
error_of b =
    if b == 0x01
    then checksum_mismatch
    else if b == 0x02
    then timeout
    else if b == 0x03
    then protocol_violation
    else if b == 0xFF
    then unknown
    else unnamed b

pub type_code-type_of : (b : ℕ) → type_code (type_of b) ≡ b
unfolding type_code type_of
type_code-type_of b = ground arith

pub reason_code-reason_of : (b : ℕ) → reason_code (reason_of b) ≡ b
unfolding reason_code reason_of
reason_code-reason_of b = ground arith

pub error_code-error_of : (b : ℕ) → error_code (error_of b) ≡ b
unfolding error_code error_of
error_code-error_of b = ground arith

pub record BaseHeader : Type 0 where
  pub magic : ℕ
  pub version : ℕ
  pub msg_type : MessageType
  pub session_id : ℕ
  pub payload_len : ℕ
  pub header_crc : ℕ

pub record OfferPayload : Type 0 where
  pub file_size : ℕ
  pub resume_offset : ℕ
  pub sha256 : List ℕ
  pub file_name : List ℕ
  pub device_name : List ℕ

pub record RejectPayload : Type 0 where
  pub reason : RejectReason

pub record DonePayload : Type 0 where
  pub sha256 : List ℕ

pub record AckPayload : Type 0 where
  pub checksum_ok : Bool

pub record ErrorPayload : Type 0 where
  pub code : ErrorCode
  pub message : List ℕ

pub record DiscoveryPayload : Type 0 where
  pub device_name : List ℕ
  pub tcp_port : ℕ

abbrev pub IsByte : ℕ → Type 0
IsByte b = b < 256

-- The header's fields fit their widths, and `unnamed` is not used for a byte that has a name.
pub record IsWire (h : BaseHeader) : Type 0 where
  pub type_named : type_of (type_code h.msg_type) ≡ h.msg_type
  pub session_fits : h.session_id < 2 ^ 64
  pub payload_len_fits : h.payload_len < 2 ^ 32

-- The offer's fields fit their widths; both names have a length that fits 16 bits.
pub record IsWireOffer (p : OfferPayload) : Type 0 where
  pub file_size_fits : p.file_size < 2 ^ 64
  pub resume_offset_fits : p.resume_offset < 2 ^ 64
  pub sha256_length : length p.sha256 ≡ 32
  pub file_name_fits : length p.file_name < 2 ^ 16
  pub device_name_fits : length p.device_name < 2 ^ 16
