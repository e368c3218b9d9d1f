-- ===== src/Protocol/Header.antt =====
-- serializeHeader, deserializeHeader and buildHeader of src/core/protocol.cpp.
pub mod RoundTrip
pub mod Accepts
use net_transfer.Base.{ℕ, List, [], ◌∷◌, ◌++◌, ◌==◌}
use net_transfer.Protocol.{BaseHeader, MessageType, type_code, type_of, nt_magic, nt_version}
use net_transfer.Protocol.Crc.{crc32}
use net_transfer.Protocol.Reader.{
  Outcome, Reader, ◌>>=◌, ◌>>◌, pure, require, result, next, read_be, write_be,
}

-- The 18 bytes before the checksum.
unfoldable pub header_front : BaseHeader → List ℕ
header_front h =
    write_be 4 h.magic
    ++ (h.version ∷ type_code h.msg_type ∷ (write_be 8 h.session_id ++ write_be 4 h.payload_len))

-- The field `header_crc` is not read: the checksum is computed.
unfoldable pub serialize_header : BaseHeader → List ℕ
serialize_header h =
    let buffer = header_front h in let crc = crc32 buffer 18 in buffer ++ write_be 4 crc

-- The part of `deserializeHeader` that extracts the fields.
unfoldable pub read_header : Reader BaseHeader
read_header = do
  magic ← read_be 32 4 0
  version ← next
  msg_type ← next
  session_id ← read_be 64 8 0
  payload_len ← read_be 32 4 0
  header_crc ← read_be 32 4 0
  pure (record {
    magic = magic;
    version = version;
    msg_type = type_of msg_type;
    session_id = session_id;
    payload_len = payload_len;
    header_crc = header_crc;
  })

-- The part of `deserializeHeader` that checks the input.
unfoldable pub check_header : List ℕ → BaseHeader → Reader BaseHeader
check_header bytes h = do
  require (h.magic == nt_magic)
  require (h.version == nt_version)
  require (h.header_crc == crc32 bytes 18)
  pure h

unfoldable pub deserialize_header : List ℕ → Outcome BaseHeader
deserialize_header bytes =
    result ((do h ← read_header; check_header bytes h) (record { counter = 0; rest = bytes }))

unfoldable pub build_header : MessageType → ℕ → ℕ → BaseHeader
build_header msg_type session_id payload_len = record {
  magic = nt_magic;
  version = nt_version;
  msg_type = msg_type;
  session_id = session_id;
  payload_len = payload_len;
  header_crc = 0;
}
