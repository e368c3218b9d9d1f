-- ===== src/Protocol/Header/RoundTrip.antt =====
-- Headers, written by serializeHeader and given to deserializeHeader.
use net_transfer.Base.{
  ℕ, ◌≡◌, refl, arith, List, ◌∷◌, ◌++◌, append_assoc, length, length-append, drop, drop-append,
  ==_refl, ◌==◌, true,
}
use net_transfer.Protocol.{BaseHeader, header_size, IsWire, type_code, nt_magic, nt_version}
use net_transfer.Protocol.Crc.{crc32}
use net_transfer.Protocol.Crc.Bounds.{crc32-append, crc32-lt}
use net_transfer.Protocol.Reader.{◌>>=◌, ok, write_be}
use net_transfer.Protocol.Reader.Laws.{read_be-write_be, length-write_be}
use net_transfer.Protocol.Header.{
  header_front, read_header, check_header, serialize_header, deserialize_header,
}

pub length-header_front : (h : BaseHeader) → length (header_front h) ≡ 18
unfolding header_front
length-header_front h =
    rw
      (
        length-append (write_be 4 h.magic) (
            h.version
            ∷ type_code h.msg_type
            ∷ (write_be 8 h.session_id ++ write_be 4 h.payload_len)),
        length-append (write_be 8 h.session_id) (write_be 4 h.payload_len),
        length-write_be 4 h.magic,
        length-write_be 8 h.session_id,
        length-write_be 4 h.payload_len,
      )
      refl

pub length-serialize_header : (h : BaseHeader) → length (serialize_header h) ≡ 22
unfolding serialize_header
length-serialize_header h =
    let buffer = header_front h in
    omega (
      arith,
      length-append buffer (write_be 4 (crc32 buffer 18)),
      length-header_front h,
      length-write_be 4 (crc32 buffer 18),
    )

-- What stands behind a header is its payload.
pub drop-serialize_header :
    (h : BaseHeader) (rest : List ℕ) → drop header_size (serialize_header h ++ rest) ≡ rest
drop-serialize_header h rest =
    let e : length (serialize_header h) ≡ header_size = length-serialize_header h in
    rw (← e) (drop-append (serialize_header h) rest)

crc32-serialize_header :
    (h : BaseHeader) (rest : List ℕ)
    → crc32 (serialize_header h ++ rest) 18 ≡ crc32 (header_front h) 18
unfolding serialize_header
crc32-serialize_header h rest =
    rw (append_assoc (header_front h) (write_be 4 (crc32 (header_front h) 18)) rest)
      (crc32-append (header_front h) _ 18 (omega (arith, length-header_front h)))

-- The bytes of a message, bracketed to the right as the reader meets them.
header_bytes :
    (h : BaseHeader) (rest : List ℕ)
    → serialize_header h ++ rest
      ≡ write_be 4 h.magic
        ++ (h.version
            ∷ type_code h.msg_type
            ∷ (write_be 8 h.session_id
                ++ (write_be 4 h.payload_len ++ (write_be 4 (crc32 (header_front h) 18) ++ rest))))
unfolding serialize_header header_front
header_bytes h rest = simp append_assoc

read_header-serialize_header :
    (h : BaseHeader) (rest : List ℕ)
    → h.magic ≡ nt_magic
    → IsWire h
    → read_header (record { counter = 0; rest = serialize_header h ++ rest })
      ≡ ok (
        record h { header_crc = crc32 (header_front h) 18 },
        record { counter = 22; rest = rest },
      )
unfolding read_header
read_header-serialize_header h rest em wire =
    let crc : ℕ = crc32 (header_front h) 18 in
    rw (
      header_bytes h rest,
      read_be-write_be 4 h.magic 0 _ (rw em (omega arith)),
      read_be-write_be 8 h.session_id 6 _ wire.session_fits,
      read_be-write_be 4 h.payload_len 14 _ wire.payload_len_fits,
      read_be-write_be 4 crc 18 rest (crc32-lt (header_front h) 18),
      wire.type_named,
      ◌>>=◌,
    )

-- A header with the right magic and version that fits its widths is read back from the bytes that
-- `serialize_header` wrote, whatever follows them; `header_crc` is then the computed checksum.
pub deserialize_header-serialize_header :
    (h : BaseHeader) (rest : List ℕ)
    → h.magic ≡ nt_magic
    → h.version ≡ nt_version
    → IsWire h
    → deserialize_header (serialize_header h ++ rest)
      ≡ ok (record h { header_crc = crc32 (header_front h) 18 })
unfolding deserialize_header check_header
deserialize_header-serialize_header h rest em ev wire =
    let crc : ℕ = crc32 (header_front h) 18 in
    let front : crc32 (serialize_header h ++ rest) 18 ≡ crc = crc32-serialize_header h rest in
    let m : (h.magic == nt_magic) ≡ true = ground arith in
    let v : (h.version == nt_version) ≡ true = ground arith in
    rw (read_header-serialize_header h rest em wire, m, v, front, ==_refl crc, ◌>>=◌)
