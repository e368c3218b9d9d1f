-- ===== src/Protocol/Header/Accepts.antt =====
-- What deserializeHeader accepts, refuses, and reads.
use net_transfer.Base.{
  ℕ, ◌+◌, ◌≤◌, ◌≡◌, ◌≢◌, refl, ap, sym, ◌∙◌, arith, List, [], ◌∷◌, ◌++◌, append_assoc, length,
  length-append, All, All-split, split_at,
}
use net_transfer.Protocol.{BaseHeader, IsByte, type_of, nt_magic, nt_version, type_code-type_of}
use net_transfer.Protocol.Crc.{crc32}
use net_transfer.Protocol.Crc.Bounds.{crc32-append}
use net_transfer.Protocol.Reader.{◌>>=◌, ok, result, fault, Cursor, write_be}
use net_transfer.Protocol.Reader.Laws.{read_be-bytes}
use net_transfer.Protocol.Header.{
  header_front, read_header, check_header, serialize_header, deserialize_header,
}
use net_transfer.Protocol.Header.RoundTrip.{length-header_front}

-- The bytes of a header in memory, field by field.
record Fields (bytes : List ℕ) : Type 0 where
  magic : List ℕ
  version : ℕ
  msg_type : ℕ
  session : List ℕ
  payload_len : List ℕ
  crc : List ℕ
  rest : List ℕ
  whole : bytes ≡ magic ++ (version ∷ msg_type ∷ (session ++ (payload_len ++ (crc ++ rest))))
  magic_length : length magic ≡ 4
  session_length : length session ≡ 8
  payload_len_length : length payload_len ≡ 4
  crc_length : length crc ≡ 4

join_fields :
    {bytes b1 b2 b3 b4 two : List ℕ} (magic session payload_len crc rest : List ℕ)
    {version msg_type : ℕ}
    → bytes ≡ magic ++ b1
    → b1 ≡ two ++ b2
    → two ≡ version ∷ msg_type ∷ []
    → b2 ≡ session ++ b3
    → b3 ≡ payload_len ++ b4
    → b4 ≡ crc ++ rest
    → bytes ≡ magic ++ (version ∷ msg_type ∷ (session ++ (payload_len ++ (crc ++ rest))))
join_fields magic session payload_len crc rest e1 e2 e3 e4 e5 e6 = rw (e1, e2, e3, e4, e5, e6) refl

split-Fields : (bytes : List ℕ) → 22 ≤ length bytes → Fields bytes
split-Fields bytes h =
    let (magic, b1, e1, n1) = split_at 4 bytes (omega arith) in
    let l1 : length bytes ≡ length magic + length b1 = ap length e1 ∙ length-append magic b1 in
    let (two, b2, e2, n2) = split_at 2 b1 (omega arith) in
    let l2 : length b1 ≡ length two + length b2 = ap length e2 ∙ length-append two b2 in
    let (session, b3, e3, n3) = split_at 8 b2 (omega arith) in
    let l3 : length b2 ≡ length session + length b3 = ap length e3 ∙ length-append session b3 in
    let (payload_len, b4, e4, n4) = split_at 4 b3 (omega arith) in
    let l4 : length b3 ≡ length payload_len + length b4 =
      ap length e4 ∙ length-append payload_len b4 in
    let (crc, rest, e5, n5) = split_at 4 b4 (omega arith) in
    let (version, msg_type, e6) = two_items two n2 in
    record {
      magic = magic;
      version = version;
      msg_type = msg_type;
      session = session;
      payload_len = payload_len;
      crc = crc;
      rest = rest;
      whole = join_fields magic session payload_len crc rest e1 e2 e6 e3 e4 e5;
      magic_length = n1;
      session_length = n3;
      payload_len_length = n4;
      crc_length = n5;
    }
  where
    two_items : (xs : List ℕ) → length xs ≡ 2 → (a b : ℕ) × (xs ≡ a ∷ b ∷ [])
    two_items [] e = absurd (omega arith)
    two_items (a ∷ []) e = absurd (omega arith)
    two_items (a ∷ b ∷ []) e = (a, b, refl)
    two_items (a ∷ b ∷ c ∷ xs) e = absurd (omega arith)

-- What is read is the header whose bytes these are.
read_fields :
    (bytes : List ℕ)
    → 22 ≤ length bytes
    → All IsByte bytes
    → (h : BaseHeader) × (rest : List ℕ) × (read_header (record { counter = 0; rest = bytes })
        ≡ ok (h, record { counter = 22; rest = rest }))
      × (bytes ≡ header_front h ++ (write_be 4 h.header_crc ++ rest))
unfolding read_header header_front
read_fields bytes enough all =
    let f = split-Fields bytes enough in
    let tail4 : List ℕ = f.crc ++ f.rest in
    let tail3 : List ℕ = f.payload_len ++ tail4 in
    let tail2 : List ℕ = f.session ++ tail3 in
    let (a1, a2) = All-split IsByte f.magic (f.version ∷ f.msg_type ∷ tail2) (rw f.whole at all) in
    let (a3, a4) = All-split IsByte f.session tail3 a2.1.1 in
    let (a5, a6) = All-split IsByte f.payload_len tail4 a4 in
    let (a7, a8) = All-split IsByte f.crc f.rest a6 in
    let (magic, rm, wm, bm) =
      read_be-bytes 4 0 f.magic (f.version ∷ f.msg_type ∷ tail2) f.magic_length a1 in
    let (session, rs, ws, bs) = read_be-bytes 8 6 f.session tail3 f.session_length a3 in
    let (len, rl, wl, bl) = read_be-bytes 4 14 f.payload_len tail4 f.payload_len_length a5 in
    let (crc, rc, wc, bc) = read_be-bytes 4 18 f.crc f.rest f.crc_length a7 in
    (
      record {
        magic = magic;
        version = f.version;
        msg_type = type_of f.msg_type;
        session_id = session;
        payload_len = len;
        header_crc = crc;
      },
      f.rest,
      rw (f.whole, rm, rs, rl, rc, ◌>>=◌) refl,
      rw (wm, ws, wl, wc, type_code-type_of f.msg_type) (f.whole ∙ simp append_assoc),
    )

-- On 22 bytes of memory or more, all of them below 256, `deserialize_header` does not read out of bounds.
pub deserialize_header-ne-fault :
    (bytes : List ℕ) → 22 ≤ length bytes → All IsByte bytes → deserialize_header bytes ≢ fault
unfolding deserialize_header check_header
deserialize_header-ne-fault bytes enough all =
    let (h, rest, e, w) = read_fields bytes enough all in rw (e, ◌>>=◌) (λ p. ground arith)

check_lem :
    (bytes : List ℕ) (g : BaseHeader) (c : Cursor) (h : BaseHeader)
    → result (check_header bytes g c) ≡ ok h
    → (g ≡ h) × (g.magic ≡ nt_magic) × (g.version ≡ nt_version) × (g.header_crc ≡ crc32 bytes 18)
unfolding check_header
check_lem bytes g c h e = ground arith

-- On 22 bytes or more, all of them below 256, a header is accepted only if they begin with the very bytes that `serialize_header` writes
-- for it, and its magic and version are right.
pub deserialize_header_sound :
    (bytes : List ℕ) (h : BaseHeader)
    → 22 ≤ length bytes
    → All IsByte bytes
    → deserialize_header bytes ≡ ok h
    → (rest : List ℕ) × (bytes ≡ serialize_header h ++ rest)
      × (h.magic ≡ nt_magic)
      × (h.version ≡ nt_version)
unfolding deserialize_header check_header serialize_header
deserialize_header_sound bytes h enough all ok_h =
    let (g, rest, e, w) = read_fields bytes enough all in
    let crc : crc32 bytes 18 ≡ crc32 (header_front g) 18 =
      rw w (crc32-append (header_front g) _ 18 (omega (arith, length-header_front g))) in
    let (same, m, v, c) = check_lem bytes g _ h (rw (e, ◌>>=◌) at ok_h) in
    (
      rest,
      w ∙ (rw (c, crc, same) (sym (append_assoc (header_front h) _ rest))),
      rw (← same) m,
      rw (← same) v,
    )
