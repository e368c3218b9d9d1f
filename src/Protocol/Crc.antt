-- ===== src/Protocol/Crc.antt =====
-- crc32 of src/core/protocol.cpp. `crc_table_ready` is never set, so that each call fills the table
-- anew: here the table is a value.
pub mod Bounds
pub mod Reference
pub mod Detects
use net_transfer.Base.{ℕ, zero, suc, ◌+◌, ◌/◌, ◌^◌, bit_and, bit_xor, ◌≡◌, refl, List, [], ◌∷◌}
use net_transfer.Base.{◌==◌, if◌then◌else◌, get_or}

abbrev pub polynomial : ℕ
polynomial = 0xEDB88320

-- One round of the inner loop that fills the table.
unfoldable pub crc_round : ℕ → ℕ
crc_round stored =
    if bit_and stored 1 == 1 then bit_xor (stored / 2 ^ 1) polynomial else stored / 2 ^ 1

unfoldable pub crc_rounds : ℕ → ℕ → ℕ
crc_rounds zero stored = stored
crc_rounds (suc j) stored = crc_rounds j (crc_round stored)

-- The table's entries from index `i` on, `n` of them.
unfoldable pub fill_table : ℕ → ℕ → List ℕ
fill_table zero i = []
fill_table (suc n) i = crc_rounds 8 i ∷ fill_table n (i + 1)

unfoldable pub crc_table : List ℕ
crc_table = fill_table 256 0

-- The body of the loop over the data. An index is a byte, so it is never out of the table.
unfoldable pub crc_step : ℕ → ℕ → ℕ
crc_step crc byte =
    let index = bit_and (bit_xor crc byte) 0xFF in bit_xor (crc / 2 ^ 8) (get_or crc_table index 0)

-- `len` rounds. Both callers have `len` bytes of data; at the end of shorter data the loop stops.
unfoldable pub crc_loop : ℕ → ℕ → List ℕ → ℕ
crc_loop zero crc bytes = crc
crc_loop (suc len) crc [] = crc
crc_loop (suc len) crc (b ∷ bytes) = crc_loop len (crc_step crc b) bytes

unfoldable pub crc32 : List ℕ → ℕ → ℕ
crc32 bytes len = bit_xor (crc_loop len 0xFFFFFFFF bytes) 0xFFFFFFFF

-- The check value of CRC-32 (ISO-HDLC): the digits 1 to 9 in ASCII.
crc32_check :
    crc32 (0x31 ∷ 0x32 ∷ 0x33 ∷ 0x34 ∷ 0x35 ∷ 0x36 ∷ 0x37 ∷ 0x38 ∷ 0x39 ∷ []) 9 ≡ 0xCBF43926
unfolding crc32 crc_loop crc_step crc_table fill_table crc_rounds crc_round
crc32_check = refl
