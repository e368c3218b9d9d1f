-- ===== src/Protocol/Reader.antt =====
-- How the functions of src/core/protocol.cpp write and read bytes. A `const uint8_t *data` is the
-- list of the bytes in memory from there on: reading past its end is a `fault`, which C++ leaves
-- undefined. `refused` is a `return false`, with `out` not written.
pub mod Laws
pub mod Safety
use net_transfer.Base.{ℕ, zero, suc, ◌+◌, ◌*◌, ◌/◌, ◌%◌, ◌^◌, bit_and, bit_or, Bool, true, false}
use net_transfer.Base.{List, [], ◌∷◌, ◌++◌}

pub data Outcome {ℓ} (A : Type ℓ) : Type ℓ where
  ok : A → Outcome A
  refused fault : Outcome A

-- `counter`, and the memory from `data + counter` on.
pub record Cursor : Type 0 where
  pub counter : ℕ
  pub rest : List ℕ

abbrev pub Reader : Type 0 → Type 0
Reader A = Cursor → Outcome (A × Cursor)

infixl 5 ◌>>=◌ ◌>>◌
abbrev pub ◌>>=◌ : {A B : Type 0} → Reader A → (A → Reader B) → Reader B
◌>>=◌ m f c = elim (m c) [ ok (a, c') ↦ f a c' | refused ↦ refused | fault ↦ fault ]

abbrev pub ◌>>◌ : {B : Type 0} → Reader (Unit {0}) → Reader B → Reader B
m >> k = m >>= λ _. k

abbrev pub pure : {A : Type 0} → A → Reader A
pure a c = ok (a, c)

-- `if (!b) return false;`
abbrev pub require : Bool → Reader (Unit {0})
require true c = ok (tt, c)
require false c = refused

abbrev pub position : Reader ℕ
position c = ok (c.counter, c)

-- The result of a whole function, which drops the cursor.
abbrev pub result : {A : Type 0} → Outcome (A × Cursor) → Outcome A
result (ok (a, c)) = ok a
result refused = refused
result fault = fault

-- data[counter++]
abbrev pub next_of : ℕ → List ℕ → Outcome (ℕ × Cursor)
next_of counter [] = fault
next_of counter (b ∷ bs) = ok (b, record { counter = counter + 1; rest = bs })

abbrev pub next : Reader ℕ
next c = next_of c.counter c.rest

-- The loops that read an unsigned number of `w` bits, highest byte first, with `k` rounds left:
-- `temp = data[counter++]; temp <<= 8 * (k - 1); acc = acc | temp`.
unfoldable pub read_be : ℕ → ℕ → ℕ → Reader ℕ
read_be w zero acc = pure acc
read_be w (suc k) acc = do b ← next; read_be w k (bit_or acc (b * 2 ^ (8 * k) % 2 ^ w))

-- The loops that append `k` bytes to a string or an array.
unfoldable pub read_bytes : ℕ → List ℕ → Reader (List ℕ)
read_bytes zero out = pure out
read_bytes (suc k) out = do b ← next; read_bytes k (out ++ b ∷ [])

-- `buffer.push_back((v >> (8 * (k - 1))) & 0xFF)` with `k` rounds left.
unfoldable pub write_be : ℕ → ℕ → List ℕ
write_be zero v = []
write_be (suc k) v = bit_and (v / 2 ^ (8 * k)) 0xFF ∷ write_be k v
