-- ===== src/Protocol/Payload/InBounds.antt =====
-- The payload functions that check their length, and the end of their memory.
use net_transfer.Base.{ℕ, ◌+◌, ◌≤◌, ◌≢◌, arith, List, [], length, leb, leb→le, ◌==◌}
use net_transfer.Protocol.Reader.{fault, ◌>>=◌, ◌>>◌, pure, require, next, read_be, read_bytes}
use net_transfer.Protocol.Reader.Safety.{
  Safe, Takes-next, Takes-read_be, Takes-read_bytes, Safe-take, Safe-require, Safe-pure,
  Safe-result,
}
use net_transfer.Protocol.Payload.{
  read_reject, read_done, read_ack, read_error, read_discovery, deserialize_reject,
  deserialize_done, deserialize_ack, deserialize_error, deserialize_discovery,
}

-- Reading a counted string after a check that it lies within `len`.
Safe-checked :
    {A : Type 0} (size n k len : ℕ) (f : List ℕ → A)
    → len ≤ size
    → Safe size n (do require (leb (n + k) len); xs ← read_bytes k []; pure (f xs))
Safe-checked size n k len f inside = Safe-require size n (leb (n + k) len) _ λ e.
    Safe-take size n k (read_bytes k []) _ (Takes-read_bytes k)
      (omega (arith, leb→le (n + k) len e)) λ xs. Safe-pure size (n + k) (f xs)

module _ (size len : ℕ) (inside : len ≤ size) where
  Safe-read_reject : Safe size 0 (read_reject len)
  unfolding read_reject
  Safe-read_reject = Safe-require size 0 (leb 1 len) _ λ e.
      Safe-take size 0 1 next _ Takes-next (omega (arith, leb→le 1 len e)) λ b. Safe-pure size 1 _

  Safe-read_done : Safe size 0 (read_done len)
  unfolding read_done
  Safe-read_done = Safe-require size 0 (len == 32) _ λ e.
      Safe-take size 0 32 (read_bytes 32 []) _ (Takes-read_bytes 32) (ground arith)
        λ b. Safe-pure size 32 _

  Safe-read_ack : Safe size 0 (read_ack len)
  unfolding read_ack
  Safe-read_ack = Safe-require size 0 (leb 1 len) _ λ e.
      Safe-take size 0 1 next _ Takes-next (omega (arith, leb→le 1 len e)) λ b. Safe-pure size 1 _

  Safe-read_error : Safe size 0 (read_error len)
  unfolding read_error
  Safe-read_error = Safe-require size 0 (leb 3 len) _ λ e.
      let enough : 3 ≤ len = leb→le 3 len e in
      Safe-take size 0 1 next _ Takes-next (omega arith) λ code.
        Safe-take size 1 2 (read_be 16 2 0) _ (Takes-read_be 16 2 0) (omega arith)
          λ n. record { run = (Safe-checked size 3 n len _ inside).run }

  Safe-read_discovery : Safe size 0 (read_discovery len)
  unfolding read_discovery
  Safe-read_discovery = Safe-require size 0 (leb 4 len) _ λ e.
      let enough : 4 ≤ len = leb→le 4 len e in
      Safe-take size 0 2 (read_be 16 2 0) _ (Takes-read_be 16 2 0) (omega arith) λ port.
        Safe-take size 2 2 (read_be 16 2 0) _ (Takes-read_be 16 2 0) (omega arith)
          λ n. record { run = (Safe-checked size 4 n len _ inside).run }

-- With as much memory as the length says, no payload function but that of the offer reads past its
-- end.
pub payloads_in_bounds :
    (bytes : List ℕ) (len : ℕ)
    → len ≤ length bytes
    → (deserialize_reject bytes len ≢ fault)
      × (deserialize_done bytes len ≢ fault)
      × (deserialize_ack bytes len ≢ fault)
      × (deserialize_error bytes len ≢ fault)
      × (deserialize_discovery bytes len ≢ fault)
unfolding deserialize_reject deserialize_done deserialize_ack deserialize_error
    deserialize_discovery
payloads_in_bounds bytes len inside =
    let size : ℕ = length bytes in
    (
      Safe-result (read_reject len) bytes (Safe-read_reject size len inside),
      Safe-result (read_done len) bytes (Safe-read_done size len inside),
      Safe-result (read_ack len) bytes (Safe-read_ack size len inside),
      Safe-result (read_error len) bytes (Safe-read_error size len inside),
      Safe-result (read_discovery len) bytes (Safe-read_discovery size len inside),
    )
