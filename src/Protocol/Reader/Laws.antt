-- ===== src/Protocol/Reader/Laws.antt =====
-- Reading back what was written, reading within bounds, and writing back what was read.
use net_transfer.Base.{
  ℕ, zero, suc, ◌+◌, ◌*◌, ◌/◌, ◌%◌, ◌^◌, ◌≤◌, ◌<◌, ◌≡◌, refl, ap, ◌∙◌, bit_and, bit_or, arith, List,
  [], ◌∷◌, ◌++◌, append-nil, append_assoc, length, take, drop, All,
}
use net_transfer.Base.Bits.{bit_or_join, bit_and_byte, two-pow-byte}
use net_transfer.Protocol.Reader.{ok, fault, read_be, read_bytes, write_be}
use native.Mathlib.Nat.{
  pow-le-pow_right, mod-eq_of_lt, mod-lt, div-add-mod, mul-add-mod_self_left, one-le-pow, le_trans,
  zero-mul, zero-add, mul-add-div_right, div-eq_of_lt,
}

pub length-write_be : (k v : ℕ) → length (write_be k v) ≡ k
unfolding write_be
length-write_be zero v = refl
length-write_be (suc k) v = ap suc (length-write_be k v)

-- The low bytes of a number: the lowest `k`, and the one above them.
low_split : (p v : ℕ) → 0 < p → v % (256 * p) ≡ v / p % 256 * p + v % p
low_split p v hp =
    let low : v % p < p = mod-lt v hp in
    let top : v / p % 256 * p + v % p < 256 * p = grind arith in
    let whole : v ≡ 256 * p * (v / p / 256) + (v / p % 256 * p + v % p) =
      omega (arith, div-add-mod v p, ap (λ (t : ℕ). p * t) (div-add-mod (v / p) 256)) in
    ap (λ (t : ℕ). t % (256 * p)) whole
    ∙ mul-add-mod_self_left (256 * p) (v / p / 256) (v / p % 256 * p + v % p)
    ∙ mod-eq_of_lt top

join-lt : (p b v : ℕ) → b < 256 → v < p → b * p + v < 256 * p
join-lt p b v hb hv = grind arith

pos_pow : (k : ℕ) → 0 < 2 ^ k
pos_pow k = one-le-pow k 2 (omega arith)

-- One round of reading, on an accumulator whose low bytes are still free.
read_round :
    (w k q b : ℕ)
    → b < 256
    → 8 * suc k ≤ w
    → bit_or (q * 2 ^ (8 * suc k)) (b * 2 ^ (8 * k) % 2 ^ w) ≡ (q * 256 + b) * 2 ^ (8 * k)
read_round w k q b hb hw =
    let e : 2 ^ (8 * suc k) ≡ 256 * 2 ^ (8 * k) = two-pow-byte k in
    let pos : 0 < 2 ^ (8 * k) = pos_pow (8 * k) in
    let small : b * 2 ^ (8 * k) < 2 ^ (8 * suc k) = rw e (grind arith) in
    let fits : 2 ^ (8 * suc k) ≤ 2 ^ w = pow-le-pow_right (omega arith) hw in
    let plain : b * 2 ^ (8 * k) % 2 ^ w ≡ b * 2 ^ (8 * k) = mod-eq_of_lt (le_trans small fits) in
    rw (plain, bit_or_join (8 * suc k) q (b * 2 ^ (8 * k)) small)
      (omega (arith, ap (λ (t : ℕ). q * t) e))

read_be_acc :
    (w k q v counter : ℕ) (rest : List ℕ)
    → 8 * k ≤ w
    → read_be w k (q * 2 ^ (8 * k)) (record { counter = counter; rest = write_be k v ++ rest })
      ≡ ok (q * 2 ^ (8 * k) + v % 2 ^ (8 * k), record { counter = counter + k; rest = rest })
unfolding read_be write_be
read_be_acc w zero q v counter rest hw = ground arith
read_be_acc w (suc k) q v counter rest hw =
    let b : ℕ = v / 2 ^ (8 * k) % 256 in
    let e : 2 ^ (8 * suc k) ≡ 256 * 2 ^ (8 * k) = two-pow-byte k in
    let ih = read_be_acc w k (q * 256 + b) v (counter + 1) rest (omega arith) in
    let split : v % (256 * 2 ^ (8 * k)) ≡ b * 2 ^ (8 * k) + v % 2 ^ (8 * k) =
      low_split (2 ^ (8 * k)) v (pos_pow (8 * k)) in
    rw (bit_and_byte (v / 2 ^ (8 * k)), read_round w k q b (omega arith) hw, ih, e)
      (ground (arith, split))

-- What was written wraps to the width that is read.
pub read_be-write_be_wrap :
    (k v counter : ℕ) (rest : List ℕ)
    → read_be (8 * k) k 0 (record { counter = counter; rest = write_be k v ++ rest })
      ≡ ok (v % 2 ^ (8 * k), record { counter = counter + k; rest = rest })
read_be-write_be_wrap k v counter rest =
    simp (zero-mul, zero-add) at (read_be_acc (8 * k) k 0 v counter rest (omega arith))

-- Reading gives back what was written into `k` bytes, and stops behind it.
pub read_be-write_be :
    (k v counter : ℕ) (rest : List ℕ)
    → v < 2 ^ (8 * k)
    → read_be (8 * k) k 0 (record { counter = counter; rest = write_be k v ++ rest })
      ≡ ok (v, record { counter = counter + k; rest = rest })
read_be-write_be k v counter rest h =
    read_be-write_be_wrap k v counter rest ∙ rw (mod-eq_of_lt h) refl

read_bytes_acc :
    (xs out : List ℕ) (counter : ℕ) (rest : List ℕ)
    → read_bytes (length xs) out (record { counter = counter; rest = xs ++ rest })
      ≡ ok (out ++ xs, record { counter = counter + length xs; rest = rest })
unfolding read_bytes
read_bytes_acc [] out counter rest = rw (append-nil out) (ground arith)
read_bytes_acc (x ∷ xs) out counter rest =
    read_bytes_acc xs (out ++ x ∷ []) (counter + 1) rest
    ∙ rw (append_assoc out (x ∷ []) xs) (ground arith)

pub read_bytes-append :
    (n : ℕ) (xs : List ℕ) (counter : ℕ) (rest : List ℕ)
    → length xs ≡ n
    → read_bytes n [] (record { counter = counter; rest = xs ++ rest })
      ≡ ok (xs, record { counter = counter + n; rest = rest })
read_bytes-append n xs counter rest e = rw (← e) (read_bytes_acc xs [] counter rest)

-- Within the memory there is, reading a number does not fail.
pub read_be-total :
    (w k acc counter : ℕ) (bs : List ℕ)
    → k ≤ length bs
    → (v : ℕ) × (read_be w k acc (record { counter = counter; rest = bs })
        ≡ ok (v, record { counter = counter + k; rest = drop k bs }))
unfolding read_be
read_be-total w zero acc counter bs h = (acc, ground arith)
read_be-total w (suc k) acc counter [] h = absurd (omega arith)
read_be-total w (suc k) acc counter (b ∷ bs) h =
    let (v, e) =
      read_be-total w k (bit_or acc (b * 2 ^ (8 * k) % 2 ^ w)) (counter + 1) bs (omega arith) in
    (v, e ∙ ground arith)

-- Within the memory there is, copying bytes does not fail, and copies them in order.
read_bytes_acc-total :
    (k : ℕ) (out : List ℕ) (counter : ℕ) (bs : List ℕ)
    → k ≤ length bs
    → read_bytes k out (record { counter = counter; rest = bs })
      ≡ ok (out ++ take k bs, record { counter = counter + k; rest = drop k bs })
unfolding read_bytes
read_bytes_acc-total zero out counter bs h = rw (append-nil out) (ground arith)
read_bytes_acc-total (suc k) out counter [] h = absurd (omega arith)
read_bytes_acc-total (suc k) out counter (b ∷ bs) h =
    read_bytes_acc-total k (out ++ b ∷ []) (counter + 1) bs (omega arith)
    ∙ rw (append_assoc out (b ∷ []) (take k bs)) (ground arith)

pub read_bytes-total :
    (k counter : ℕ) (bs : List ℕ)
    → k ≤ length bs
    → read_bytes k [] (record { counter = counter; rest = bs })
      ≡ ok (take k bs, record { counter = counter + k; rest = drop k bs })
read_bytes-total k counter bs h = read_bytes_acc-total k [] counter bs h

write_be-mod : (k t v : ℕ) → write_be k (t * 2 ^ (8 * k) + v) ≡ write_be k v
unfolding write_be
write_be-mod zero t v = refl
write_be-mod (suc k) t v =
    let e : 2 ^ (8 * suc k) ≡ 256 * 2 ^ (8 * k) = two-pow-byte k in
    let shape : t * 2 ^ (8 * suc k) + v ≡ (t * 256) * 2 ^ (8 * k) + v =
      omega (arith, ap (λ (s : ℕ). t * s) e) in
    let top : ((t * 256) * 2 ^ (8 * k) + v) / 2 ^ (8 * k) ≡ t * 256 + v / 2 ^ (8 * k) =
      mul-add-div_right (pos_pow (8 * k)) (t * 256) v in
    rw
      (
        shape,
        write_be-mod k (t * 256) v,
        top,
        bit_and_byte (t * 256 + v / 2 ^ (8 * k)),
        bit_and_byte (v / 2 ^ (8 * k)),
      )
      (ap (λ (s : ℕ). s ∷ write_be k v) (omega arith))

-- Reading the bytes `xs` gives the number whose bytes they are.
read_be_acc-bytes :
    (w q counter : ℕ) (xs rest : List ℕ)
    → 8 * length xs ≤ w
    → All (λ b. b < 256) xs
    → (v : ℕ) × (read_be w
          (length xs)
          (q * 2 ^ (8 * length xs))
          (record { counter = counter; rest = xs ++ rest })
        ≡ ok (q * 2 ^ (8 * length xs) + v, record { counter = counter + length xs; rest = rest }))
      × (write_be (length xs) v ≡ xs)
      × (v < 2 ^ (8 * length xs))
unfolding read_be write_be
read_be_acc-bytes w q counter [] rest hw bytes = (0, ground arith, refl, omega arith)
read_be_acc-bytes w q counter (b ∷ xs) rest hw bytes =
    let k : ℕ = length xs in
    let e : 2 ^ (8 * suc k) ≡ 256 * 2 ^ (8 * k) = two-pow-byte k in
    let (v, r, s, lt) =
      read_be_acc-bytes w (q * 256 + b) (counter + 1) xs rest (omega arith) bytes.1 in
    let top : (b * 2 ^ (8 * k) + v) / 2 ^ (8 * k) ≡ b =
      mul-add-div_right (pos_pow (8 * k)) b v ∙ rw (div-eq_of_lt lt) (omega arith) in
    let low : bit_and b 0xFF ≡ b = bit_and_byte b ∙ mod-eq_of_lt bytes.0 in
    (
      b * 2 ^ (8 * k) + v,
      rw (read_round w k q b bytes.0 hw, r) (ground (arith, ap (λ (t : ℕ). q * t) e)),
      rw (top, low, write_be-mod k b v, s) refl,
      rw e (join-lt (2 ^ (8 * k)) b v bytes.0 lt),
    )

pub read_be-bytes :
    (k counter : ℕ) (xs rest : List ℕ)
    → length xs ≡ k
    → All (λ b. b < 256) xs
    → (v : ℕ) × (read_be (8 * k) k 0 (record { counter = counter; rest = xs ++ rest })
        ≡ ok (v, record { counter = counter + k; rest = rest }))
      × (write_be k v ≡ xs)
      × (v < 2 ^ (8 * k))
read_be-bytes k counter xs rest e bytes =
    let (v, r, s, lt) = read_be_acc-bytes (8 * length xs) 0 counter xs rest (omega arith) bytes in
    rw (← e) (v, simp (zero-mul, zero-add) at r, s, lt)

pub write_be-bytes : (k v : ℕ) → All (λ b. b < 256) (write_be k v)
unfolding write_be
write_be-bytes zero v = tt
write_be-bytes (suc k) v = (rw (bit_and_byte (v / 2 ^ (8 * k))) (omega arith), write_be-bytes k v)

-- Past the end of memory, copying bytes faults.
pub read_bytes-short :
    (n : ℕ) (out : List ℕ) (counter : ℕ) (bs : List ℕ)
    → length bs < n
    → read_bytes n out (record { counter = counter; rest = bs }) ≡ fault
unfolding read_bytes
read_bytes-short zero out counter bs h = absurd (omega arith)
read_bytes-short (suc n) out counter [] h = refl
read_bytes-short (suc n) out counter (b ∷ bs) h =
    read_bytes-short n (out ++ b ∷ []) (counter + 1) bs (omega arith)
