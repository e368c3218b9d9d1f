-- ===== src/Protocol/Reader/Safety.antt =====
-- Reading within memory: rules for readers that take a fixed number of bytes, and for readers that
-- check their bounds themselves.
use net_transfer.Base.{
  ℕ, zero, suc, ◌+◌, ◌≤◌, ◌≡◌, ◌≢◌, refl, ◌∙◌, ap, arith, Bool, true, false, List, [], ◌∷◌, length,
  length-drop, drop,
}
use net_transfer.Protocol.Reader.{
  Outcome, Cursor, ok, refused, fault, result, Reader, ◌>>=◌, ◌>>◌, pure, require, next, read_be,
  read_bytes,
}
use net_transfer.Protocol.Reader.Laws.{read_be-total, read_bytes-total}

drop-drop : (j k : ℕ) (bs : List ℕ) → drop j (drop k bs) ≡ drop (k + j) bs
drop-drop j zero bs = ap (λ (n : ℕ). drop n bs) (omega arith)
drop-drop zero (suc k) [] = let e : suc k + zero ≡ suc (k + zero) = omega arith in rw e refl
drop-drop (suc j) (suc k) [] = let e : suc k + suc j ≡ suc (k + suc j) = omega arith in rw e refl
drop-drop j (suc k) (b ∷ bs) =
    drop-drop j k bs ∙ (let e : suc k + j ≡ suc (k + j) = omega arith in rw e refl)

-- On `k` bytes or more, `m` succeeds and moves on by `k` bytes.
abbrev pub Takes : {A : Type 0} → Reader A → ℕ → Type 0
Takes {A} m k =
    (counter : ℕ) (bs : List ℕ)
    → k ≤ length bs
    → (a : A) × (m (record { counter = counter; rest = bs })
        ≡ ok (a, record { counter = counter + k; rest = drop k bs }))

pub Takes-next : Takes next 1
Takes-next counter [] h = absurd (omega arith)
Takes-next counter (b ∷ bs) h = (b, refl)

pub Takes-read_be : (w k acc : ℕ) → Takes (read_be w k acc) k
Takes-read_be w k acc counter bs h = read_be-total w k acc counter bs h

pub Takes-read_bytes : (k : ℕ) → Takes (read_bytes k []) k
Takes-read_bytes k counter bs h = (_, read_bytes-total k counter bs h)

-- At `n` bytes into a memory of `size` bytes, `m` does not read past its end.
pub record Safe {A : Type 0} (size n : ℕ) (m : Reader A) : Type 0 where
  pub run : (bs : List ℕ) → n + length bs ≡ size → m (record { counter = n; rest = bs }) ≢ fault

pub Safe-pure : {A : Type 0} (size n : ℕ) (a : A) → Safe size n (pure a)
Safe-pure size n a = record { run = λ bs h e. ground arith }

pub Safe-take :
    {A B : Type 0} (size n k : ℕ) (m : Reader A) (f : A → Reader B)
    → Takes m k
    → n + k ≤ size
    → ((a : A) → Safe size (n + k) (f a))
    → Safe size n (m >>= f)
Safe-take size n k m f takes room safe = record {
  run = λ bs h.
      let (a, e) = takes n bs (omega arith) in
      rw (e, ◌>>=◌) ((safe a).run (drop k bs) (omega (arith, length-drop k bs)));
}

pub Safe-require :
    {B : Type 0} (size n : ℕ) (b : Bool) (f : Reader B)
    → (b ≡ true → Safe size n f)
    → Safe size n (require b >> f)
Safe-require size n true f safe = record { run = λ bs h. (safe refl).run bs h }
Safe-require size n false f safe = record { run = λ bs h e. ground arith }

not_fault : {A : Type 0} (r : Outcome (A × Cursor)) → r ≢ fault → result r ≢ fault
not_fault (ok a) h = λ e. ground arith
not_fault refused h = λ e. ground arith
not_fault fault h = absurd (h refl)

-- A whole function on its memory.
pub Safe-result :
    {A : Type 0} (m : Reader A) (bytes : List ℕ)
    → Safe (length bytes) 0 m
    → result (m (record { counter = 0; rest = bytes })) ≢ fault
Safe-result m bytes safe = not_fault _ (safe.run bytes (omega arith))
