-- ===== src/Transfer/Sender/Chunks.antt =====
-- What the sender writes once its offer is accepted, if every write succeeds.
pub mod Bounds
use net_transfer.Base.{
  ℕ, zero, suc, ◌+◌, ◌-◌, ◌%◌, ◌^◌, ◌≤◌, ◌<◌, ◌≡◌, refl, ap, ◌∙◌, arith, true, false, List, [], ◌∷◌,
  ◌++◌, map, ltb, ltb→lt, ltb_false→le, length, length-take, length-drop, take, drop,
  take-append-drop, All, Bool-cases, inl, inr,
}
use Prim.Native.Nat.{min}
use native.Mathlib.Nat.{mod-eq_of_lt}
use net_transfer.Protocol.{data_chunk, transfer_done, header_size}
use net_transfer.Protocol.Payload.{serialize_done}
use net_transfer.Transfer.Sender.{
  TransferSender, Event, wrote, progress, complete, Pending, writing_chunk, reading_ack_header,
  with_payload, chunk_max, send_next_chunk, on_chunk_written,
}

-- Every write completes, until the sender waits for something else.
drive_on :
    (TransferSender → TransferSender × List Event)
    → TransferSender
    → Pending
    → TransferSender × List Event
drive_on go s (writing_chunk n) =
    let (s', more) = on_chunk_written true s n true in
    let (s'', events) = go s' in (s'', more ++ events)
drive_on go s _ = (s, [])

unfoldable pub drive : ℕ → TransferSender → TransferSender × List Event
unfolding drive_on
drive zero s = (s, [])
drive (suc fuel) s = drive_on (drive fuel) s s.pending

-- sendNextChunk, and all that follows from it.
unfoldable pub send_file : ℕ → TransferSender → TransferSender × List Event
unfolding drive
send_file fuel s =
    let (s', events) = send_next_chunk true s in
    let (s'', more) = drive fuel s' in (s'', events ++ more)

-- The messages among the events.
abbrev pub messages : List Event → List (List ℕ)
messages [] = []
messages (wrote m ∷ es) = m ∷ messages es
messages (progress a b ∷ es) = messages es
messages (complete b p ∷ es) = messages es

abbrev pub flatten : List (List ℕ) → List ℕ
flatten [] = []
flatten (b ∷ bs) = b ++ flatten bs

abbrev pub chunk_message : ℕ → List ℕ → List ℕ
chunk_message session_id block = with_payload data_chunk session_id block

abbrev pub done_message : ℕ → List ℕ → List ℕ
done_message session_id sha256 =
    with_payload transfer_done session_id (serialize_done (record { sha256 = sha256 }))

-- A block that fits the receiver's buffer behind a header, and is not empty.
abbrev pub IsBlock : List ℕ → Type 0
IsBlock block = (0 < length block) × (length block ≤ chunk_max)

-- What the sender has written: the file in blocks, each in a DATA_CHUNK, and then TRANSFER_DONE with
-- the digest; it has counted every byte of the file, and waits for the acknowledgement.
pub record Sends (s : TransferSender) (r : TransferSender × List Event) : Type 0 where
  pub blocks : List (List ℕ)
  pub whole : flatten blocks ≡ s.unread
  pub fit : All IsBlock blocks
  pub sent :
      messages r.1
      ≡ map (chunk_message s.session_id) blocks ++ done_message s.session_id s.sha256 ∷ []
  pub same_path : r.0.file_path ≡ s.file_path
  pub waits : r.0.pending ≡ reading_ack_header
  pub counted : r.0.bytes_sent ≡ (s.bytes_sent + length s.unread) % 2 ^ 64

module _ (s : TransferSender) where
  block : List ℕ
  block = take chunk_max s.unread

  -- The sender behind its next block.
  behind : TransferSender
  behind = record s {
    unread = drop chunk_max s.unread;
    pending = writing_chunk (length block);
    bytes_sent = (s.bytes_sent + (header_size + length block - header_size)) % 2 ^ 64;
  }

  send_file-block :
      (fuel : ℕ)
      → ltb 0 (length block) ≡ true
      → let r = send_file fuel behind in
        send_file (suc fuel) s ≡ (
          r.0,
          wrote (chunk_message s.session_id block) ∷ progress behind.bytes_sent s.file_size ∷ r.1,
        )
  unfolding send_file drive drive_on send_next_chunk on_chunk_written block behind
  send_file-block fuel more = rw (more, send_next_chunk) refl

  send_file-end :
      (fuel : ℕ)
      → ltb 0 (length block) ≡ false
      → send_file fuel s ≡ (
        record s { pending = reading_ack_header },
        wrote (done_message s.session_id s.sha256) ∷ [],
      )
  unfolding send_file drive drive_on send_next_chunk block
  send_file-end zero last = rw (last, send_next_chunk) refl
  send_file-end (suc fuel) last = rw (last, send_next_chunk) refl

length-block : (s : TransferSender) → length (block s) ≡ min chunk_max (length s.unread)
unfolding block
length-block s = length-take chunk_max s.unread

length-behind : (s : TransferSender) → length (behind s).unread ≡ length s.unread - chunk_max
unfolding behind
length-behind s = length-drop chunk_max s.unread

behind-small : (s : TransferSender) → (behind s).bytes_sent < 2 ^ 64
unfolding behind
behind-small s = omega arith

Sends-block :
    (s : TransferSender) (r : TransferSender × List Event)
    → 0 < length (block s)
    → Sends (behind s) r
    → Sends s (
      r.0,
      wrote (chunk_message s.session_id (block s))
          ∷ progress (behind s).bytes_sent s.file_size
          ∷ r.1,
    )
unfolding block behind
Sends-block s r some_left v = record {
  blocks = block s ∷ v.blocks;
  whole = ap (λ xs. take chunk_max s.unread ++ xs) v.whole ∙ take-append-drop chunk_max s.unread;
  fit = ((some_left, omega (arith, length-take chunk_max s.unread)), v.fit);
  sent = ap (λ ms. chunk_message s.session_id (block s) ∷ ms) v.sent;
  same_path = v.same_path;
  waits = v.waits;
  counted =
      omega (arith, v.counted, length-take chunk_max s.unread, length-drop chunk_max s.unread);
}

Sends-end :
    (s : TransferSender)
    → length s.unread ≡ 0
    → s.bytes_sent < 2 ^ 64
    → Sends s
        (record s { pending = reading_ack_header }, wrote (done_message s.session_id s.sha256) ∷ [])
Sends-end s none_left small = record {
  blocks = [];
  whole = nil_of_length s.unread none_left;
  fit = tt;
  sent = refl;
  same_path = refl;
  waits = refl;
  counted = omega (arith, mod-eq_of_lt small);
}
  where
    nil_of_length : (xs : List ℕ) → length xs ≡ 0 → [] ≡ xs
    nil_of_length [] e = refl
    nil_of_length (x ∷ xs) e = absurd (omega arith)

-- With more rounds than bytes left, all of the file is sent, and the sender waits for the
-- acknowledgement.
pub send_file-Sends :
    (fuel : ℕ) (s : TransferSender)
    → s.bytes_sent < 2 ^ 64
    → length s.unread < fuel
    → Sends s (send_file fuel s)
send_file-Sends zero s small h = absurd (omega arith)
send_file-Sends (suc fuel) s small h =
    let n : length (block s) ≡ min chunk_max (length s.unread) = length-block s in
    elim (Bool-cases (ltb 0 (length (block s)))) [
      | inl more ↦
          let some_left : 0 < length (block s) = ltb→lt 0 (length (block s)) more in
          let ih =
            send_file-Sends fuel (behind s) (behind-small s) (omega (arith, length-behind s)) in
          rw (send_file-block s fuel more) (Sends-block s (send_file fuel (behind s)) some_left ih)
      | inr last ↦
          rw (send_file-end s (suc fuel) last)
            (Sends-end s (omega (arith, ltb_false→le 0 (length (block s)) last)) small)
    ]
