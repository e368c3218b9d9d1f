-- ===== src/Transfer/Receiver/Machine.antt =====
-- TransferReceiver of src/core/transfer.cpp as a machine: which handler runs next. What the surroundings
-- choose (whether an operation succeeds, what is read, what the disk takes, which folder and how many names are tried, what
-- uninitialised structures hold) is free in each step.
pub mod Untouched
pub mod Broken
pub mod Careful
pub mod Preserved
pub mod Unasked
pub mod Port
use net_transfer.Base.{ℕ, ◌≤◌, ◌≡◌, Bool, true, List, []}
use net_transfer.Protocol.{BaseHeader, OfferPayload, RejectReason}
use net_transfer.Transfer.Platform.{Hash, Paths}
use net_transfer.Transfer.Sender.{Completion}
use net_transfer.Transfer.Receiver.{
  TransferReceiver, Notice, accepting, handshaking, reading_offer_header, reading_offer, offered,
  writing_accept, writing_reject, shutting_down, reading_chunk_header, reading_chunk, on_accept,
  on_handshake, on_offer_header, on_offer, accept, on_accept_written, reject, on_reject_written,
  on_shut_down,
}
use net_transfer.Transfer.Receiver.Chunks.{on_chunk_header, on_part, on_chunk}

-- Who causes a step: a completion, or the user who answers an offer.
pub data Mover : Type 0 where
  network acceptance refusal : Mover

module _ (hash : Hash) (paths : Paths) where
  pub data Step (r : TransferReceiver) : Mover → TransferReceiver → List Notice → Type 0 where
    connection : (ok : Bool) → r.pending ≡ accepting → Step r network (on_accept r ok) []
    handshake : (ok : Bool) → r.pending ≡ handshaking → Step r network (on_handshake r ok) []
    offer_header :
        (garbage : BaseHeader) (c : Completion)
        → r.pending ≡ reading_offer_header
        → Step r network (on_offer_header garbage r c) []
    offer_payload :
        (valid : List ℕ → Bool) (garbage : OfferPayload) (n : ℕ) (c : Completion)
        → r.pending ≡ reading_offer n
        → Step r network (on_offer valid garbage r n c).0 (on_offer valid garbage r n c).1
    accepts :
        (resume_offset : ℕ)
        → r.pending ≡ offered
        → Step r acceptance (accept resume_offset r).0 (accept resume_offset r).1
    accept_written :
        (downloads : List ℕ) (fuel : ℕ) (can_create ok : Bool)
        → r.pending ≡ writing_accept
        → Step r network (on_accept_written paths downloads fuel can_create r ok) []
    rejects :
        (reason : RejectReason)
        → r.pending ≡ offered
        → Step r refusal (reject reason r).0 (reject reason r).1
    reject_written : r.pending ≡ writing_reject → Step r network (on_reject_written r) []
    shut_down : r.pending ≡ shutting_down → Step r network (on_shut_down r) []
    chunk_header :
        (write_ok : Bool) (garbage : BaseHeader) (c : Completion)
        → r.pending ≡ reading_chunk_header
        → Step r network
            (on_chunk_header hash write_ok garbage r c).0
            (on_chunk_header hash write_ok garbage r c).1
    part :
        (n arrived : ℕ)
        → r.pending ≡ reading_chunk n
        → arrived ≤ n
        → Step r network (on_part arrived r) []
    chunk :
        (n : ℕ) (kept : List ℕ → List ℕ) (c : Completion)
        → r.pending ≡ reading_chunk n
        → Step r network (on_chunk kept r c).0 (on_chunk kept r c).1

  -- Any number of steps that are caused by whom `may` allows.
  pub data Run (may : Mover → Bool) (r : TransferReceiver) : TransferReceiver → Type 0 where
    here : Run may r r
    later :
        {s t : TransferReceiver} {mover : Mover} {notices : List Notice}
        → Run may r s
        → may mover ≡ true
        → Step s mover t notices
        → Run may r t
