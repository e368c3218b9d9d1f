-- ===== src/Transfer/Receiver/Chosen.antt =====
-- Where TransferReceiver puts a file whose offered name is a path.
use net_transfer.Base.{
  ℕ, ◌+◌, ◌≤◌, ◌≡◌, refl, arith, Bool, true, List, ◌++◌, none, some, length, same_refl, leb, le→leb,
}
use net_transfer.Transfer.Digest.{max_buffer_size}
use net_transfer.Protocol.{OfferPayload, IsWireOffer, header_size}
use net_transfer.Protocol.Offer.{serialize_offer}
use net_transfer.Transfer.Platform.{Paths, exists}
use net_transfer.Transfer.Sender.{done}
use net_transfer.Transfer.Receiver.{
  TransferReceiver, take_offer, on_offer, accept, on_accept_written,
}
use net_transfer.Transfer.Receiver.Files.{resolve_file_path}
use net_transfer.Transfer.Receiver.Chunks.{on_chunk, file_write}
use net_transfer.Transfer.Receiver.Offered.{on_offer-serialize_offer}

first_choice :
    (paths : Paths) (r : TransferReceiver) (fuel : ℕ) (downloads name : List ℕ)
    → paths.join downloads name ≡ name
    → r.disk name ≡ none
    → resolve_file_path paths r.disk fuel downloads name ≡ some name
unfolding resolve_file_path
first_choice paths r fuel downloads name absolute free = rw (absolute, free, exists) refl

-- The name in an offer, one that fits its fields, is not looked at: if it is a path that `operator/` of
-- std::filesystem::path takes as a whole, as an absolute path is, and no file is there, then,
-- whichever the download folder is, the file of a trusted peer is created at that very path, if the
-- user accepts and a file can be created there. What the disk takes of a first chunk, of at most
-- 32746 bytes, is then its contents.
pub on_chunk_chosen :
    (paths : Paths) (valid : List ℕ → Bool) (garbage op : OfferPayload) (r : TransferReceiver)
    (header junk downloads bytes : List ℕ) (fuel : ℕ) (kept : List ℕ → List ℕ)
    → IsWireOffer op
    → r.buffer ≡ header ++ junk
    → length header ≡ header_size
    → valid op.device_name ≡ true
    → paths.join downloads op.file_name ≡ op.file_name
    → r.disk op.file_name ≡ none
    → length bytes ≤ 32746
    → let payload = serialize_offer op in
      let asked = (on_offer valid garbage r (length payload) (done payload)).0 in
      let receiving = on_accept_written paths downloads fuel true (accept 0 asked).0 true in
      (receiving.file ≡ some op.file_name)
      × ((on_chunk kept receiving (done bytes)).0.disk op.file_name ≡ some (kept bytes))
unfolding take_offer accept on_accept_written on_chunk file_write
on_chunk_chosen paths valid garbage op r header junk downloads bytes fuel kept wire shape whole
      trusted absolute free short =
    let here = first_choice paths r fuel downloads op.file_name absolute free in
    let fits : leb (header_size + length bytes) max_buffer_size ≡ true = le→leb _ _ (omega arith) in
    rw
      (
        on_offer-serialize_offer garbage valid r op header junk wire shape whole,
        trusted,
        here,
        on_accept_written,
        fits,
      )
      (refl, rw (same_refl op.file_name) refl)
