-- ===== src/Transfer/Receiver/Machine/Preserved.antt =====
-- What the receiver never does to the files that are there.
use net_transfer.Base.{ℕ, ◌≡◌, ◌≢◌, refl, Bool, List, [], none, some}
use net_transfer.Transfer.Platform.{Hash, Paths, Disk}
use net_transfer.Transfer.Receiver.{
  TransferReceiver, Notice, undefined, listen, accept, reject, on_reject_written, on_shut_down,
}
use net_transfer.Transfer.Receiver.Machine.Untouched.{
  on_accept-Same, on_handshake-Same, on_offer_header-Same, on_offer-Same,
}
use net_transfer.Transfer.Receiver.Machine.{
  Mover, Step, connection, handshake, offer_header, offer_payload, accepts, accept_written, rejects,
  reject_written, shut_down, chunk_header, part, chunk, Run, here, later,
}
use net_transfer.Transfer.Receiver.Machine.Careful.{
  IsCareful, same_files, Same-IsCareful, on_chunk_header-IsCareful, on_part-IsCareful,
  on_chunk-IsCareful, on_accept_written-IsCareful,
}

module _ (before : Disk) (unnamed : before [] ≡ none) (hash : Hash) (paths : Paths) where
  Step-IsCareful :
      {r s : TransferReceiver} {mover : Mover} {notices : List Notice}
      → IsCareful before r
      → Step hash paths r mover s notices
      → IsCareful before s
  unfolding accept reject on_reject_written on_shut_down listen
  Step-IsCareful {r} v (connection made e) = Same-IsCareful before v (on_accept-Same r made)
  Step-IsCareful {r} v (handshake made e) = Same-IsCareful before v (on_handshake-Same r made)
  Step-IsCareful {r} v (offer_header garbage c e) =
      Same-IsCareful before v (on_offer_header-Same garbage r c)
  Step-IsCareful {r} v (offer_payload valid garbage n c e) =
      Same-IsCareful before v (on_offer-Same valid garbage r n c)
  Step-IsCareful v (accepts resume_offset e) = same_files v refl refl refl
  Step-IsCareful {r} v (accept_written downloads fuel can_create sent e) =
      on_accept_written-IsCareful before unnamed paths downloads fuel can_create sent r v
  Step-IsCareful v (rejects reason e) = same_files v refl refl refl
  Step-IsCareful v (reject_written e) = same_files v refl refl refl
  Step-IsCareful v (shut_down e) = same_files v refl refl refl
  Step-IsCareful {r} v (chunk_header write_ok garbage c e) =
      on_chunk_header-IsCareful before unnamed hash write_ok garbage r c v
  Step-IsCareful {r} v (part n arrived e below) = on_part-IsCareful before unnamed arrived r v
  Step-IsCareful {r} v (chunk n kept c e) = on_chunk-IsCareful before unnamed kept r c v

  Run-IsCareful :
      {may : Mover → Bool} {r s : TransferReceiver}
      → IsCareful before r
      → Run hash paths may r s
      → IsCareful before s
  Run-IsCareful v here = v
  Run-IsCareful v (later run m step) = Step-IsCareful (Run-IsCareful v run) step

-- A file that is there before a receiver begins is never changed or removed by it, through any number of
-- connections, whatever they bring and the user answers, as long as no memory outside of its buffer is
-- read or written and each search for a free name ends: if the receiver has no file open and no path,
-- and no file has an empty name. (Names are compared as texts.)
pub Run-keeps :
    (hash : Hash) (paths : Paths) {may : Mover → Bool} {r s : TransferReceiver}
    (p contents : List ℕ)
    → r.file ≡ none
    → r.file_path ≡ []
    → r.disk [] ≡ none
    → r.disk p ≡ some contents
    → Run hash paths may r s
    → s.pending ≢ undefined
    → s.disk p ≡ some contents
Run-keeps hash paths {r} p contents closed no_path unnamed there run defined =
    let start : IsCareful r.disk r = record {
      keeps = λ q c e. e;
      new_path = rw no_path unnamed;
      new_file = λ q e. cc;
    } in
    (Run-IsCareful r.disk unnamed hash paths start run).keeps p contents there
