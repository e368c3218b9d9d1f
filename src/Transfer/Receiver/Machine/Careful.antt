-- ===== src/Transfer/Receiver/Machine/Careful.antt =====
-- How the handlers of the receiver treat the files that are there.
use net_transfer.Base.{
  is_empty, ℕ, ◌+◌, ◌≡◌, refl, Bool, true, false, not, ◌&&◌, List, [], none, some, inl, inr,
  Bool-cases, Option-cases, same, same→eq, if◌then◌else◌, leb, length,
}
use net_transfer.Protocol.{BaseHeader, MessageType, data_chunk, transfer_done, header_size}
use net_transfer.Protocol.Header.{deserialize_header}
use net_transfer.Transfer.Platform.{Hash, Paths, Disk, exists, put, remove, contents_of}
use net_transfer.Transfer.Digest.{max_buffer_size, file_digest}
use net_transfer.Transfer.Sender.{Completion, failed, done, header_or}
use net_transfer.Transfer.Receiver.{
  TransferReceiver, idle, reading_chunk_header, listen, on_accept_written, store,
}
use net_transfer.Transfer.Receiver.Files.{cleaned, resolve_file_path, resolve_file_path_new}
use net_transfer.Transfer.Receiver.Chunks.{
  fail_transfer, finish_transfer, on_chunk_type, on_chunk_header, file_write, on_part, on_chunk,
}
use net_transfer.Transfer.Receiver.Machine.Untouched.{Same}

-- The files of a disk are on another, with the same contents.
abbrev pub Keeps : Disk → Disk → Type 0
Keeps before disk = (p contents : List ℕ) → before p ≡ some contents → disk p ≡ some contents

module _ (before disk : Disk) (path : List ℕ) (new : before path ≡ none) where
  other_path : (p contents : List ℕ) → before p ≡ some contents → same p path ≡ false
  other_path p contents e = elim (Bool-cases (same p path)) [
    | inl hit ↦ let one : p ≡ path = same→eq p path hit in cc
    | inr miss ↦ miss
  ]

  put-Keeps : (contents : List ℕ) → Keeps before disk → Keeps before (put disk path contents)
  put-Keeps contents k p c e = rw (other_path p c e) (k p c e)

  remove-Keeps : Keeps before disk → Keeps before (remove disk path)
  remove-Keeps k p c e = rw (other_path p c e) (k p c e)

  cleaned-Keeps : Keeps before disk → Keeps before (cleaned disk path)
  unfolding cleaned
  cleaned-Keeps k = elim (Bool-cases (not (is_empty path) && exists disk path)) [
    | inl there ↦ rw (there, cleaned) (remove-Keeps k)
    | inr not_there ↦ rw (not_there, cleaned) k
  ]

-- The files are kept, and the receiver's path and the file that it has open are not among them.
pub record IsCareful (before : Disk) (r : TransferReceiver) : Type 0 where
  pub keeps : Keeps before r.disk
  pub new_path : before r.file_path ≡ none
  pub new_file : (q : List ℕ) → r.file ≡ some q → before q ≡ none

pub same_files :
    {before : Disk} {r s : TransferReceiver}
    → IsCareful before r
    → s.disk ≡ r.disk
    → s.file_path ≡ r.file_path
    → s.file ≡ r.file
    → IsCareful before s
same_files v disk path file = record {
  keeps = rw disk v.keeps;
  new_path = rw path v.new_path;
  new_file = rw file v.new_file;
}

pub Same-IsCareful :
    (before : Disk) {r s : TransferReceiver} → IsCareful before r → Same r s → IsCareful before s
Same-IsCareful before v same = same_files v same.same_disk same.same_path same.same_file

module _ (before : Disk) (unnamed : before [] ≡ none) where
  fail_transfer-IsCareful :
      (r : TransferReceiver) → IsCareful before r → IsCareful before (fail_transfer r).0
  unfolding fail_transfer listen
  fail_transfer-IsCareful r v = record {
    keeps = cleaned-Keeps before r.disk r.file_path v.new_path v.keeps;
    new_path = unnamed;
    new_file = λ q e. cc;
  }

  finish_transfer-IsCareful :
      (hash : Hash) (write_ok : Bool) (r : TransferReceiver)
      → IsCareful before r
      → IsCareful before (finish_transfer hash write_ok r).0
  unfolding finish_transfer listen
  finish_transfer-IsCareful hash false r v = record {
    keeps = v.keeps;
    new_path = v.new_path;
    new_file = λ q e. let one : r.file_path ≡ q = cc in rw (← one) v.new_path;
  }
  finish_transfer-IsCareful hash true r v =
      elim (Bool-cases
        (same (file_digest hash (contents_of (r.disk r.file_path))) r.pending_offer.sha256)) [
          | inl good ↦
              rw (good, finish_transfer)
                (record { keeps = v.keeps; new_path = v.new_path; new_file = λ q e. cc })
          | inr bad ↦
              rw (bad, finish_transfer)
                (record {
                  keeps = remove-Keeps before r.disk r.file_path v.new_path v.keeps;
                  new_path = v.new_path;
                  new_file = λ q e. cc;
                })
        ]

  on_chunk_type-IsCareful :
      (hash : Hash) (write_ok : Bool) (r : TransferReceiver) (n : ℕ) (t : MessageType)
      → IsCareful before r
      → IsCareful before (on_chunk_type hash write_ok r n t).0
  unfolding on_chunk_type
  on_chunk_type-IsCareful hash write_ok r n data_chunk v = same_files v refl refl refl
  on_chunk_type-IsCareful hash write_ok r n transfer_done v =
      finish_transfer-IsCareful hash write_ok r v
  on_chunk_type-IsCareful hash write_ok r n _ v = fail_transfer-IsCareful r v

  pub on_chunk_header-IsCareful :
      (hash : Hash) (write_ok : Bool) (garbage : BaseHeader) (r : TransferReceiver) (c : Completion)
      → IsCareful before r
      → IsCareful before (on_chunk_header hash write_ok garbage r c).0
  unfolding on_chunk_header
  on_chunk_header-IsCareful hash write_ok garbage r failed v = fail_transfer-IsCareful r v
  on_chunk_header-IsCareful hash write_ok garbage r (done bytes) v =
      let buffer = store 0 bytes r.buffer in
      let header = header_or garbage (deserialize_header buffer) in
      on_chunk_type-IsCareful hash write_ok (record r { buffer = buffer }) header.payload_len
        header.msg_type (same_files v refl refl refl)

  file_write-Keeps :
      (kept : List ℕ → List ℕ) (r : TransferReceiver) (bytes : List ℕ)
      → IsCareful before r
      → Keeps before (file_write kept r.disk r.file bytes)
  unfolding file_write
  file_write-Keeps kept r bytes v = elim (Option-cases r.file) [
    | inl closed ↦ rw (closed, file_write) v.keeps
    | inr (q, open_file) ↦
        rw (open_file, file_write) (put-Keeps before r.disk q (v.new_file q open_file) _ v.keeps)
  ]

  pub on_chunk-IsCareful :
      (kept : List ℕ → List ℕ) (r : TransferReceiver) (c : Completion)
      → IsCareful before r
      → IsCareful before (on_chunk kept r c).0
  unfolding on_chunk
  on_chunk-IsCareful kept r failed v = fail_transfer-IsCareful r v
  on_chunk-IsCareful kept r (done bytes) v =
      elim (Bool-cases (leb (header_size + length bytes) max_buffer_size)) [
        | inl fits ↦
            rw (fits, on_chunk)
              (record {
                keeps = file_write-Keeps kept r bytes v;
                new_path = v.new_path;
                new_file = v.new_file;
              })
        | inr long ↦ rw (long, on_chunk) (same_files v refl refl refl)
      ]

  pub on_part-IsCareful :
      (arrived : ℕ) (r : TransferReceiver)
      → IsCareful before r
      → IsCareful before (on_part arrived r)
  unfolding on_part
  on_part-IsCareful arrived r v = elim (Bool-cases (leb (header_size + arrived) max_buffer_size)) [
    | inl fits ↦ rw (fits, on_part) v
    | inr long ↦ rw (long, on_part) (same_files v refl refl refl)
  ]

  -- A name that is free now was free before.
  free_before :
      (disk : Disk) (path : List ℕ)
      → Keeps before disk
      → exists disk path ≡ false
      → before path ≡ none
  free_before disk path k free = elim (Option-cases (before path)) [
    | inl new ↦ new
    | inr (contents, there) ↦ cc (rw (k path contents there, exists) at free)
  ]

  -- The file is created, or not.
  created-IsCareful :
      (can_create : Bool) (r : TransferReceiver) (path : List ℕ)
      → before path ≡ none
      → IsCareful before r
      → IsCareful before (
          if can_create
          then record r {
            file_path = path;
            file = some path;
            disk = put r.disk path [];
            pending = reading_chunk_header;
          }
          else record r { file_path = path; pending = idle })
  created-IsCareful true r path new v = record {
    keeps = put-Keeps before r.disk path new [] v.keeps;
    new_path = new;
    new_file = λ q e. let one : path ≡ q = cc in rw (← one) new;
  }
  created-IsCareful false r path new v = record {
    keeps = v.keeps;
    new_path = new;
    new_file = v.new_file;
  }

  pub on_accept_written-IsCareful :
      (paths : Paths) (downloads : List ℕ) (fuel : ℕ) (can_create sent : Bool)
      (r : TransferReceiver)
      → IsCareful before r
      → IsCareful before (on_accept_written paths downloads fuel can_create r sent)
  unfolding on_accept_written
  on_accept_written-IsCareful paths downloads fuel can_create false r v =
      same_files v refl refl refl
  on_accept_written-IsCareful paths downloads fuel can_create true r v =
      elim (Option-cases
        (resolve_file_path paths r.disk fuel downloads r.pending_offer.file_name)) [
          | inl out ↦ rw (out, on_accept_written) (same_files v refl refl refl)
          | inr (path, found) ↦
              let new : before path ≡ none = free_before r.disk path v.keeps (
                resolve_file_path_new paths r.disk fuel downloads r.pending_offer.file_name path
                  found) in
              rw (found, on_accept_written) (created-IsCareful can_create r path new v)
        ]
