-- ===== src/Transfer/Receiver.antt =====
-- TransferReceiver of src/core/transfer.cpp. `file` is the path of the open std::fstream; the disk is
-- part of the state. `garbage` is what an uninitialised structure holds when its deserializer, whose
-- result is not looked at, returns false.
pub mod Files
pub mod Chunks
pub mod Machine
pub mod Offered
pub mod Chosen
pub mod Downloads
mod Tests
pub mod Stream
pub mod Finish
pub mod Overflow
use net_transfer.Base.{
  ℕ, zero, suc, ◌+◌, ◌-◌, Bool, true, false, List, [], ◌∷◌, ◌++◌, Option, none, some, ltb,
  if◌then◌else◌, length, take, drop,
}
use net_transfer.Protocol.{
  BaseHeader, MessageType, RejectReason, OfferPayload, transfer_offer, transfer_accept,
  transfer_reject, header_size, tcp_port_max,
}
use net_transfer.Protocol.Reader.{Outcome, ok, refused, fault}
use net_transfer.Protocol.Header.{build_header, serialize_header, deserialize_header}
use net_transfer.Protocol.Offer.{deserialize_offer}
use net_transfer.Protocol.Payload.{serialize_reject}
use net_transfer.Transfer.Platform.{Paths, Disk, put}
use net_transfer.Transfer.Digest.{max_buffer_size}
use net_transfer.Transfer.Sender.{Event, wrote, Completion, failed, done, with_payload, header_or}
use net_transfer.Transfer.Receiver.Files.{resolve_file_path}

-- The operation whose completion the receiver waits for. `idle`: none is pending, so that only a call
-- of `accept` or `reject` does anything more. `offered`: an offer is before the user.
-- `shutting_down`: a synchronous shutdown of TLS waits for the peer. `terminated`: an exception left a handler, and the thread that runs the handlers.
pub data Pending : Type 0 where
  accepting handshaking reading_offer_header : Pending
  reading_offer : ℕ → Pending
  offered writing_accept writing_reject shutting_down : Pending
  reading_chunk_header : Pending
  reading_chunk : ℕ → Pending
  idle terminated undefined : Pending

pub record TransferReceiver : Type 0 where
  pub listen_port : ℕ
  pub pending_offer : OfferPayload
  pub pending_session_id : ℕ
  pub file : Option (List ℕ)
  pub file_path : List ℕ
  pub file_size : ℕ
  pub bytes_sent : ℕ
  pub disk : Disk
  pub buffer : List ℕ
  pub pending : Pending

-- `onOffer`, beside the events that a sender has too.
pub data Notice : Type 0 where
  event : Event → Notice
  offer : OfferPayload → Notice

-- The constructor; `memory` is what the other fields hold.
unfoldable pub create : TransferReceiver → ℕ → TransferReceiver
create memory listen_port = record memory {
  listen_port = listen_port;
  bytes_sent = 0;
  file = none;
  file_path = [];
  pending = idle;
}

-- TransferReceiver::stop: `closed` is false where closing the acceptor or the socket throws. What is
-- pending then completes with an error.
unfoldable pub stop : TransferReceiver → Bool → Bool × TransferReceiver
stop r true = (true, record r { file = none })
stop r false = (false, r)

-- TransferReceiver::start: the first port from `port` on that can be bound, up to TCP_PORT_MAX, with
-- as many rounds as there are ports.
unfoldable pub bind_port : (ℕ → Bool) → ℕ → ℕ → Option ℕ
bind_port free zero port = none
bind_port free (suc rounds) port =
    let rest = bind_port free rounds (port + 1) in if free port then some port else rest

unfoldable pub start : (ℕ → Bool) → TransferReceiver → Bool × TransferReceiver
unfolding bind_port
start free r = elim (bind_port free (tcp_port_max + 1 - r.listen_port) r.listen_port) [
  | none ↦ (false, r)
  | some port ↦ (true, record r { listen_port = port; pending = accepting })
]

-- listenForConnections
unfoldable pub listen : TransferReceiver → TransferReceiver
listen r = record r { pending = accepting }

-- async_accept: after an error it accepts again.
unfoldable pub on_accept : TransferReceiver → Bool → TransferReceiver
unfolding listen
on_accept r true = record r { pending = handshaking }
on_accept r false = listen r

-- async_handshake: after an error it returns.
unfoldable pub on_handshake : TransferReceiver → Bool → TransferReceiver
on_handshake r true = record r { pending = reading_offer_header }
on_handshake r false = record r { pending = idle }

-- Bytes that a read puts into the buffer at an offset.
unfoldable pub store : ℕ → List ℕ → List ℕ → List ℕ
store offset bytes buffer = take offset buffer ++ (bytes ++ drop (offset + length bytes) buffer)

unfoldable pub on_offer_type : TransferReceiver → BaseHeader → MessageType → TransferReceiver
on_offer_type r header transfer_offer =
    if ltb (max_buffer_size - header_size) header.payload_len
    then record r { pending = idle }
    else record r {
      pending_session_id = header.session_id;
      pending = reading_offer header.payload_len;
    }
on_offer_type r header _ = record r { pending = idle }

unfoldable pub on_offer_header : BaseHeader → TransferReceiver → Completion → TransferReceiver
unfolding on_offer_type header_or store
on_offer_header garbage r failed = record r { pending = idle }
on_offer_header garbage r (done bytes) =
    let buffer = store 0 bytes r.buffer in
    let header = header_or garbage (deserialize_header buffer) in
    on_offer_type (record r { buffer = buffer }) header header.msg_type

-- The offer is stored, the certificate of its sender checked (`valid`), and the user asked.
unfoldable pub take_offer :
    (List ℕ → Bool) → TransferReceiver → OfferPayload → TransferReceiver × List Notice
unfolding listen
take_offer valid r op =
    let r' = record r { pending_offer = op; file_size = op.file_size } in
    if valid op.device_name
    then (record r' { pending = offered }, offer op ∷ [])
    else (listen r', [])

unfoldable pub on_offer_parsed :
    (List ℕ → Bool)
    → OfferPayload
    → TransferReceiver
    → Outcome OfferPayload
    → TransferReceiver × List Notice
unfolding take_offer
on_offer_parsed valid garbage r (ok op) = take_offer valid r op
on_offer_parsed valid garbage r refused = take_offer valid r garbage
on_offer_parsed valid garbage r fault = (record r { pending = undefined }, [])

unfoldable pub on_offer :
    (List ℕ → Bool)
    → OfferPayload
    → TransferReceiver
    → ℕ
    → Completion
    → TransferReceiver × List Notice
unfolding on_offer_parsed store
on_offer valid garbage r payload_len failed = (record r { pending = idle }, [])
on_offer valid garbage r payload_len (done bytes) =
    let buffer = store header_size bytes r.buffer in
    on_offer_parsed valid garbage (record r { buffer = buffer })
      (deserialize_offer (drop header_size buffer) payload_len)

-- accept: a message with no payload. `resume_offset` is not used yet.
unfoldable pub accept : ℕ → TransferReceiver → TransferReceiver × List Notice
accept resume_offset r = (
  record r { pending = writing_accept },
  event (wrote (serialize_header (build_header transfer_accept r.pending_session_id 0))) ∷ [],
)

-- The handler of the accept's write: the file gets a name that does not exist yet (`none` where the
-- fuel of that loop runs out), and is created, if the file system allows it.
unfoldable pub on_accept_written :
    Paths → List ℕ → ℕ → Bool → TransferReceiver → Bool → TransferReceiver
on_accept_written paths downloads fuel can_create r false = record r { pending = idle }
on_accept_written paths downloads fuel can_create r true =
    elim (resolve_file_path paths r.disk fuel downloads r.pending_offer.file_name) [
      | none ↦ record r { pending = undefined }
      | some path ↦
          if can_create
          then record r {
            file_path = path;
            file = some path;
            disk = put r.disk path [];
            pending = reading_chunk_header;
          }
          else record r { file_path = path; pending = idle }
    ]

unfoldable pub reject : RejectReason → TransferReceiver → TransferReceiver × List Notice
unfolding with_payload
reject reason r = (
  record r { pending = writing_reject },
  event (
        wrote (
          with_payload transfer_reject r.pending_session_id
            (serialize_reject (record { reason = reason }))))
      ∷ [],
)

-- The handler of the refusal's write shuts TLS down, whether or not the write has failed. That call
-- blocks the thread that runs the handlers until the peer answers it or closes the connection.
unfoldable pub on_reject_written : TransferReceiver → TransferReceiver
on_reject_written r = record r { pending = shutting_down }

-- What follows the shutdown, also if it throws: the socket is closed.
unfoldable pub on_shut_down : TransferReceiver → TransferReceiver
unfolding listen
on_shut_down r = listen r
