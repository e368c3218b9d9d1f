-- ===== src/App/Machine/Tests.antt =====
-- An unknown peer that offers a file, and a user who goes on to ignore it.
use net_transfer.Base.{[], ◌∷◌, some, length}
use net_transfer.Protocol.Offer.{serialize_offer}
use net_transfer.Transfer.Sender.{done}
use net_transfer.Transfer.Receiver.{TransferReceiver, reading_offer}
use net_transfer.App.{NetTransfer}
use net_transfer.App.Tests.{entries, desk}
use net_transfer.App.Offers.{on_offer}
use net_transfer.App.Offers.Tests.{offer, receiver}

abbrev reading : TransferReceiver
reading = record receiver { pending = reading_offer (length (serialize_offer offer)) }

abbrev asked : NetTransfer
asked = record desk { receiver = some reading }

abbrev left : NetTransfer
left =
    (on_offer entries offer asked reading (some (7 ∷ [])) (length (serialize_offer offer))
      (done (serialize_offer offer))).0
