-- ===== src/App/Machine/Unknown.antt =====
-- What NetTransfer does among peers that are not in its trust store.
use net_transfer.App.{NetTransfer}
use net_transfer.App.Format.{Json}
use net_transfer.App.Offers.{IsTrusted}
use net_transfer.App.Machine.{Actor, peer, trusting, other, Run}
use net_transfer.App.Machine.Untouched.{Untouched}

module _ (json : Json) where
  -- The peers that the trust store of `n` does not have, and anything else but trusting a device.
  abbrev pub OnlyUnknown : NetTransfer → Actor → Type 0
  OnlyUnknown n (peer digest) = ¬ IsTrusted json n digest
  OnlyUnknown n trusting = ⊥
  OnlyUnknown n other = Unit {0}
