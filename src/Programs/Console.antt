-- ===== src/Programs/Console.antt =====
-- The console program, src/main.cpp: its menu, one line of input after another. The callbacks run on
-- another thread: between two lines an offer may arrive, and NetTransfer may change. `stoi` stands for
-- std::stoi.
pub mod Answers
use net_transfer.Base.{
  ℕ, ◌==◌, ◌&&◌, ◌++◌, Bool, true, false, List, [], ◌∷◌, map, none, some, get_elem?, if◌then◌else◌,
}
use net_transfer.Protocol.{OfferPayload, user_declined}
use net_transfer.Discovery.Devices.{DiscoveredDevice}
use net_transfer.Transfer.Receiver.{Notice}
use net_transfer.App.{
  NetTransfer, Call, returned, thrown, undefined, trust_device, ignore_pending_trust,
  has_pending_trust,
}
use net_transfer.App.Run
use net_transfer.App.Format.{Json}

-- What the program waits for. After `crashed` it has been left by an exception, or has dereferenced a
-- null pointer; after it and after `ended` a line does nothing.
pub data Prompt : Type 0 where
  menu : Prompt
  choosing : List DiscoveredDevice → Prompt
  naming : DiscoveredDevice → Prompt
  ended crashed : Prompt

pub record Console : Type 0 where
  pub net : NetTransfer
  pub pending_offer : Bool
  pub prompt : Prompt

pub data Input : Type 0 where
  line : List ℕ → Input
  offer : OfferPayload → Input
  network : NetTransfer → Input

pub data Output : Type 0 where
  listed : DiscoveredDevice → Output
  no_devices invalid_choice bye trusted ignored : Output
  incoming : OfferPayload → Output
  answered : Bool → Output

-- std::stoi throws, or gives a number.
pub data Number : Type 0 where
  no_number negative : Number
  number : ℕ → Number

-- The program's start, after NetTransfer::start of `n`: it ends at once where that fails.
unfoldable pub started : NetTransfer → Call (Bool × NetTransfer) → Console
started n (returned (true, m)) = record { net = m; pending_offer = false; prompt = menu }
started n (returned (false, m)) = record { net = m; pending_offer = false; prompt = ended }
started n (thrown (fine, m)) = record { net = m; pending_offer = false; prompt = crashed }
started n undefined = record { net = n; pending_offer = false; prompt = crashed }

unfoldable pub list_devices : Console → Call (List DiscoveredDevice) → Console × List Output
list_devices k (returned devices) = (k, map listed devices)
list_devices k (thrown devices) = (record k { prompt = crashed }, [])
list_devices k undefined = (record k { prompt = crashed }, [])

unfoldable pub ask_choice : Console → Call (List DiscoveredDevice) → Console × List Output
ask_choice k (returned []) = (k, no_devices ∷ [])
ask_choice k (returned (d ∷ ds)) = (record k { prompt = choosing (d ∷ ds) }, map listed (d ∷ ds))
ask_choice k (thrown devices) = (record k { prompt = crashed }, [])
ask_choice k undefined = (record k { prompt = crashed }, [])

-- The choice, of one of the devices that were listed.
unfoldable pub choose : Console → List DiscoveredDevice → Number → Console × List Output
choose k devices no_number = (record k { prompt = crashed }, [])
choose k devices negative = (record k { prompt = menu }, invalid_choice ∷ [])
choose k devices (number i) = elim (get_elem? devices i) [
  | none ↦ (record k { prompt = menu }, invalid_choice ∷ [])
  | some d ↦ (record k { prompt = naming d }, [])
]

unfoldable pub quit : Console → Call (Bool × NetTransfer) → Console × List Output
quit k (returned (fine, n)) = (record k { net = n; prompt = ended }, bye ∷ [])
quit k (thrown (fine, n)) = (record k { net = n; prompt = crashed }, bye ∷ [])
quit k undefined = (record k { prompt = crashed }, bye ∷ [])

-- The flag is taken down first.
unfoldable pub answer : Bool → Console → Call (NetTransfer × List Notice) → Console × List Output
answer yes_or_no k (returned (n, notices)) =
    (record k { net = n; pending_offer = false }, answered yes_or_no ∷ [])
answer yes_or_no k (thrown (n, notices)) =
    (record k { net = n; pending_offer = false; prompt = crashed }, [])
answer yes_or_no k undefined = (record k { pending_offer = false; prompt = crashed }, [])

unfoldable pub trust : Console → Call NetTransfer → Console × List Output
trust k (returned n) = (record k { net = n }, trusted ∷ [])
trust k (thrown n) = (record k { net = n; prompt = crashed }, [])
trust k undefined = (record k { prompt = crashed }, [])

module _ (json : Json) (stoi : List ℕ → Number) (udp_closed tcp_closed can_write : Bool) where
  -- The menu: l, s, q, y, n, t and i.
  unfoldable pub command : Console → ℕ → Console × List Output
  unfolding list_devices ask_choice quit answer trust
  command k c =
      if c == 0x6C
      then list_devices k (Run.get_devices k.net)
      else if c == 0x73
      then ask_choice k (Run.get_devices k.net)
      else if c == 0x71
      then quit k (Run.stop k.net udp_closed tcp_closed)
      else if (c == 0x79) && k.pending_offer
      then answer true k (Run.accept k.net)
      else if (c == 0x6E) && k.pending_offer
      then answer false k (Run.reject user_declined k.net)
      else if (c == 0x74) && has_pending_trust k.net
      then trust k (trust_device json k.net can_write)
      else if (c == 0x69) && has_pending_trust k.net
      then (record k { net = ignore_pending_trust k.net }, ignored ∷ [])
      else (k, [])

  unfoldable pub on_line : Console → Prompt → List ℕ → Console × List Output
  unfolding command choose
  on_line k menu [] = (k, [])
  on_line k menu (c ∷ cs) = command k c
  on_line k (choosing devices) text = choose k devices (stoi text)
  on_line k (naming d) text = (record k { net = (Run.send_file k.net d text).1; prompt = menu }, [])
  on_line k ended text = (k, [])
  on_line k crashed text = (k, [])

  unfoldable pub on_input : Console → Input → Console × List Output
  unfolding on_line
  on_input k (line text) = on_line k k.prompt text
  on_input k (offer op) = (record k { pending_offer = true }, incoming op ∷ [])
  on_input k (network n) = (record k { net = n }, [])

  unfoldable pub run : Console → List Input → Console × List Output
  unfolding on_input
  run k [] = (k, [])
  run k (input ∷ inputs) =
      let (k', outputs) = on_input k input in
      let (k'', more) = run k' inputs in (k'', outputs ++ more)
