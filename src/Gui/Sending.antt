-- ===== src/Gui/Sending.antt =====
-- src/gui/mainWindow.cpp: sending a file, by the button or by a drop; the first run; closing.
pub mod Target
use net_transfer.Base.{
  is_empty, ℕ, Bool, true, false, List, [], ◌∷◌, ◌++◌, same, Option, none, some, if◌then◌else◌,
}
use net_transfer.Discovery.Devices.{DiscoveredDevice}
use net_transfer.App.{NetTransfer, Call, returned, thrown, undefined, set_device_name}
use net_transfer.App.Run
use net_transfer.App.Run.{Surroundings}
use net_transfer.App.Format.{Json}
use net_transfer.Gui.{
  MainWindow, Line, label, no_device_selected, could_not_match, no_devices, sending_to, sending,
}

abbrev pub write_log : MainWindow → Line → MainWindow
write_log w line = record w { log = w.log ++ line ∷ [] }

module _ (text bytes : List ℕ → List ℕ) where
  -- The loop over the devices: the first one whose label is the text.
  unfoldable pub match_device : List ℕ → List DiscoveredDevice → Option DiscoveredDevice
  match_device t [] = none
  match_device t (d ∷ ds) =
      let rest = match_device t ds in if same t (label text d) then some d else rest

  -- bridge->sendFile, the log and the progress bar.
  unfoldable pub send_to :
      MainWindow → NetTransfer → List ℕ → DiscoveredDevice → MainWindow × Call NetTransfer
  send_to w n path d = (
    record w {
      log = w.log ++ sending path (text d.name) ∷ [];
      progress_shown = true;
      progress_value = 0;
    },
    returned (Run.send_file n d (bytes path)).1,
  )

  -- The file goes to the device with the label `t`, if there is one.
  unfoldable pub send_matching :
      MainWindow
      → MainWindow
      → NetTransfer
      → List ℕ
      → List ℕ
      → Call (List DiscoveredDevice)
      → MainWindow × Call NetTransfer
  unfolding match_device send_to
  send_matching w lost n path t undefined = (w, undefined)
  send_matching w lost n path t (thrown devices) = (w, thrown n)
  send_matching w lost n path t (returned devices) = elim (match_device t devices) [
    | none ↦ (lost, returned n)
    | some d ↦ send_to w n path d
  ]

  -- onSendFile, with the file that was picked (empty if the user cancelled) and the text of the current
  -- item.
  unfoldable pub on_send_file :
      MainWindow → NetTransfer → List ℕ → Option (List ℕ) → MainWindow × Call NetTransfer
  unfolding send_matching
  on_send_file w n [] current = (w, returned n)
  on_send_file w n (c ∷ cs) none = (write_log w no_device_selected, returned n)
  on_send_file w n (c ∷ cs) (some t) =
      let w' = write_log w (sending_to t) in
      send_matching w' (write_log w' could_not_match) n (c ∷ cs) t (Run.get_devices n)

  -- The dialog of a drop beside the items: `answer` is the label that the user chose, if any.
  unfoldable pub ask_device :
      MainWindow
      → NetTransfer
      → List ℕ
      → Option (List ℕ)
      → Call (List DiscoveredDevice)
      → MainWindow × Call NetTransfer
  unfolding send_matching
  ask_device w n path answer undefined = (w, undefined)
  ask_device w n path answer (thrown devices) = (w, thrown n)
  ask_device w n path answer (returned []) = (write_log w no_devices, returned n)
  ask_device w n path none (returned (d ∷ ds)) = (w, returned n)
  ask_device w n path (some t) (returned (d ∷ ds)) = send_matching w w n path t (returned (d ∷ ds))

  -- dropEvent: on an item, or elsewhere.
  unfoldable pub drop_event :
      MainWindow
      → NetTransfer
      → List ℕ
      → Option (List ℕ)
      → Option (List ℕ)
      → MainWindow × Call NetTransfer
  unfolding ask_device send_matching
  drop_event w n [] item answer = (w, returned n)
  drop_event w n (c ∷ cs) (some t) answer = send_matching w w n (c ∷ cs) t (Run.get_devices n)
  drop_event w n (c ∷ cs) none answer = ask_device w n (c ∷ cs) answer (Run.get_devices n)

-- How the constructor's loop ends: with the answers not enough, by a return before `start` (a cancelled
-- dialog; the window is shown all the same), or with what `start` gives.
pub data Begun : Type 0 where
  asking : Begun
  quit : NetTransfer → Begun
  begun : Call (Bool × NetTransfer) → Begun

module _ (json : Json) (trimmed bytes : List ℕ → List ℕ) (around : Surroundings) where
  -- setDeviceName, whose result nobody looks at; an exception leaves the constructor.
  unfoldable pub named : Call (Bool × NetTransfer) → Option NetTransfer
  named (returned (saved, n)) = some n
  named (thrown (saved, n)) = none
  named undefined = none

  -- The constructor's loop: while there is no name, the user is asked for one. An answer is a text, or
  -- `none` for a cancelled dialog.
  unfoldable pub first_run : List (Option (List ℕ)) → NetTransfer → Begun
  unfolding named
  first_run [] n =
      if is_empty n.config.device_name then asking else begun (Run.start json around n).0
  first_run (answer ∷ answers) n = elim (is_empty n.config.device_name) [
    | false ↦ begun (Run.start json around n).0
    | true ↦ elim answer [
      | none ↦ quit n
      | some name ↦ elim (is_empty (trimmed name)) [
        | true ↦ first_run answers n
        | false ↦ elim (named (set_device_name json n (bytes (trimmed name)) around.can_write)) [
          | none ↦ begun (thrown (false, n))
          | some m ↦ first_run answers m
        ]
      ]
    ]
  ]

-- closeEvent
unfoldable pub close_event : NetTransfer → Bool → Bool → Call (Bool × NetTransfer)
close_event n udp_closed tcp_closed = Run.stop n udp_closed tcp_closed
