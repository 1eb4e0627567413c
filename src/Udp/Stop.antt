-- ===== src/Udp/Stop.antt =====
-- UDPserver.py: start and stop of the server, and the registration of callbacks for connected clients.
use live_translation.Base.{
  ℕ, zero, suc, ◌+◌, Bool, true, false, none, some, List, [], ◌∷◌, ◌==◌, if◌then◌else◌, get_elem?,
  length, ℤ, pos, negsuc, map,
}
use live_translation.Base.Dict.{get}
use live_translation.Data.{Text}
use live_translation.Event.{EventHandler, add_event, remove_event}
use live_translation.Ogg.Bytes.{bytes_eq}
use live_translation.Udp.{Server, Locked, done, deadlock, stop_client}

-- The socket is made with the server, and closed by `stop`; the callbacks are those of `on_connected`.
pub record UdpLife : Type 0 where
  pub server : Server
  pub socket_closed : Bool
  pub listening : Bool
  pub connected_callbacks : EventHandler ℕ

-- `bind` raises where the address is taken, or the socket closed; what has been set before stays.
pub record Started : Type 0 where
  pub life : UdpLife
  pub raises : Bool

abbrev pub set_running : UdpLife → Bool → UdpLife
set_running self b = record self { server = record self.server { running = b } }

unfoldable pub start_udp : UdpLife → (is_free : Bool) → Started
start_udp self is_free =
    if self.server.running
    then record { life = self; raises = false }
    else if self.socket_closed
    then record { life = set_running self true; raises = true }
    else if is_free
    then record { life = record (set_running self true) { listening = true }; raises = false }
    else record { life = set_running self true; raises = true }

-- The list of a host as it is now: the loop goes on in the list that `_remove_client` changes.
abbrev pub current_list : Server → Text → List ℕ
current_list self host = elim (get bytes_eq self.clients host) as (λ _. List ℕ) [
  | none ↦ []
  | some refs ↦ refs
]

-- `for client in clientslist`, from the place `i` on; no list grows, so it has as many rounds as the list
-- has clients at first.
unfoldable pub stop_list : ℕ → Server → Text → ℕ → Locked Server
unfolding stop_client
stop_list zero self host i = done self
stop_list (suc rounds) self host i = elim (get_elem? (current_list self host) i) [
  | none ↦ done self
  | some r ↦ elim (stop_client self r) [
    | deadlock ↦ deadlock
    | done s ↦ stop_list rounds s host (i + 1)
  ]
]

-- `for clientslistaddr in tempclients`
unfoldable pub stop_lists : Server → List Text → Locked Server
unfolding stop_list
stop_lists self [] = done self
stop_lists self (host ∷ hosts) = elim (stop_list (length (current_list self host)) self host 0) [
  | deadlock ↦ deadlock
  | done s ↦ stop_lists s hosts
]

unfoldable pub stop_udp : UdpLife → Locked UdpLife
unfolding stop_lists
stop_udp self =
    if self.server.running
    then elim (stop_lists (record self.server { running = false })
        (map (λ e. e.0) self.server.clients)) [
          | deadlock ↦ deadlock
          | done s ↦ done (record self { server = s; socket_closed = true; listening = false })
        ]
    else done self

-- `on_connected`, with the number of parameters that the callback has.
unfoldable pub on_udp_connected : UdpLife → ℕ → ℕ → UdpLife × ℤ
unfolding add_event
on_udp_connected self num_params callback =
    if num_params == 1
    then (
      record self { connected_callbacks = (add_event self.connected_callbacks callback).0 },
      pos (add_event self.connected_callbacks callback).1,
    )
    else (self, negsuc 0)

unfoldable pub remove_on_connected : UdpLife → ℕ → UdpLife
unfolding remove_event
remove_on_connected self callback_id = record self {
  connected_callbacks = remove_event self.connected_callbacks callback_id;
}
