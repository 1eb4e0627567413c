-- ===== src/Tests/Servers.antt =====
-- The callbacks of an event, and a UDP server with one client.
use live_translation.Base.{ℕ, ◌≡◌, refl, [], ◌∷◌, ◌++◌, some, true, false, List, drop, length}
use live_translation.Base.Dict.{get, put, pop}
use live_translation.Data.{Text, Bytes}
use live_translation.Event.{
  EventHandler, new_handler, created, added, add_event, remove_event, emit, emit-add_event,
}
use live_translation.Ogg.Bytes.{bytes_eq}
use live_translation.Udp.{
  Server, new_client, Locked, done, deadlock, add_client, receive, message, find_address,
  find_unbound, choose_client, announce, deliver, remove_client, on_event, stop_client,
  remove_client_, take_out, remove_address, remove_callback,
}
use live_translation.Udp.Reach
use live_translation.Udp.Whitelist.{IsWhitelist}
use live_translation.Udp.Stop.{UdpLife, start_udp, stop_udp, stop_lists, stop_list}
use live_translation.Udp.Routing.{Routed, receive-Routed, remove_client-deadlock}

program : Unit {0}
unfolding get put pop add_event remove_event emit add_client receive find_address find_unbound
    choose_client announce deliver remove_client on_event stop_client remove_client_ take_out
    remove_address remove_callback
program = tt

abbrev handler : EventHandler ℕ
handler = (add_event new_handler 7).0

emit-add_event_example :
    (emit (add_event handler 8).0 ≡ emit handler ++ 8 ∷ [])
    × (emit (remove_event (add_event handler 8).0 (add_event handler 8).1) ≡ emit handler)
emit-add_event_example = emit-add_event 8 (added 7 created)

abbrev plain : Bytes → Bytes → Bytes → Bytes
plain data_ key iv = data_

abbrev localhost : Text
localhost = 49 ∷ 50 ∷ 55 ∷ []

abbrev empty : Server
empty = record {
  running = true;
  encryption = 0;
  clients = [];
  lock_held = false;
  store = λ r. new_client [] false [] [];
  next_client = 0;
}

abbrev server : Server
server = (add_client empty localhost [] []).0

abbrev bound : Server
bound = (receive plain server localhost 5000 (1 ∷ [])).0

server-Reached : Reach.Reached plain server
server-Reached = Reach.added localhost [] [] (Reach.created 0 (λ r. new_client [] false [] []))

-- The first datagram binds the client to its port, another port of the host is refused.
runs :
    ((receive plain server localhost 5000 (1 ∷ [])).1 ≡ message 0 (1 ∷ []) [] ∷ [])
    × ((receive plain bound localhost 5000 (2 ∷ [])).1 ≡ message 0 (2 ∷ []) [] ∷ [])
    × ((receive plain bound localhost 5001 (3 ∷ [])).1 ≡ [])
unfolding program
runs = (refl, refl, refl)

Reached-IsWhitelist_example : IsWhitelist bound
Reached-IsWhitelist_example =
    Reach.Reached-IsWhitelist plain (Reach.received localhost 5000 (1 ∷ []) server-Reached)

-- A cipher that takes off as many bytes as the key has.
abbrev coded : Bytes → Bytes → Bytes → Bytes
coded data_ key iv = drop (length key) data_

abbrev coded_server : Server
coded_server = (add_client (record empty { encryption = 1 }) localhost (9 ∷ []) []).0

decrypted : (receive coded coded_server localhost 5000 (3 ∷ 1 ∷ [])).1 ≡ message 0 (1 ∷ []) [] ∷ []
unfolding program
decrypted = refl

receive-Routed_example :
    Routed coded coded_server localhost 5000
      (3 ∷ 1 ∷ [])
      (receive coded coded_server localhost 5000 (3 ∷ 1 ∷ []))
receive-Routed_example =
    receive-Routed coded coded_server localhost 5000 (3 ∷ 1 ∷ [])
      (Reach.added localhost (9 ∷ []) [] (Reach.created 1 (λ r. new_client [] false [] [])))

listed :
    (get bytes_eq bound.clients localhost ≡ some (0 ∷ []))
    × (find_address bound.store localhost 5000 (0 ∷ []) ≡ some 0)
unfolding program
listed = (refl, refl)

still_free : bound.lock_held ≡ false
unfolding program
still_free = refl

remove_client-deadlock_example : remove_client bound localhost 5000 ≡ deadlock
remove_client-deadlock_example =
    remove_client-deadlock bound localhost 5000 0 (0 ∷ []) still_free listed.0 listed.1

-- Two clients of one host: the loop of `stop` leaves out the second, which is still listed.
abbrev two_bound : Server
two_bound =
    (receive plain (receive plain (add_client server localhost [] []).0 localhost 5000 []).0
      localhost 5001 []).0

abbrev life : UdpLife
life = record {
  server = two_bound;
  socket_closed = false;
  listening = true;
  connected_callbacks = new_handler;
}

abbrev clients_left : Locked UdpLife → List (Text × List ℕ)
clients_left deadlock = []
clients_left (done s) = s.server.clients

one_skipped : clients_left (stop_udp life) ≡ (localhost, 1 ∷ []) ∷ []
unfolding program stop_udp stop_lists stop_list
one_skipped = refl

-- The socket of a server that has stopped stays closed.
no_restart :
    (start_udp
      (record life { server = record empty { running = false }; socket_closed = true })
      true).raises
    ≡ true
unfolding start_udp
no_restart = refl
