-- ===== src/Tests/Clients.antt =====
-- A stream client that comes and goes, and the callbacks of a TCP client.
use live_translation.Base.{◌≡◌, ◌≢◌, [], ◌∷◌, true, false, some, pos, negsuc, refl, ◌+ℤ◌, ◌-ℤ◌}
use live_translation.Data.{Text, ok}
use live_translation.Event.{new_handler, created}
use live_translation.Udp
use live_translation.Tcp.Server
use live_translation.Tcp.Server.{ServerReached-IsCounted}
use live_translation.Stream.{StreamServer, Connected, connect, connect-stop, stop_stream_client}
use live_translation.Tcp.Callbacks.{
  TcpCallbacks, message_event, other, Registered, on_tcp_event-Registered,
}

abbrev localhost : Text
localhost = 49 ∷ 50 ∷ 55 ∷ []

abbrev server : StreamServer
server = record {
  external_host = localhost;
  external_udpport = 5001;
  clients = [];
  udpserver = record {
    running = true;
    encryption = 1;
    clients = [];
    lock_held = false;
    store = λ r. Udp.new_client [] false [] [];
    next_client = 0;
  };
  connected_callbacks = new_handler;
}

connect-stop_example :
    (c : Connected) × (connect
        (λ h p e. p ∷ [])
        server
        (localhost, 4000)
        (some (1 ∷ []))
        (some (2 ∷ []))
      ≡ ok c)
    × (stop_stream_client c.server c.client
        ≡ Udp.done (record server {
          udpserver = (Udp.add_client server.udpserver localhost (1 ∷ []) (2 ∷ [])).0;
        }))
connect-stop_example = connect-stop (λ h p e. p ∷ []) server (localhost, 4000) (1 ∷ []) (2 ∷ []) tt

abbrev callbacks : TcpCallbacks
callbacks = record {
  disconnected_callbacks = new_handler;
  timeout_callbacks = new_handler;
  message_callbacks = new_handler;
  ping_callbacks = new_handler;
}

message-ne-other : message_event ≢ other
message-ne-other e = cc

on_tcp_event-Registered_example : Registered callbacks message_event 7
on_tcp_event-Registered_example =
    on_tcp_event-Registered callbacks message_event 7
      (record {
        disconnected_reached = created;
        timeout_reached = created;
        message_reached = created;
        ping_reached = created;
      })
      message-ne-other

-- Client 8 leaves after it has been appended, and before it is counted.
abbrev left_early : Server.TcpServer
left_early = record { running = true; clients = []; active_clients_count = negsuc 0 }

left_early-ServerReached : Server.ServerReached left_early 1
unfolding Server.append_client Server.drop_client Server.list_remove ◌-ℤ◌
left_early-ServerReached = Server.dropped 8 (Server.appended 8 refl Server.started) refl

ServerReached-IsCounted_example : negsuc 0 +ℤ pos 1 ≡ pos 0
ServerReached-IsCounted_example = ServerReached-IsCounted left_early-ServerReached
