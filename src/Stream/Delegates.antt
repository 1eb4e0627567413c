-- ===== src/Stream/Delegates.antt =====
-- StreamServer.py: the calls that a client and the server hand on to their TCP and UDP sides. A callback
-- that is wrapped in a lambda keeps its number; the wrapper has the parameters that the event asks for.
use live_translation.Base.{ℕ, Bool, true, false, Option, ℤ, pos, negsuc, ◌==◌, if◌then◌else◌}
use live_translation.Event.{add_event, remove_event}
use live_translation.Stream.{StreamServer}
use live_translation.Tcp.Callbacks.{
  TcpCallbacks, message_event, disconnected_event, timeout_event, on_tcp_event, remove_tcp_event,
}
use live_translation.Tcp.Lifecycle.{Life, Fate, start_server}
use live_translation.Udp.{UdpClient, on_event, remove_callback}
use live_translation.Udp.Stop.{UdpLife, start_udp}

unfoldable pub on_tcp_message : TcpCallbacks → ℕ → TcpCallbacks × Option ℕ
on_tcp_message tcpclient callback = on_tcp_event tcpclient message_event 2 callback

unfoldable pub remove_on_tcp_message : TcpCallbacks → ℕ → TcpCallbacks
remove_on_tcp_message tcpclient callback_id = remove_tcp_event tcpclient message_event callback_id

unfoldable pub on_udp_message : UdpClient → ℕ → UdpClient × ℤ
on_udp_message udpclient callback = on_event udpclient true 2 callback

unfoldable pub remove_on_udp_message : UdpClient → ℕ → UdpClient
remove_on_udp_message udpclient callback_id = remove_callback udpclient true callback_id

unfoldable pub on_disconnected : TcpCallbacks → ℕ → TcpCallbacks × Option ℕ
on_disconnected tcpclient callback = on_tcp_event tcpclient disconnected_event 1 callback

unfoldable pub remove_on_disconnected : TcpCallbacks → ℕ → TcpCallbacks
remove_on_disconnected tcpclient callback_id =
    remove_tcp_event tcpclient disconnected_event callback_id

unfoldable pub on_timeout : TcpCallbacks → ℕ → TcpCallbacks × Option ℕ
on_timeout tcpclient callback = on_tcp_event tcpclient timeout_event 1 callback

unfoldable pub remove_on_timeout : TcpCallbacks → ℕ → TcpCallbacks
remove_on_timeout tcpclient callback_id = remove_tcp_event tcpclient timeout_event callback_id

-- `Client.__init__`: the client stops with its TCP side; `stop` is the number of its own method.
unfoldable pub follow_tcp : TcpCallbacks → (stop : ℕ) → TcpCallbacks
unfolding on_tcp_event
follow_tcp tcpclient stop =
    (on_tcp_event (on_tcp_event tcpclient disconnected_event 1 stop).0 timeout_event 1 stop).0

-- `on_connected` of the server, with the number of parameters that the callback has.
unfoldable pub on_stream_connected : StreamServer → ℕ → ℕ → StreamServer × ℤ
unfolding add_event
on_stream_connected self num_params callback =
    if num_params == 1
    then (
      record self { connected_callbacks = (add_event self.connected_callbacks callback).0 },
      pos (add_event self.connected_callbacks callback).1,
    )
    else (self, negsuc 0)

unfoldable pub remove_on_stream_connected : StreamServer → ℕ → StreamServer
unfolding remove_event
remove_on_stream_connected self callback_id = record self {
  connected_callbacks = remove_event self.connected_callbacks callback_id;
}

-- The two servers. `bind` of the UDP server may raise, when the TCP server runs already.
pub record Servers : Type 0 where
  pub tcpserver : Life
  pub udpserver : UdpLife

pub record ServersStarted : Type 0 where
  pub servers : Servers
  pub raises : Bool

unfoldable pub start_servers : Servers → Fate → (is_free : Bool) → ServersStarted
unfolding start_server start_udp
start_servers self fate is_free =
    if self.tcpserver.server.running
    then record { servers = self; raises = false }
    else if self.udpserver.server.running
    then record { servers = self; raises = false }
    else record {
      servers = record {
        tcpserver = start_server self.tcpserver fate;
        udpserver = (start_udp self.udpserver is_free).life;
      };
      raises = (start_udp self.udpserver is_free).raises;
    }
