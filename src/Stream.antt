-- ===== src/Stream.antt =====
-- StreamServer.py: how a TCP client that has connected becomes a client with a UDP side, and how it
-- goes again. The TCP side of `stop` is Tcp.stop; here are the table of clients and the UDP server.
pub mod Delegates
use live_translation.Base.{
  ℕ, ◌≡◌, refl, ap, ◌∙◌, Bool, true, false, not, ◌&&◌, Option, none, some, List, ◌==◌, All, arith,
}
use live_translation.Base.Dict.{put, pop, put-append, pop-append}
use live_translation.Data.{Text, Bytes, Result, ok, err, value_error}
use live_translation.Event.{EventHandler, emit}
use live_translation.Ogg.Bytes.{bytes_eq}
use live_translation.Udp
use live_translation.Udp.Whitelist.{set_client-same}
use live_translation.Udp.Routing.{bytes_eq_refl}

abbrev pub Address : Type 0
Address = Text × ℕ

abbrev pub same_address : Address → Address → Bool
same_address a b = bytes_eq a.0 b.0 && a.1 == b.1

-- The UDP client is known by its place in the store of the UDP server.
pub record StreamClient : Type 0 where
  pub tcp_address : Address
  pub udpclient : ℕ

pub record StreamServer : Type 0 where
  pub external_host : Text
  pub external_udpport : ℕ
  pub clients : List (Address × StreamClient)
  pub udpserver : Udp.Server
  pub connected_callbacks : EventHandler ℕ

-- What `_on_tcp_connected` leaves: the server, the new client, what is sent to it, and the callbacks
-- that are run on it.
pub record Connected : Type 0 where
  pub server : StreamServer
  pub client : StreamClient
  pub sent : Bytes
  pub callbacks : List ℕ

-- `Client.stop`, but for the TCP side: the UDP side, and `_remove_client`.
unfoldable pub stop_stream_client : StreamServer → StreamClient → Udp.Locked StreamServer
stop_stream_client self client = elim (Udp.stop_client self.udpserver client.udpclient) [
  | Udp.deadlock ↦ Udp.deadlock
  | Udp.done u ↦
      Udp.done
        (record self { udpserver = u; clients = pop same_address self.clients client.tcp_address })
]

-- `init_message host port encryption` is the JSON object that tells a client where to send.
module _ (init_message : Text → ℕ → Bool → Bytes) where
  abbrev join_client : StreamServer → Address → Bytes → Bytes → Connected
  join_client self address aes_key aes_initkey =
      let added = Udp.add_client self.udpserver address.0 aes_key aes_initkey in
      let client : StreamClient = record { tcp_address = address; udpclient = added.1 } in
      record {
        server = record self {
          udpserver = added.0;
          clients = put same_address self.clients address client;
        };
        client = client;
        sent =
            init_message self.external_host self.external_udpport
              (added.0.store added.1).encryption;
        callbacks = emit self.connected_callbacks;
      }

  -- `_on_tcp_connected`, by the address and the keys of the TCP client.
  unfoldable pub connect : StreamServer → Address → Option Bytes → Option Bytes → Result Connected
  connect self address none iv = err (value_error "AES key or initialization key is None.")
  connect self address (some k) none = err (value_error "AES key or initialization key is None.")
  connect self address (some k) (some iv) = ok (join_client self address k iv)

  stop_unbound :
      (self : Udp.Server) (r : ℕ)
      → (self.store r).port ≡ none
      → Udp.stop_client self r ≡ Udp.done self
  unfolding Udp.stop_client
  stop_unbound self r e = rw (e, Udp.stop_client)

  added-port :
      (self : Udp.Server) (host : Text) (k iv : Bytes)
      → ((Udp.add_client self host k iv).0.store (Udp.add_client self host k iv).1).port ≡ none
  unfolding Udp.add_client
  added-port self host k iv =
      ap (λ c. c.port)
        (set_client-same self.store self.next_client
          (Udp.new_client host (not (self.encryption == 0)) k iv))

  same_address_refl : (a : Address) → same_address a a ≡ true
  same_address_refl a = let e : (a.1 == a.1) ≡ true = ground arith in rw (bytes_eq_refl a.0, e)

  -- A client with both keys connects from an address that is not in the table; if it stops without
  -- having sent a datagram, the table is as before, but the UDP server keeps its side on the
  -- whitelist.
  pub connect-stop :
      (self : StreamServer) (address : Address) (k iv : Bytes)
      → All (λ e. same_address e.0 address ≡ false) self.clients
      → (c : Connected) × (connect self address (some k) (some iv) ≡ ok c)
        × (stop_stream_client c.server c.client
            ≡ Udp.done
                (record self { udpserver = (Udp.add_client self.udpserver address.0 k iv).0 }))
  unfolding connect stop_stream_client
  connect-stop self address k iv fresh =
      let c = join_client self address k iv in
      let e = put-append same_address self.clients address c.client fresh in
      let p =
        pop-append same_address self.clients address c.client (same_address_refl address) fresh in
      (
        c,
        refl,
        rw
            (
              stop_unbound c.server.udpserver c.client.udpclient
                  (added-port self.udpserver address.0 k iv),
              stop_stream_client,
            )
            (ap
              (λ es. Udp.done (record self {
                udpserver = (Udp.add_client self.udpserver address.0 k iv).0;
                clients = es;
              }))
              (ap (λ es. pop same_address es address) e ∙ p)),
      )
