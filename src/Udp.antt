-- ===== src/Udp.antt =====
-- UDPserver.py: the clients that may send, how a datagram finds its client, and removal. The objects
-- of class Client lie in a store and are known by their place there, since lists of the server and its
-- users share them. The lock of the clients is a field, and one that is not free never opens.
pub mod Whitelist
pub mod Reach
pub mod Stop
pub mod Routing
use live_translation.Base.{
  ℕ, zero, suc, ◌+◌, Bool, true, false, not, ◌&&◌, Option, none, some, List, [], ◌∷◌, ◌++◌, ◌==◌,
  if◌then◌else◌, ℤ, pos, negsuc,
}
use live_translation.Base.Dict.{get, put, pop}
use live_translation.Data.{Text, Bytes}
use live_translation.Event.{EventHandler, new_handler, add_event, remove_event, emit}
use live_translation.Ogg.Bytes.{bytes_eq}

-- A callback is known by a number.
pub record UdpClient : Type 0 where
  pub host : Text
  pub port : Option ℕ
  pub encryption : Bool
  pub aes_key : Bytes
  pub aes_initkey : Bytes
  pub message_callback : EventHandler ℕ

-- `Client(on_remove, host, encryption, aes_key, aes_initkey)`; `on_remove` is the server's method.
abbrev pub new_client : Text → Bool → Bytes → Bytes → UdpClient
new_client host encryption aes_key aes_initkey = record {
  host = host;
  port = none;
  encryption = encryption;
  aes_key = aes_key;
  aes_initkey = aes_initkey;
  message_callback = new_handler;
}

-- `on_event`, with the number of parameters that the callback has; -1 where it is refused.
unfoldable pub on_event : UdpClient → Bool → ℕ → ℕ → UdpClient × ℤ
unfolding add_event
on_event self is_message num_params callback =
    if is_message && num_params == 2
    then (
      record self { message_callback = (add_event self.message_callback callback).0 },
      pos (add_event self.message_callback callback).1,
    )
    else (self, negsuc 0)

unfoldable pub remove_callback : UdpClient → Bool → ℕ → UdpClient
unfolding remove_event
remove_callback self is_message callback_id =
    if is_message
    then record self { message_callback = remove_event self.message_callback callback_id }
    else self

-- `c.address() == (host, port)`
abbrev pub has_address : Text → ℕ → UdpClient → Bool
has_address host port c = elim c.port [ none ↦ false | some p ↦ bytes_eq c.host host && p == port ]

pub record Server : Type 0 where
  pub running : Bool
  pub encryption : ℕ
  pub clients : List (Text × List ℕ)
  pub lock_held : Bool
  pub store : ℕ → UdpClient
  pub next_client : ℕ

-- What a call does that takes the lock.
pub data Locked {ℓ} (A : Type ℓ) : Type ℓ where
  done : A → Locked A
  deadlock : Locked A

abbrev pub set_client : (ℕ → UdpClient) → ℕ → UdpClient → ℕ → UdpClient
set_client store r c q = if q == r then c else store q

-- `add_client`: the server, and the client that is returned.
unfoldable pub add_client : Server → Text → Bytes → Bytes → Server × ℕ
add_client self host aes_key aes_initkey =
    let client = self.next_client in
    let clientslist = elim (get bytes_eq self.clients host) as (λ _. List ℕ) [
      | none ↦ []
      | some refs ↦ refs
    ] in
    (
      record self {
        store =
            set_client self.store client
              (new_client host (not (self.encryption == 0)) aes_key aes_initkey);
        next_client = client + 1;
        clients = put bytes_eq self.clients host (clientslist ++ client ∷ []);
      },
      client,
    )

-- The first client of a list that has the address.
unfoldable pub find_address : (ℕ → UdpClient) → Text → ℕ → List ℕ → Option ℕ
find_address store host port [] = none
find_address store host port (r ∷ rs) =
    let rest = find_address store host port rs in
    if has_address host port (store r) then some r else rest

-- The loop of `_remove_client`: that client leaves the list.
unfoldable pub remove_address : (ℕ → UdpClient) → Text → ℕ → List ℕ → List ℕ
remove_address store host port [] = []
remove_address store host port (r ∷ rs) =
    let rest = remove_address store host port rs in
    if has_address host port (store r) then rs else r ∷ rest

abbrev pub keep_list : List (Text × List ℕ) → Text → List ℕ → List (Text × List ℕ)
keep_list clients host [] = pop bytes_eq clients host
keep_list clients host (r ∷ rs) = put bytes_eq clients host (r ∷ rs)

-- The part of `_remove_client` under the lock.
unfoldable pub take_out : Server → Text → ℕ → Server
take_out self host port = elim (get bytes_eq self.clients host) [
  | none ↦ self
  | some refs ↦ record self {
    clients = keep_list self.clients host (remove_address self.store host port refs);
  }
]

-- `_remove_client`
unfoldable pub remove_client_ : Server → Text → ℕ → Locked Server
remove_client_ self host port = if self.lock_held then deadlock else done (take_out self host port)

-- `Client.stop`
unfoldable pub stop_client : Server → ℕ → Locked Server
unfolding remove_client_
stop_client self r = elim (self.store r).port [
  | none ↦ done self
  | some port ↦
      remove_client_
        (record self {
          store =
              set_client self.store r (record (self.store r) { message_callback = new_handler });
        })
        (self.store r).host port
]

abbrev pub release : Locked Server → Locked Server
release deadlock = deadlock
release (done s) = done (record s { lock_held = false })

-- `remove_client`, which stops the client while it holds the lock.
unfoldable pub remove_client : Server → Text → ℕ → Locked Server
unfolding stop_client
remove_client self host port =
    if self.lock_held then deadlock else elim (get bytes_eq self.clients host) [
      | none ↦ done self
      | some refs ↦ elim (find_address self.store host port refs) [
        | none ↦ done self
        | some r ↦ release (stop_client (record self { lock_held = true }) r)
      ]
    ]

-- The first client of a list without a port.
unfoldable pub find_unbound : (ℕ → UdpClient) → List ℕ → Option ℕ
find_unbound store [] = none
find_unbound store (r ∷ rs) =
    let rest = find_unbound store rs in elim (store r).port [ none ↦ some r | some p ↦ rest ]

abbrev pub bind_port : Server → ℕ → ℕ → Server
bind_port self r port = record self {
  store = set_client self.store r (record (self.store r) { port = some port });
}

-- What a datagram sets off: callbacks for a client that has connected, or for its message.
pub data Call : Type 0 where
  connected : ℕ → Call
  message : ℕ → Bytes → List ℕ → Call

-- The client of a datagram, by its address, or else the first one without a port, which is bound.
unfoldable pub choose_client : Server → Text → ℕ → List ℕ → Server × Option ℕ
choose_client self host port clientlist = elim (find_address self.store host port clientlist) [
  | some c ↦ (self, some c)
  | none ↦ elim (find_unbound self.store clientlist) [
    | none ↦ (self, none)
    | some c ↦ (bind_port self c port, some c)
  ]
]

-- `if client._port is None`
unfoldable pub announce : Server → ℕ → ℕ → Server × List Call
announce self c port = elim (self.store c).port [
  | none ↦ (bind_port self c port, connected c ∷ [])
  | some p ↦ (self, [])
]

-- `decrypt data key iv` is the AES cipher of the cryptography package.
module _ (decrypt : Bytes → Bytes → Bytes → Bytes) where
  unfoldable pub deliver : Server → ℕ → Bytes → Call
  unfolding emit
  deliver self c data_ =
      let client = self.store c in
      message c
        (if self.encryption == 0 then data_ else decrypt data_ client.aes_key client.aes_initkey)
        (emit client.message_callback)

  abbrev pub handle_client : Server × Option ℕ → ℕ → Bytes → Server × List Call
  handle_client (self, none) port data_ = (self, [])
  handle_client (self, some c) port data_ =
      let s = (announce self c port).0 in (s, (announce self c port).1 ++ deliver s c data_ ∷ [])

  -- One round of `_listen`, on a datagram.
  unfoldable pub receive : Server → Text → ℕ → Bytes → Server × List Call
  unfolding choose_client announce
  receive self host port data_ = elim (get bytes_eq self.clients host) [
    | none ↦ (self, [])
    | some clientlist ↦ handle_client (choose_client self host port clientlist) port data_
  ]
