-- ===== src/Tcp.antt =====
-- TCPserver.py, class Client: the life of a connection, from the keys and the token to pings and
-- messages. What the socket gives is a list of rounds: a time, and what `recv` comes to. What the
-- client sends, and the callbacks it runs, are kept in a log, in their order.
pub mod Quiet
pub mod Opened
pub mod Token
pub mod Silence
pub mod Callbacks
pub mod Server
pub mod Lifecycle
pub mod Stranded
use live_translation.Base.{
  ℕ, zero, suc, ◌-ℤ◌, ℤ, Bool, true, false, not, ◌&&◌, ◌||◌, Option, none, some, List, [], ◌∷◌,
  ◌++◌, ltb_ℤ, if◌then◌else◌, take, drop,
}
use live_translation.Data.{Text, Bytes, Result, ok, err}
use live_translation.Ogg.Bytes.{bytes_eq}
use live_translation.Ogg.Utf8.{decode}

pub data Received : Type 0 where
  bytes : Bytes → Received
  timed_out : Received
  socket_error : Received

pub record Round : Type 0 where
  pub now : ℤ
  pub received : Received

pub data Action : Type 0 where
  sent : Bytes → Action
  connected : Action
  message : Bytes → Action
  ping : Action
  ping_timed_out : Action
  disconnected : Action
  removed : Action

pub record TcpClient : Type 0 where
  pub conn : Bool
  pub running : Bool
  pub encryption : ℕ
  pub last_ping : ℤ
  pub ping_timeout_time : ℤ
  pub server_publickey : Option Bytes
  pub server_privatekey : Bool
  pub client_key : Option Bytes
  pub client_initkey : Option Bytes
  pub secret_token : Text
  pub log : List Action

-- What the client takes from its libraries: AES by a key of a size that it takes, decryption by
-- the private key, which may raise, and whether `sendall` succeeds, after what has been done.
pub record TcpLib : Type 0 where
  pub aes_decrypt : Bytes → Bytes → Bytes → Bytes
  pub aes_encrypt : Bytes → Bytes → Bytes → Bytes
  pub rsa_decrypt : Bytes → Option Bytes
  pub can_send : List Action → Bytes → Bool

abbrev pub log_action : TcpClient → Action → TcpClient
log_action self a = record self { log = self.log ++ a ∷ [] }

-- `stop`
abbrev pub stop : TcpClient → TcpClient
stop self =
    if self.running
    then (if self.conn
        then record self {
          running = false;
          conn = false;
          log = self.log ++ disconnected ∷ removed ∷ [];
        }
        else record self { running = false })
    else self

-- `_ping_timeout`
abbrev pub ping_timeout : TcpClient → TcpClient
ping_timeout self = stop (log_action self ping_timed_out)

abbrev pub is_set : Option Bytes → Bool
is_set none = false
is_set (some []) = false
is_set (some (b ∷ bs)) = true

-- `_encrypt` and `_decrypt`: nothing comes of them without both keys.
abbrev by_keys : (Bytes → Bytes → Bytes → Bytes) → Option Bytes → Option Bytes → Bytes → Bytes
by_keys aes none iv data_ = []
by_keys aes (some k) none data_ = []
by_keys aes (some k) (some iv) data_ = aes data_ k iv

abbrev pub encrypts : TcpClient → Bool
encrypts self = elim self.encryption as (λ _. Bool) [ zero ↦ false | suc n ↦ true ]

abbrev pub is_late : TcpClient → ℤ → Bool
is_late self now = ltb_ℤ self.ping_timeout_time (now -ℤ self.last_ping)

-- How `_validate_token` and `_listen_for_clientkey` end: with their result, by an exception that
-- they do not catch, or not yet.
pub data Verdict : Type 0 where
  returned : Bool → Verdict
  raised : Verdict
  waiting : Verdict

-- `data.decode('utf-8') != self.secretToken`
abbrev pub check_token : TcpClient → Result Text → Verdict
check_token self (err e) = raised
check_token self (ok text) = returned (bytes_eq text self.secret_token)

pub record Validated : Type 0 where
  pub client : TcpClient
  pub verdict : Verdict
  pub rest : List Round

abbrev give : TcpClient → Verdict → List Round → Validated
give c v rs = record { client = c; verdict = v; rest = rs }

abbrev take_keys : TcpClient → Option Bytes → List Round → Validated
take_keys self none rs = give (stop self) (returned false) rs
take_keys self (some init_and_key) rs =
    give
      (record self {
        client_initkey = some (take 16 init_and_key);
        client_key = some (drop 16 init_and_key);
      })
      (returned true) rs

-- b"PING", b"PONG" and b"OK"
abbrev pub ping_message : Bytes
ping_message = 80 ∷ 73 ∷ 78 ∷ 71 ∷ []

abbrev pub pong_message : Bytes
pong_message = 80 ∷ 79 ∷ 78 ∷ 71 ∷ []

abbrev pub ok_message : Bytes
ok_message = 79 ∷ 75 ∷ []

module _ (lib : TcpLib) where
  abbrev pub plain : TcpClient → Bytes → Bytes
  plain self data_ =
      if encrypts self
      then by_keys lib.aes_decrypt self.client_key self.client_initkey data_
      else data_

  abbrev pub coded : TcpClient → Bytes → Bytes
  coded self data_ =
      if encrypts self && (is_set self.client_key && is_set self.client_initkey)
      then by_keys lib.aes_encrypt self.client_key self.client_initkey data_
      else data_

  -- `send`
  abbrev pub send : TcpClient → Bytes → TcpClient
  send self data_ =
      if self.conn && lib.can_send self.log (coded self data_)
      then log_action self (sent (coded self data_))
      else stop self

  -- `_validate_token`
  unfoldable pub validate_token : TcpClient → List Round → Validated
  validate_token self [] = give self waiting []
  validate_token self (r ∷ rs) =
      let again = validate_token self rs in
      if not self.running || not self.conn
      then give self (returned false) (r ∷ rs)
      else (if is_late self r.now
          then give (ping_timeout self) (returned false) rs
          else (elim r.received as (λ _. Validated) [
            | bytes [] ↦ again
            | bytes (b ∷ bs) ↦ give self (check_token self (decode (plain self (b ∷ bs)))) rs
            | timed_out ↦ give (ping_timeout self) (returned false) rs
            | socket_error ↦ give (stop self) (returned false) rs
          ]))

  -- `_listen_for_clientkey`: the first round decides.
  unfoldable pub listen_for_clientkey : TcpClient → List Round → Validated
  listen_for_clientkey self [] = give self waiting []
  listen_for_clientkey self (r ∷ rs) =
      if not self.conn || (not self.server_privatekey || not self.running)
      then give self (returned false) (r ∷ rs)
      else (if is_late self r.now
          then give (ping_timeout self) (returned false) rs
          else (elim r.received as (λ _. Validated) [
            | bytes [] ↦ give (stop self) (returned false) rs
            | bytes (b ∷ bs) ↦ take_keys self (lib.rsa_decrypt (b ∷ bs)) rs
            | timed_out ↦ give (ping_timeout self) (returned false) rs
            | socket_error ↦ give (stop self) (returned false) rs
          ]))

  -- `_handle_ping`, or the callbacks of a message.
  abbrev pub handle_data : TcpClient → ℤ → Bytes → TcpClient
  handle_data self now data_ =
      if bytes_eq data_ ping_message
      then send (log_action (record self { last_ping = now }) ping) pong_message
      else log_action self (message data_)

  -- One round of `_listen`.
  unfoldable pub listen_round : TcpClient → Round → TcpClient
  listen_round self r =
      if is_late self r.now then ping_timeout self else (elim r.received as (λ _. TcpClient) [
        | bytes [] ↦ self
        | bytes (b ∷ bs) ↦ handle_data self r.now (plain self (b ∷ bs))
        | timed_out ↦ ping_timeout self
        | socket_error ↦ stop self
      ])

  unfoldable pub listen : TcpClient → List Round → TcpClient
  listen self [] = self
  listen self (r ∷ rs) =
      let next = listen (listen_round self r) rs in if self.running && self.conn then next else self

  -- `start` behind the token.
  abbrev pub authorize : Validated → TcpClient
  authorize v = elim v.verdict as (λ _. TcpClient) [
    | returned true ↦ listen (log_action v.client connected) v.rest
    | returned false ↦ stop v.client
    | raised ↦ v.client
    | waiting ↦ v.client
  ]

  -- `start` behind the keys; `now` is the time once the greeting has been sent.
  abbrev pub greet : TcpClient → ℤ → List Round → TcpClient
  greet self now rs =
      authorize (validate_token (record (send self ok_message) { last_ping = now }) rs)

  abbrev pub send_server_publickey : TcpClient → TcpClient
  send_server_publickey self = elim self.server_publickey as (λ _. TcpClient) [
    | none ↦ self
    | some k ↦ send self k
  ]

  abbrev pub exchange : Validated → ℤ → TcpClient
  exchange v greeted = elim v.verdict as (λ _. TcpClient) [
    | returned true ↦ greet v.client greeted v.rest
    | returned false ↦ v.client
    | raised ↦ v.client
    | waiting ↦ v.client
  ]

  -- `start`, at the time `now`, and at the time `greeted` once the keys have been exchanged and the
  -- greeting has been sent.
  unfoldable pub start : TcpClient → ℤ → ℤ → List Round → TcpClient
  start self now greeted rs =
      let client = record self { running = true; last_ping = now } in
      if not self.conn || self.running
      then self
      else (if encrypts self
          then exchange (listen_for_clientkey (send_server_publickey client) rs) greeted
          else greet client greeted rs)
