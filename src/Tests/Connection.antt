-- ===== src/Tests/Connection.antt =====
-- A connection without encryption, with the wrong token and with the right one, and one with encryption.
use live_translation.Base.{
  ℕ, pos, ◌-ℤ◌, ◌≡◌, refl, ◌⊎◌, true, false, none, some, List, [], ◌∷◌, ◌++◌, drop, length,
}
use live_translation.Data.{Bytes}
use live_translation.Ogg.Utf8.{decode}
use live_translation.Tcp.{
  bytes, Round, Action, sent, connected, message, ping, disconnected, removed, ping_timed_out,
  TcpClient, TcpLib, start, validate_token, listen_for_clientkey, listen, listen_round,
}
use live_translation.Tcp.Quiet.{IsQuiet}
use live_translation.Tcp.Opened.{Opened}
use live_translation.Tcp.Token.{start-Guarded}

abbrev pub lib : TcpLib
lib = record {
  aes_decrypt = λ d k i. d;
  aes_encrypt = λ d k i. d;
  rsa_decrypt = λ d. some d;
  can_send = λ log d. true;
}

abbrev pub client : TcpClient
client = record {
  conn = true;
  running = false;
  encryption = 0;
  last_ping = pos 0;
  ping_timeout_time = pos 5;
  server_publickey = none;
  server_privatekey = false;
  client_key = none;
  client_initkey = none;
  secret_token = 107 ∷ [];
  log = [];
}

abbrev pub at : ℕ → Bytes → Round
at now data_ = record { now = pos now; received = bytes data_ }

abbrev wrong : List Round
wrong = at 1 (120 ∷ []) ∷ at 2 (107 ∷ []) ∷ []

abbrev right : List Round
right =
    at 1 [] ∷ at 2 (107 ∷ []) ∷ at 3 (80 ∷ 73 ∷ 78 ∷ 71 ∷ []) ∷ at 4 (1 ∷ []) ∷ at 20 (2 ∷ []) ∷ []

abbrev ok_sent : Action
ok_sent = sent (79 ∷ 75 ∷ [])

refused : (start lib client (pos 0) (pos 0) wrong).log ≡ ok_sent ∷ disconnected ∷ removed ∷ []
unfolding start validate_token listen listen_round listen_for_clientkey decode ◌-ℤ◌
refused = refl

-- The ping comes in time, the last round does not.
served :
    (start lib client (pos 0) (pos 0) right).log
    ≡ ok_sent
      ∷ connected
      ∷ ping
      ∷ sent (80 ∷ 79 ∷ 78 ∷ 71 ∷ [])
      ∷ message (1 ∷ [])
      ∷ ping_timed_out
      ∷ disconnected
      ∷ removed
      ∷ []
unfolding start validate_token listen listen_round listen_for_clientkey decode ◌-ℤ◌
served = refl

-- A private key that takes off a byte, and a cipher that takes off as many as the key has.
abbrev coded_lib : TcpLib
coded_lib = record {
  aes_decrypt = λ d k i. drop (length k) d;
  aes_encrypt = λ d k i. k ++ d;
  rsa_decrypt = λ d. some (drop 1 d);
  can_send = λ log d. true;
}

abbrev coded_client : TcpClient
coded_client = record client {
  encryption = 1;
  server_publickey = some (7 ∷ []);
  server_privatekey = true;
}

abbrev sixteen : Bytes
sixteen = 1 ∷ 2 ∷ 3 ∷ 4 ∷ 5 ∷ 6 ∷ 7 ∷ 8 ∷ 9 ∷ 10 ∷ 11 ∷ 12 ∷ 13 ∷ 14 ∷ 15 ∷ 16 ∷ []

-- The keys come late, and the token four units after them.
abbrev coded : List Round
coded = at 4 (0 ∷ sixteen ++ 5 ∷ []) ∷ at 8 (99 ∷ 107 ∷ []) ∷ []

served_coded :
    (start coded_lib coded_client (pos 0) (pos 4) coded).log
    ≡ sent (7 ∷ []) ∷ sent (5 ∷ 79 ∷ 75 ∷ []) ∷ connected ∷ []
unfolding start validate_token listen listen_round listen_for_clientkey decode ◌-ℤ◌
served_coded = refl

start-Guarded_example :
    IsQuiet (start coded_lib coded_client (pos 0) (pos 4) coded)
    ⊎ Opened coded_lib 1 (107 ∷ []) coded
start-Guarded_example = start-Guarded coded_lib coded_client (pos 0) (pos 4) coded tt
