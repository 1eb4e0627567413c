-- ===== src/Tests/Lifecycle.antt =====
-- A silent client, and servers that start and stop.
use live_translation.Base.{
  ℕ, ◌≡◌, refl, ap, sym, ◌∙◌, true, false, Bool, ◌||◌, List, [], ◌∷◌, pos, ◌-ℤ◌, ◌==◌,
}
use live_translation.Data.{ok}
use live_translation.Ogg.Bytes.{bytes_eq}
use live_translation.Tcp.{TcpClient, Round, listen, ping_message}
use live_translation.Tcp.Silence.{IsClosed, IsPingless, listen-IsClosed}
use live_translation.Tcp.Server.{IsCounted}
use live_translation.Tcp.Lifecycle.{
  Life, stop_server, stop_server-clients, served, start_server, not_bound,
}
use live_translation.Tcp.Stranded.{use_all, starts, stops, start_server-stranded}
use live_translation.Tests.Connection.{lib, client, at}

abbrev listening : TcpClient
listening = record client { conn = true; running = true }

-- It sends messages, but no ping.
abbrev silent : List Round
silent = at 1 (1 ∷ []) ∷ at 4 [] ∷ at 5 (80 ∷ 73 ∷ []) ∷ at 6 (2 ∷ []) ∷ at 7 (3 ∷ []) ∷ []

pingless :
    (now : ℕ) (d : List ℕ) → bytes_eq d ping_message ≡ false → IsPingless lib listening (at now d)
pingless now d h e q = let same : d ≡ e = cc in ap (λ x. bytes_eq x ping_message) (sym same) ∙ h

listen-IsClosed_example : IsClosed (listen lib listening silent)
unfolding ◌-ℤ◌
listen-IsClosed_example =
    listen-IsClosed lib listening silent (record { is_running = refl; has_conn = refl })
      (
        pingless 1 (1 ∷ []) refl,
        (
          pingless 4 [] refl,
          (
            pingless 5 (80 ∷ 73 ∷ []) refl,
            (pingless 6 (2 ∷ []) refl, (pingless 7 (3 ∷ []) refl, tt)),
          ),
        ),
      )
      refl

-- Clients 2 and 4 wait for a thread of the pool; once started, client 2 leaves.
abbrev busy : Life
busy = record {
  server = record { running = true; clients = 1 ∷ 2 ∷ 3 ∷ 4 ∷ []; active_clients_count = pos 4 };
  has_socket = true;
  accepting = true;
  encryption = 4096;
  has_keys = true;
}

abbrev is_odd : ℕ → Bool
is_odd c = (c == 1) || (c == 3)

stop_server-clients_example :
    (s : Life) × (stop_server is_odd (λ c. c == 2) busy ≡ ok s)
    × (s.server.running ≡ false)
    × (s.has_socket ≡ false)
    × (s.server.clients ≡ 4 ∷ [])
    × IsCounted s.server
stop_server-clients_example = stop_server-clients is_odd (λ c. c == 2) busy refl refl

abbrev fresh : Life
fresh = record {
  server = record { running = false; clients = []; active_clients_count = pos 0 };
  has_socket = false;
  accepting = false;
  encryption = 4096;
  has_keys = false;
}

start_server-stranded_example :
    (s : Life) × (use_all
        (λ c. true)
        (λ c. true)
        fresh
        (starts not_bound ∷ stops ∷ starts served ∷ [])
      ≡ ok s)
    × (s.server.running ≡ false)
start_server-stranded_example =
    start_server-stranded (λ c. true) (λ c. true) fresh (stops ∷ starts served ∷ []) refl

-- Without the failure, the same calls start the server.
started : (start_server fresh served).server.running ≡ true
unfolding start_server
started = refl
