-- ===== src/Tcp/Silence.antt =====
-- TCPserver.py, class Client: a client that sends no ping.
use live_translation.Base.{
  ℤ, ◌≡◌, refl, ap, sym, ◌∙◌, subst, Bool, true, false, ◌&&◌, List, [], ◌∷◌, ◌++◌, if◌then◌else◌,
  All, Bool-cases, inl, inr,
}
use live_translation.Data.{Bytes}
use live_translation.Ogg.Bytes.{bytes_eq}
use live_translation.Tcp.{
  Received, bytes, timed_out, socket_error, Round, Action, message, ping_timed_out, disconnected,
  removed, TcpClient, TcpLib, log_action, stop, ping_timeout, is_late, plain, ping_message,
  handle_data, listen_round, listen, send, pong_message, ping,
}

-- The connection is closed, and the last that was done is to run the callbacks of the disconnection and
-- to leave the list of the server.
pub record IsClosed (self : TcpClient) : Type 0 where
  pub stopped : self.running ≡ false
  pub no_conn : self.conn ≡ false
  pub before : List Action
  pub last : self.log ≡ before ++ disconnected ∷ removed ∷ []

-- Both flags are set: `_listen` goes on.
pub record IsOpen (self : TcpClient) : Type 0 where
  pub is_running : self.running ≡ true
  pub has_conn : self.conn ≡ true

stop-IsClosed : (self : TcpClient) → IsOpen self → IsClosed (stop self)
stop-IsClosed self o =
    subst IsClosed
      (sym (
        ap
          (λ b.
            if b
            then (if self.conn
                then record self {
                  running = false;
                  conn = false;
                  log = self.log ++ disconnected ∷ removed ∷ [];
                }
                else record self { running = false })
            else self)
          o.is_running
        ∙ ap
            (λ b.
              if b
              then record self {
                running = false;
                conn = false;
                log = self.log ++ disconnected ∷ removed ∷ [];
              }
              else record self { running = false })
            o.has_conn))
      (record { stopped = refl; no_conn = refl; before = self.log; last = refl })

module _ (lib : TcpLib) where
  -- What the client decrypts from a round is no ping.
  abbrev pub IsPingless : TcpClient → Round → Type 0
  IsPingless self r =
      (d : Bytes) → r.received ≡ bytes d → bytes_eq (plain lib self d) ping_message ≡ false

  -- Some round comes later than the ping timeout allows.
  abbrev pub overdue : TcpClient → List Round → Bool
  overdue self [] = false
  overdue self (r ∷ rs) = let rest = overdue self rs in if is_late self r.now then true else rest

  listen-IsClosed_kept :
      (self : TcpClient) (rs : List Round) → IsClosed self → IsClosed (listen lib self rs)
  unfolding listen
  listen-IsClosed_kept self [] c = c
  listen-IsClosed_kept self (r ∷ rs) c =
      subst IsClosed
        (sym (
          ap (λ b. if b && self.conn then listen lib (listen_round lib self r) rs else self)
            c.stopped))
        c

  -- A round on an open client closes it, or logs at most a message.
  data Heard (self : TcpClient) (next : TcpClient) : Type 0 where
    closes : IsClosed next → Heard self next
    goes_on : (l : List Action) → next ≡ record self { log = l } → Heard self next

  ping_timeout-IsClosed : (self : TcpClient) → IsOpen self → IsClosed (ping_timeout self)
  ping_timeout-IsClosed self o =
      stop-IsClosed (log_action self ping_timed_out)
        (record { is_running = o.is_running; has_conn = o.has_conn })

  abbrev hear : TcpClient → ℤ → Received → TcpClient
  hear self now x = elim x as (λ _. TcpClient) [
    | bytes [] ↦ self
    | bytes (b ∷ bs) ↦ handle_data lib self now (plain lib self (b ∷ bs))
    | timed_out ↦ ping_timeout self
    | socket_error ↦ stop self
  ]

  hear-Heard :
      (self : TcpClient) (now : ℤ) (x : Received)
      → IsOpen self
      → ((d : Bytes) → x ≡ bytes d → bytes_eq (plain lib self d) ping_message ≡ false)
      → Heard self (hear self now x)
  hear-Heard self now (bytes []) o p = goes_on self.log refl
  hear-Heard self now (bytes (b ∷ bs)) o p =
      goes_on (self.log ++ message (plain lib self (b ∷ bs)) ∷ []) (
        ap
          (λ t.
            if t
            then send lib (log_action (record self { last_ping = now }) ping) pong_message
            else log_action self (message (plain lib self (b ∷ bs))))
          (p (b ∷ bs) refl))
  hear-Heard self now timed_out o p = closes (ping_timeout-IsClosed self o)
  hear-Heard self now socket_error o p = closes (stop-IsClosed self o)

  -- Whatever else an open connection brings, an error of the socket included: if none of it is a ping, as
  -- the client decrypts it, and some round is later behind the last ping than the timeout allows, then
  -- listening ends with the connection closed, and the last it does is to run the callbacks of the
  -- disconnection and to leave the list of the server.
  pub listen-IsClosed :
      (self : TcpClient) (rs : List Round)
      → IsOpen self
      → All (IsPingless self) rs
      → overdue self rs ≡ true
      → IsClosed (listen lib self rs)
  unfolding listen listen_round
  listen-IsClosed self [] o p l = absurd (cc)
  listen-IsClosed self (r ∷ rs) o p l =
      subst IsClosed (sym (opened (listen lib (listen_round lib self r) rs)))
        (elim (Bool-cases (is_late self r.now)) [
          | inl e ↦
              subst (λ c. IsClosed (listen lib c rs))
                (sym (ap (λ b. if b then ping_timeout self else hear self r.now r.received) e))
                (listen-IsClosed_kept (ping_timeout self) rs (ping_timeout-IsClosed self o))
          | inr e ↦
              subst (λ c. IsClosed (listen lib c rs))
                (sym (ap (λ b. if b then ping_timeout self else hear self r.now r.received) e))
                (by_round (hear self r.now r.received)
                  (hear-Heard self r.now r.received o (λ d q. p.0 d q))
                  (λ log.
                    listen-IsClosed (record self { log = log }) rs
                      (record { is_running = o.is_running; has_conn = o.has_conn }) p.1
                      (ap (λ b. if b then true else overdue self rs) (sym e) ∙ l)))
        ])
    where
      opened : (next : TcpClient) → (if self.running && self.conn then next else self) ≡ next
      opened next =
          ap (λ b. if b && self.conn then next else self) o.is_running
          ∙ ap (λ b. if b then next else self) o.has_conn

      by_round :
          (next : TcpClient)
          → Heard self next
          → ((log : List Action) → IsClosed (listen lib (record self { log = log }) rs))
          → IsClosed (listen lib next rs)
      by_round next (closes c) k = listen-IsClosed_kept next rs c
      by_round next (goes_on log q) k = subst (λ c. IsClosed (listen lib c rs)) (sym q) (k log)
