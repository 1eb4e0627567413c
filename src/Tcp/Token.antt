-- ===== src/Tcp/Token.antt =====
-- Which actions of a connection come before the secret token.
use live_translation.Base.{
  ℕ, zero, suc, ℤ, ◌≡◌, refl, sym, ap, ◌∙◌, subst, ◌≢◌, Bool, true, false, not, ◌||◌, Option, none,
  some, List, inl, inr, ◌⊎◌, if◌then◌else◌, arith,
}
use live_translation.Data.{Text, Bytes}
use live_translation.Tcp.{
  Round, connected, TcpClient, TcpLib, log_action, stop, send, Verdict, returned, raised, waiting,
  Validated, validate_token, listen_for_clientkey, listen, authorize, greet, ok_message,
  send_server_publickey, exchange, start,
}
use live_translation.Tcp.Quiet.{
  IsQuiet, Secrets, secrets, Keeps, stop-Keeps, Unlocked, send-Keeps, Judged, validate_token-Judged,
}
use live_translation.Tcp.Opened.{
  Opened, Unlocked-in_plain, Unlocked-encrypted, Given, Exchanged, listen_for_clientkey-Exchanged,
}

module _ (lib : TcpLib) where
  -- What `start` comes to from a state: quiet, or some data unlocked the client.
  abbrev Guarded : Secrets → List Round → TcpClient → Type 0
  Guarded s rs c = IsQuiet c ⊎ Unlocked lib s rs

  authorize-Guarded :
      (self : TcpClient) (rs : List Round) (v : Validated)
      → Judged lib self rs v
      → Guarded (secrets self) rs (authorize lib v)
  authorize-Guarded self rs v (k, inr u) = inr u
  authorize-Guarded self rs v (k, inl n) = by_verdict v.verdict n
    where
      by_verdict :
          (w : Verdict)
          → w ≢ returned true
          → Guarded (secrets self) rs (elim w as (λ _. TcpClient) [
            | returned true ↦ listen lib (log_action v.client connected) v.rest
            | returned false ↦ stop v.client
            | raised ↦ v.client
            | waiting ↦ v.client
          ])
      by_verdict (returned true) m = absurd (m refl)
      by_verdict (returned false) m = inl (stop-Keeps v.client k.quiet).quiet
      by_verdict raised m = inl k.quiet
      by_verdict waiting m = inl k.quiet

  greet-Guarded :
      (self : TcpClient) (now : ℤ) (rs : List Round)
      → IsQuiet self
      → Guarded (secrets self) rs (greet lib self now rs)
  greet-Guarded self now rs q =
      let k = send-Keeps lib self ok_message q in
      let c = record (send lib self ok_message) { last_ping = now } in
      subst (λ s. Guarded s rs (greet lib self now rs)) k.secret
        (authorize-Guarded c rs (validate_token lib c rs) (validate_token-Judged lib c rs k.quiet))

  -- What `start` comes to: no action that needs the token, or an opened connection.
  abbrev Ends : ℕ → Text → List Round → TcpClient → Type 0
  Ends e t rs c = IsQuiet c ⊎ Opened lib e t rs

  Given-Ends :
      (self : TcpClient) (rs : List Round) (v : Validated) (c : TcpClient)
      → self.encryption ≢ 0
      → Given lib self rs v
      → Guarded (secrets v.client) v.rest c
      → Ends self.encryption self.secret_token rs c
  Given-Ends self rs v c n g (inl q) = inl q
  Given-Ends self rs v c n g (inr u) = inr (
      subst (Opened lib self.encryption self.secret_token) (sym g.first) (
        Unlocked-encrypted lib self.encryption g.keys g.init_and_key self.secret_token g.round
          v.rest n g.brings g.decrypts (subst (λ s. Unlocked lib s v.rest) g.keeps u)))

  exchange-Ends :
      (self : TcpClient) (now : ℤ) (rs : List Round) (v : Validated)
      → self.encryption ≢ 0
      → Exchanged lib self rs v
      → Ends self.encryption self.secret_token rs (exchange lib v now)
  exchange-Ends self now rs v n (q, inr g) = by_verdict v.verdict
    where
      by_verdict :
          (w : Verdict)
          → Ends self.encryption self.secret_token rs (elim w as (λ _. TcpClient) [
            | returned true ↦ greet lib v.client now v.rest
            | returned false ↦ v.client
            | raised ↦ v.client
            | waiting ↦ v.client
          ])
      by_verdict (returned true) =
          Given-Ends self rs v (greet lib v.client now v.rest) n g
            (greet-Guarded v.client now v.rest q)
      by_verdict (returned false) = inl q
      by_verdict raised = inl q
      by_verdict waiting = inl q
  exchange-Ends self now rs v n (q, inl m) = by_verdict v.verdict m
    where
      by_verdict :
          (w : Verdict)
          → w ≢ returned true
          → Ends self.encryption self.secret_token rs (elim w as (λ _. TcpClient) [
            | returned true ↦ greet lib v.client now v.rest
            | returned false ↦ v.client
            | raised ↦ v.client
            | waiting ↦ v.client
          ])
      by_verdict (returned true) m = absurd (m refl)
      by_verdict (returned false) m = inl q
      by_verdict raised m = inl q
      by_verdict waiting m = inl q

  send_server_publickey-Keeps :
      (self : TcpClient) → IsQuiet self → Keeps self (send_server_publickey lib self)
  send_server_publickey-Keeps self q = by_key self.server_publickey
    where
      by_key :
          (o : Option Bytes)
          → Keeps self (elim o as (λ _. TcpClient) [ none ↦ self | some k ↦ send lib self k ])
      by_key none = record { quiet = q; secret = refl }
      by_key (some k) = send-Keeps lib self k q

  plainly :
      (self c : TcpClient) (rs : List Round)
      → self.encryption ≡ 0
      → Guarded (secrets self) rs c
      → Ends self.encryption self.secret_token rs c
  plainly self c rs h (inl q) = inl q
  plainly self c rs h (inr u) = inr (
      Unlocked-in_plain lib self.encryption self.client_key self.client_initkey self.secret_token rs
        h u)

  -- Whatever comes from the socket, at whatever times, and whether or not sending succeeds: a client
  -- whose log has no action that needs the token either still has no such action when `start` is done (no
  -- connected callback, no message, no ping), or the token has come. Without encryption, data that came
  -- is the secret token as it stands. With it, data that came behind the first round is the secret token
  -- once it is decrypted by AES, by the key behind the first 16 bytes of what the private key makes of
  -- the first round, and with these 16 bytes as the initial vector.
  pub start-Guarded :
      (self : TcpClient) (now greeted : ℤ) (rs : List Round)
      → IsQuiet self
      → IsQuiet (start lib self now greeted rs) ⊎ Opened lib self.encryption self.secret_token rs
  unfolding start
  start-Guarded self now greeted rs q =
      by_state (not self.conn || self.running) self.encryption refl
    where
      client : TcpClient
      client = record self { running = true; last_ping = now }

      with_keys :
          self.encryption ≢ 0
          → Ends self.encryption self.secret_token rs (
              exchange lib (listen_for_clientkey lib (send_server_publickey lib client) rs) greeted)
      with_keys n =
          let k = send_server_publickey-Keeps client q in
          let s = send_server_publickey lib client in
          let same : s.encryption ≡ self.encryption = ap (λ x. x.0) k.secret in
          let r =
            exchange-Ends s greeted rs (listen_for_clientkey lib s rs) (λ z. n (sym same ∙ z))
              (listen_for_clientkey-Exchanged lib s rs k.quiet) in
          subst (λ x. Ends x.0 x.3 rs (exchange lib (listen_for_clientkey lib s rs) greeted))
            k.secret r

      by_state :
          (b : Bool) (e : ℕ)
          → self.encryption ≡ e
          → Ends self.encryption self.secret_token rs (
              if b
              then self
              else (if elim e as (λ _. Bool) [ zero ↦ false | suc n ↦ true ]
                  then exchange lib
                      (listen_for_clientkey lib (send_server_publickey lib client) rs)
                      greeted
                  else greet lib client greeted rs))
      by_state true e h = inl q
      by_state false (suc n) h = with_keys (λ z. omega (arith, h, z))
      by_state false zero h =
          plainly self (greet lib client greeted rs) rs h (greet-Guarded client greeted rs q)
