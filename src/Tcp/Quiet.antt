-- ===== src/Tcp/Quiet.antt =====
-- What a connection does before the secret token, up to the token itself.
use live_translation.Base.{
  ℕ, zero, suc, Option, none, some, sym, ◌≡◌, refl, ap, ◌∙◌, ◌≢◌, Bool, true, false, not, ◌&&◌,
  ◌||◌, List, [], ◌∷◌, ◌++◌, All, All-append, Bool-cases, inl, inr, ◌⊎◌, if◌then◌else◌,
}
use live_translation.Data.{Text, Bytes, Result, ok, err}
use live_translation.Ogg.Bytes.{bytes_eq}
use live_translation.Ogg.Page.Bounds.{bytes_eq→eq}
use live_translation.Ogg.Utf8.{decode}
use live_translation.Tcp.{
  Received, bytes, timed_out, socket_error, Round, Action, sent, connected, message, ping,
  ping_timed_out, disconnected, removed, TcpClient, TcpLib, log_action, stop, ping_timeout, plain,
  coded, send, is_late, Verdict, returned, raised, waiting, check_token, Validated, validate_token,
}

-- Actions that need no token.
abbrev is_open : Action → Bool
is_open connected = false
is_open (message d) = false
is_open ping = false
is_open (sent d) = true
is_open ping_timed_out = true
is_open disconnected = true
is_open removed = true

abbrev pub IsQuiet : TcpClient → Type 0
IsQuiet self = All (λ a. is_open a ≡ true) self.log

-- The data is among what the socket gives.
pub data Comes (d : Bytes) : List Round → Type 0 where
  here : {r : Round} {rs : List Round} → r.received ≡ bytes d → Comes d (r ∷ rs)
  there : {r : Round} {rs : List Round} → Comes d rs → Comes d (r ∷ rs)

-- What the token is read by: whether data is decrypted, the key, its initial vector, and the secret.
abbrev pub Secrets : Type 0
Secrets = ℕ × Option Bytes × Option Bytes × Text

abbrev pub secrets : TcpClient → Secrets
secrets self = (self.encryption, self.client_key, self.client_initkey, self.secret_token)

-- What the steps before the token keep, but for the exchange of the keys.
pub record Keeps (self c : TcpClient) : Type 0 where
  pub quiet : IsQuiet c
  pub secret : secrets c ≡ secrets self

log_action-Keeps :
    (self : TcpClient) (a : Action)
    → IsQuiet self
    → is_open a ≡ true
    → Keeps self (log_action self a)
log_action-Keeps self a q o = record {
  quiet = All-append (λ b. is_open b ≡ true) self.log (a ∷ []) q (o, tt);
  secret = refl;
}

pub stop-Keeps : (self : TcpClient) → IsQuiet self → Keeps self (stop self)
stop-Keeps self q = by_state self.running self.conn
  where
    by_state :
        (r c : Bool)
        → Keeps self (
            if r
            then (if c
                then record self {
                  running = false;
                  conn = false;
                  log = self.log ++ disconnected ∷ removed ∷ [];
                }
                else record self { running = false })
            else self)
    by_state true true = record {
      quiet =
          All-append (λ b. is_open b ≡ true) self.log (disconnected ∷ removed ∷ []) q
            (refl, (refl, tt));
      secret = refl;
    }
    by_state true false = record { quiet = q; secret = refl }
    by_state false c = record { quiet = q; secret = refl }

pub ping_timeout-Keeps : (self : TcpClient) → IsQuiet self → Keeps self (ping_timeout self)
ping_timeout-Keeps self q =
    let k =
      stop-Keeps (log_action self ping_timed_out)
        (log_action-Keeps self ping_timed_out q refl).quiet in
    record { quiet = k.quiet; secret = k.secret }

module _ (lib : TcpLib) where
  -- Data as it is read by these secrets.
  abbrev read_by : Secrets → Bytes → Bytes
  read_by (zero, k, i, t) d = d
  read_by (suc n, none, i, t) d = []
  read_by (suc n, some k, none, t) d = []
  read_by (suc n, some k, some i, t) d = lib.aes_decrypt d k i

  plain-read_by : (self : TcpClient) (d : Bytes) → plain lib self d ≡ read_by (secrets self) d
  plain-read_by self d = by_secrets self.encryption self.client_key self.client_initkey
    where
      by_secrets :
          (e : ℕ) (k i : Option Bytes)
          → plain lib (record self { encryption = e; client_key = k; client_initkey = i }) d
            ≡ read_by (e, k, i, self.secret_token) d
      by_secrets zero k i = refl
      by_secrets (suc n) none i = refl
      by_secrets (suc n) (some k) none = refl
      by_secrets (suc n) (some k) (some i) = refl

  -- Some data that comes is the secret token, as it is read by the secrets.
  pub record Unlocked (s : Secrets) (rs : List Round) : Type 0 where
    pub token : Bytes
    pub comes : Comes token rs
    pub unlocks : decode (read_by s token) ≡ ok s.3

  pub send-Keeps : (self : TcpClient) (d : Bytes) → IsQuiet self → Keeps self (send lib self d)
  send-Keeps self d q = by_state (self.conn && lib.can_send self.log (coded lib self d))
    where
      by_state :
          (b : Bool)
          → Keeps self (if b then log_action self (sent (coded lib self d)) else stop self)
      by_state true = log_action-Keeps self (sent (coded lib self d)) q refl
      by_state false = stop-Keeps self q

  -- The token was right, or the verdict is another.
  abbrev pub Judged : TcpClient → List Round → Validated → Type 0
  Judged self rs v =
      Keeps self v.client × ((v.verdict ≢ returned true) ⊎ Unlocked (secrets self) rs)

  pub not_false : ◌≡◌ {A = Verdict} (returned false) (returned true) → ⊥
  not_false e = cc

  not_raised : ◌≡◌ {A = Verdict} raised (returned true) → ⊥
  not_raised e = cc

  pub not_waiting : ◌≡◌ {A = Verdict} waiting (returned true) → ⊥
  not_waiting e = cc

  pub later :
      (self : TcpClient) (r : Round) (rs : List Round) (v : Validated)
      → Judged self rs v
      → Judged self (r ∷ rs) v
  later self r rs v (k, inl n) = (k, inl n)
  later self r rs v (k, inr u) =
      (k, inr (record { token = u.token; comes = there u.comes; unlocks = u.unlocks }))

  judge :
      (self : TcpClient) (d : Bytes) (r : Round) (rs : List Round) (t : Result Text)
      → r.received ≡ bytes d
      → decode (plain lib self d) ≡ t
      → (check_token self t ≢ returned true) ⊎ Unlocked (secrets self) (r ∷ rs)
  judge self d r rs (err e) h k = inl not_raised
  judge self d r rs (ok text) h k = elim (Bool-cases (bytes_eq text self.secret_token)) [
    | inl e ↦ inr (record {
      token = d;
      comes = here h;
      unlocks =
          ap decode (sym (plain-read_by self d)) ∙ k ∙ ap ok (bytes_eq→eq text self.secret_token e);
    })
    | inr e ↦ inl (rw e not_false)
  ]

  pub validate_token-Judged :
      (self : TcpClient) (rs : List Round)
      → IsQuiet self
      → Judged self rs (validate_token lib self rs)
  unfolding validate_token
  validate_token-Judged self [] q = (record { quiet = q; secret = refl }, inl not_waiting)
  validate_token-Judged self (r ∷ rs) q =
      by_state (not self.running || not self.conn) (is_late self r.now) r.received refl
        (validate_token-Judged self rs q)
    where
      by_state :
          (b l : Bool) (i : Received)
          → r.received ≡ i
          → Judged self rs (validate_token lib self rs)
          → Judged self (r ∷ rs) (
              if b
              then record { client = self; verdict = returned false; rest = r ∷ rs }
              else (if l
                  then record { client = ping_timeout self; verdict = returned false; rest = rs }
                  else (elim i as (λ _. Validated) [
                    | bytes [] ↦ validate_token lib self rs
                    | bytes (c ∷ bs) ↦ record {
                      client = self;
                      verdict = check_token self (decode (plain lib self (c ∷ bs)));
                      rest = rs;
                    }
                    | timed_out ↦ record {
                      client = ping_timeout self;
                      verdict = returned false;
                      rest = rs;
                    }
                    | socket_error ↦ record {
                      client = stop self;
                      verdict = returned false;
                      rest = rs;
                    }
                  ])))
      by_state true l i h k = (record { quiet = q; secret = refl }, inl not_false)
      by_state false true i h k = (ping_timeout-Keeps self q, inl not_false)
      by_state false false (bytes []) h k = later self r rs (validate_token lib self rs) k
      by_state false false (bytes (c ∷ bs)) h k = (
        record { quiet = q; secret = refl },
        judge self (c ∷ bs) r rs (decode (plain lib self (c ∷ bs))) h refl,
      )
      by_state false false timed_out h k = (ping_timeout-Keeps self q, inl not_false)
      by_state false false socket_error h k = (stop-Keeps self q, inl not_false)
