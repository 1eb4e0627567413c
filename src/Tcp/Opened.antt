-- ===== src/Tcp/Opened.antt =====
-- How a connection is opened: the keys of the first round, and the token by these keys.
use live_translation.Base.{
  ℕ, zero, suc, ◌≡◌, refl, ◌≢◌, Bool, true, false, not, ◌||◌, Option, none, some, List, [], ◌∷◌,
  inl, inr, ◌⊎◌, if◌then◌else◌, take, drop, arith,
}
use live_translation.Data.{Text, Bytes, ok}
use live_translation.Ogg.Utf8.{decode}
use live_translation.Tcp.{
  Received, bytes, timed_out, socket_error, Round, TcpClient, TcpLib, stop, ping_timeout, is_late,
  returned, Validated, take_keys, listen_for_clientkey,
}
use live_translation.Tcp.Quiet.{
  IsQuiet, Comes, secrets, not_false, not_waiting, stop-Keeps, ping_timeout-Keeps, Unlocked,
}

module _ (lib : TcpLib) where
  -- Some data that comes opens the connection with the secret token: as it comes, without encryption, and
  -- otherwise by the key and the initial vector that the first round has brought, under the public key.
  pub data Opened (encryption : ℕ) (secret_token : Text) : List Round → Type 0 where
    in_plain :
        {rs : List Round} (token : Bytes)
        → encryption ≡ 0
        → Comes token rs
        → decode token ≡ ok secret_token
        → Opened encryption secret_token rs
    encrypted :
        {r : Round} {rs : List Round} (keys init_and_key token : Bytes)
        → encryption ≢ 0
        → r.received ≡ bytes keys
        → lib.rsa_decrypt keys ≡ some init_and_key
        → Comes token rs
        → decode (lib.aes_decrypt token (drop 16 init_and_key) (take 16 init_and_key))
          ≡ ok secret_token
        → Opened encryption secret_token (r ∷ rs)

  pub Unlocked-in_plain :
      (e : ℕ) (k i : Option Bytes) (t : Text) (rs : List Round)
      → e ≡ 0
      → Unlocked lib (e, k, i, t) rs
      → Opened e t rs
  Unlocked-in_plain zero k i t rs h u = in_plain u.token refl u.comes u.unlocks
  Unlocked-in_plain (suc n) k i t rs h u = absurd (omega (arith, h))

  pub Unlocked-encrypted :
      (e : ℕ) (keys iak : Bytes) (t : Text) (r : Round) (rs : List Round)
      → e ≢ 0
      → r.received ≡ bytes keys
      → lib.rsa_decrypt keys ≡ some iak
      → Unlocked lib (e, some (drop 16 iak), some (take 16 iak), t) rs
      → Opened e t (r ∷ rs)
  Unlocked-encrypted zero keys iak t r rs n h d u = absurd (n refl)
  Unlocked-encrypted (suc m) keys iak t r rs n h d u =
      encrypted keys iak u.token n h d u.comes u.unlocks

  -- The keys are those of the first round, which is no longer there.
  pub record Given (self : TcpClient) (rs : List Round) (v : Validated) : Type 0 where
    pub round : Round
    pub keys : Bytes
    pub init_and_key : Bytes
    pub first : rs ≡ round ∷ v.rest
    pub brings : round.received ≡ bytes keys
    pub decrypts : lib.rsa_decrypt keys ≡ some init_and_key
    pub keeps : secrets v.client ≡ (
      self.encryption,
      some (drop 16 init_and_key),
      some (take 16 init_and_key),
      self.secret_token,
    )

  abbrev pub Exchanged : TcpClient → List Round → Validated → Type 0
  Exchanged self rs v = IsQuiet v.client × ((v.verdict ≢ returned true) ⊎ Given self rs v)

  take_keys-Exchanged :
      (self : TcpClient) (d : Bytes) (k : Option Bytes) (r : Round) (rs : List Round)
      → IsQuiet self
      → r.received ≡ bytes d
      → lib.rsa_decrypt d ≡ k
      → Exchanged self (r ∷ rs) (take_keys self k rs)
  take_keys-Exchanged self d none r rs q h k = ((stop-Keeps self q).quiet, inl (not_false lib))
  take_keys-Exchanged self d (some iak) r rs q h k = (
    q,
    inr (record {
      round = r;
      keys = d;
      init_and_key = iak;
      first = refl;
      brings = h;
      decrypts = k;
      keeps = refl;
    }),
  )

  pub listen_for_clientkey-Exchanged :
      (self : TcpClient) (rs : List Round)
      → IsQuiet self
      → Exchanged self rs (listen_for_clientkey lib self rs)
  unfolding listen_for_clientkey
  listen_for_clientkey-Exchanged self [] q = (q, inl (not_waiting lib))
  listen_for_clientkey-Exchanged self (r ∷ rs) q =
      by_state (not self.conn || (not self.server_privatekey || not self.running))
        (is_late self r.now) r.received refl
    where
      by_state :
          (b l : Bool) (i : Received)
          → r.received ≡ i
          → Exchanged self (r ∷ rs) (
              if b
              then record { client = self; verdict = returned false; rest = r ∷ rs }
              else (if l
                  then record { client = ping_timeout self; verdict = returned false; rest = rs }
                  else (elim i as (λ _. Validated) [
                    | bytes [] ↦ record { client = stop self; verdict = returned false; rest = rs }
                    | bytes (c ∷ bs) ↦ take_keys self (lib.rsa_decrypt (c ∷ bs)) rs
                    | timed_out ↦ record {
                      client = ping_timeout self;
                      verdict = returned false;
                      rest = rs;
                    }
                    | socket_error ↦ record {
                      client = stop self;
                      verdict = returned false;
                      rest = rs;
                    }
                  ])))
      by_state true l i h = (q, inl (not_false lib))
      by_state false true i h = ((ping_timeout-Keeps self q).quiet, inl (not_false lib))
      by_state false false (bytes []) h = ((stop-Keeps self q).quiet, inl (not_false lib))
      by_state false false (bytes (c ∷ bs)) h =
          take_keys-Exchanged self (c ∷ bs) (lib.rsa_decrypt (c ∷ bs)) r rs q h refl
      by_state false false timed_out h = ((ping_timeout-Keeps self q).quiet, inl (not_false lib))
      by_state false false socket_error h = ((stop-Keeps self q).quiet, inl (not_false lib))
