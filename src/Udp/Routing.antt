-- ===== src/Udp/Routing.antt =====
-- Where a datagram goes, and what `remove_client` comes to.
use live_translation.Base.{
  if◌then◌else◌, ◌≢◌, ap, ◌∙◌, false-true, ℕ, ◌≡◌, refl, subst, true, false, Option, none, some,
  List, [], ◌∷◌, ◌==◌, arith, All, Bool-cases, Option-cases, inl, inr,
}
use live_translation.Base.Dict.{get}
use live_translation.Data.{Text, Bytes}
use live_translation.Event.{emit}
use live_translation.Ogg.Bytes.{bytes_eq}
use live_translation.Udp.{
  UdpClient, Server, deadlock, has_address, remove_client_, stop_client, find_address, find_unbound,
  bind_port, choose_client, announce, Call, message, deliver, handle_client, receive, remove_client,
}
use live_translation.Udp.Whitelist.{IsOf, get-IsOf, set_client-same}
use live_translation.Udp.Reach.{Reached, Reached-IsWhitelist}

pub bytes_eq_refl : (bs : Bytes) → bytes_eq bs bs ≡ true
bytes_eq_refl [] = refl
bytes_eq_refl (b ∷ bs) = let same : (b == b) ≡ true = ground arith in rw (same, bytes_eq_refl bs)

none-some : {r : ℕ} → ◌≡◌ {A = Option ℕ} none (some r) → ⊥
none-some e = cc

find_address-has_address :
    (store : ℕ → UdpClient) (host : Text) (port : ℕ) (rs : List ℕ) (c : ℕ)
    → find_address store host port rs ≡ some c
    → has_address host port (store c) ≡ true
unfolding find_address
find_address-has_address store host port [] c e = absurd (none-some e)
find_address-has_address store host port (r ∷ rs) c e =
    elim (Bool-cases (has_address host port (store r))) [
      | inl h ↦
          let h' : some r ≡ some c = rw (h, find_address) at e in
          let same : r ≡ c = cc in subst (λ i. has_address host port (store i) ≡ true) same h
      | inr h ↦ find_address-has_address store host port rs c (rw (h, find_address) at e)
    ]

find_unbound-All :
    (P : ℕ → Type 0) (store : ℕ → UdpClient) (rs : List ℕ) (c : ℕ)
    → All P rs
    → find_unbound store rs ≡ some c
    → P c
unfolding find_unbound
find_unbound-All P store [] c h e = absurd (none-some e)
find_unbound-All P store (r ∷ rs) c h e = elim (Option-cases (store r).port) [
  | inl k ↦
      let e' : some r ≡ some c = rw (k, find_unbound) at e in
      let same : r ≡ c = cc in subst P same h.0
  | inr (p, k) ↦ find_unbound-All P store rs c h.1 (rw (k, find_unbound) at e)
]

-- A client with an address has connected before.
announce-has_address :
    (self : Server) (host : Text) (port c : ℕ)
    → has_address host port (self.store c) ≡ true
    → announce self c port ≡ (self, [])
unfolding announce
announce-has_address self host port c h = elim (Option-cases (self.store c).port) [
  | inl e ↦ absurd (false-true (rw e at h))
  | inr (p, e) ↦ rw (e, announce)
]

bind_port-has_address :
    (self : Server) (host : Text) (port c : ℕ)
    → (self.store c).host ≡ host
    → has_address host port ((bind_port self c port).store c) ≡ true
bind_port-has_address self host port c h =
    let same : (port == port) ≡ true = ground arith in
    rw (
      set_client-same self.store c (record (self.store c) { port = some port }),
      h,
      bytes_eq_refl host,
      same,
    )

module _ (decrypt : Bytes → Bytes → Bytes → Bytes) where
  -- What becomes of a datagram from an address.
  pub data Routed (self : Server) (host : Text) (port : ℕ) (data_ : Bytes)
      : Server × List Call → Type 0 where
    unlisted : get bytes_eq self.clients host ≡ none → Routed self host port data_ (self, [])
    refused :
        (refs : List ℕ)
        → get bytes_eq self.clients host ≡ some refs
        → find_address self.store host port refs ≡ none
        → find_unbound self.store refs ≡ none
        → Routed self host port data_ (self, [])
    delivered :
        (s : Server) (c : ℕ) (plain : Bytes)
        → has_address host port (s.store c) ≡ true
        → (self.encryption ≡ 0 → plain ≡ data_)
        → (self.encryption ≢ 0
            → plain ≡ decrypt data_ (self.store c).aes_key (self.store c).aes_initkey)
        → Routed self host port data_ (s, message c plain (emit (s.store c).message_callback) ∷ [])

  -- The server and the client decrypt as before.
  record KeepsKeys (self s : Server) (c : ℕ) : Type 0 where
    encryption : s.encryption ≡ self.encryption
    aes_key : (s.store c).aes_key ≡ (self.store c).aes_key
    aes_initkey : (s.store c).aes_initkey ≡ (self.store c).aes_initkey

  bind_port-KeepsKeys : (self : Server) (port c : ℕ) → KeepsKeys self (bind_port self c port) c
  bind_port-KeepsKeys self port c =
      let same = set_client-same self.store c (record (self.store c) { port = some port }) in
      record {
        encryption = refl;
        aes_key = ap (λ x. x.aes_key) same;
        aes_initkey = ap (λ x. x.aes_initkey) same;
      }

  to_address :
      (self s : Server) (host : Text) (port c : ℕ) (data_ : Bytes)
      → KeepsKeys self s c
      → has_address host port (s.store c) ≡ true
      → Routed self host port data_ (handle_client decrypt (s, some c) port data_)
  unfolding deliver
  to_address self s host port c data_ k h =
      rw (announce-has_address s host port c h, handle_client)
        (delivered s c
          (if s.encryption == 0
            then data_
            else decrypt data_ (s.store c).aes_key (s.store c).aes_initkey)
          h (λ e. let z : (s.encryption == 0) ≡ true = ap (λ n. n == 0) (k.encryption ∙ e) in rw z)
          (λ n.
            let z : (s.encryption == 0) ≡ false =
              ap (λ m. m == 0) k.encryption ∙ not_zero self.encryption n in
            rw (z, k.aes_key, k.aes_initkey)))
    where
      not_zero : (m : ℕ) → m ≢ 0 → (m == 0) ≡ false
      not_zero m n = ground arith

  choose_client-Routed :
      (self : Server) (host : Text) (port : ℕ) (data_ : Bytes) (refs : List ℕ)
      → get bytes_eq self.clients host ≡ some refs
      → All (IsOf self.store self.next_client host) refs
      → Routed self host port data_
          (handle_client decrypt (choose_client self host port refs) port data_)
  unfolding choose_client
  choose_client-Routed self host port data_ refs g w =
      elim (Option-cases (find_address self.store host port refs)) [
        | inr (c, e) ↦
            rw (e, choose_client)
              (to_address self self host port c data_
                (record { encryption = refl; aes_key = refl; aes_initkey = refl })
                (find_address-has_address self.store host port refs c e))
        | inl e ↦ elim (Option-cases (find_unbound self.store refs)) [
          | inl k ↦ rw (e, k, choose_client) (refused refs g e k)
          | inr (c, k) ↦
              rw (e, k, choose_client)
                (to_address self (bind_port self c port) host port c data_
                  (bind_port-KeepsKeys self port c)
                  (bind_port-has_address self host port c
                    (find_unbound-All (IsOf self.store self.next_client host) self.store refs c w
                      k).1))
        ]
      ]

  -- In any state that calls lead to, a datagram sets off the message callbacks of one client or nothing.
  -- Its data goes to a client that then has the sender's address: as it came where the server's encryption
  -- is 0, and otherwise decrypted by that client's key and initial vector. It
  -- is dropped, and the server left as it is, only where the host is not listed, or none of its
  -- clients has the address or is still without a port. No callback for a connected client is run.
  pub receive-Routed :
      (self : Server) (host : Text) (port : ℕ) (data_ : Bytes)
      → Reached decrypt self
      → Routed self host port data_ (receive decrypt self host port data_)
  unfolding receive
  receive-Routed self host port data_ r = elim (Option-cases (get bytes_eq self.clients host)) [
    | inl e ↦ rw (e, receive) (unlisted e)
    | inr (refs, e) ↦
        rw (e, receive)
          (choose_client-Routed self host port data_ refs e
            (get-IsOf self host refs (Reached-IsWhitelist decrypt r) e))
  ]

stop_client_held :
    (self : Server) (host : Text) (port r : ℕ)
    → self.lock_held ≡ true
    → has_address host port (self.store r) ≡ true
    → stop_client self r ≡ deadlock
unfolding stop_client remove_client_
stop_client_held self host port r l h = elim (Option-cases (self.store r).port) [
  | inl e ↦ absurd (false-true (rw e at h))
  | inr (p, e) ↦ rw (e, stop_client, l)
]

-- `remove_client` with the address of a listed client never returns: it holds the lock that stopping
-- the client waits for.
pub remove_client-deadlock :
    (self : Server) (host : Text) (port r : ℕ) (refs : List ℕ)
    → self.lock_held ≡ false
    → get bytes_eq self.clients host ≡ some refs
    → find_address self.store host port refs ≡ some r
    → remove_client self host port ≡ deadlock
unfolding remove_client
remove_client-deadlock self host port r refs l g f = rw (
  l,
  g,
  f,
  remove_client,
  stop_client_held (record self { lock_held = true }) host port r refl
      (find_address-has_address self.store host port refs r f),
)
