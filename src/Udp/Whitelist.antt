-- ===== src/Udp/Whitelist.antt =====
-- The whitelist, and the steps that keep it.
use live_translation.Base.{
  ℕ, ◌+◌, ◌<◌, ◌≤◌, ◌≡◌, refl, ap, sym, ◌∙◌, subst, ◌≢◌, Bool, true, false, some, List, [], ◌∷◌,
  ◌++◌, ◌==◌, arith, All, All-append, Bool-cases, Option-cases, inl, inr, if◌then◌else◌,
}
use live_translation.Base.Dict.{get, put, All-get, All-put, All-pop}
use live_translation.Data.{Text, Bytes}
use live_translation.Event.{new_handler}
use live_translation.Ogg.Bytes.{bytes_eq}
use live_translation.Ogg.Page.Bounds.{bytes_eq→eq}
use live_translation.Udp.{
  UdpClient, Server, Locked, done, deadlock, add_client, new_client, set_client, remove_address,
  keep_list, take_out, remove_client_, stop_client, find_address, find_unbound, choose_client,
  announce, has_address,
}

-- The client belongs to the server and is one of the host.
abbrev pub IsOf : (ℕ → UdpClient) → ℕ → Text → ℕ → Type 0
IsOf store n host r = (r < n) × ((store r).host ≡ host)

abbrev pub IsEntry : (ℕ → UdpClient) → ℕ → Text × List ℕ → Type 0
IsEntry store n e = (e.1 ≢ []) × All (IsOf store n e.0) e.1

abbrev pub IsWhitelist : Server → Type 0
IsWhitelist self = All (IsEntry self.store self.next_client) self.clients

-- A store that keeps the hosts of the clients there are keeps the lists.
module _ (store store' : ℕ → UdpClient) (n n' : ℕ) (le : n ≤ n')
    (hosts : (r : ℕ) → r < n → (store' r).host ≡ (store r).host) where
  All-IsOf : (host : Text) (rs : List ℕ) → All (IsOf store n host) rs → All (IsOf store' n' host) rs
  All-IsOf host [] h = tt
  All-IsOf host (r ∷ rs) h = ((omega (arith, h.0.0), hosts r h.0.0 ∙ h.0.1), All-IsOf host rs h.1)

  All-IsEntry : (es : List (Text × List ℕ)) → All (IsEntry store n) es → All (IsEntry store' n') es
  All-IsEntry [] h = tt
  All-IsEntry (e ∷ es) h = ((h.0.0, All-IsOf e.0 e.1 h.0.1), All-IsEntry es h.1)

set_client-host :
    (store : ℕ → UdpClient) (r : ℕ) (c : UdpClient)
    → c.host ≡ (store r).host
    → (q : ℕ) → (set_client store r c q).host ≡ (store q).host
set_client-host store r c h q = elim (Bool-cases (q == r)) [
  | inl e ↦ rw e (let same : q ≡ r = ground arith in h ∙ ap (λ i. (store i).host) (sym same))
  | inr e ↦ rw e
]

pub set_client-other :
    (store : ℕ → UdpClient) (r : ℕ) (c : UdpClient) (q : ℕ)
    → q < r
    → (set_client store r c q).host ≡ (store q).host
set_client-other store r c q l = let apart : (q == r) ≡ false = ground arith in rw apart

pub set_client-same : (store : ℕ → UdpClient) (r : ℕ) (c : UdpClient) → set_client store r c r ≡ c
set_client-same store r c = let same : (r == r) ≡ true = ground arith in rw same

-- A list that is found holds clients of the host that was looked up.
pub get-IsOf :
    (self : Server) (host : Text) (refs : List ℕ)
    → IsWhitelist self
    → get bytes_eq self.clients host ≡ some refs
    → All (IsOf self.store self.next_client host) refs
get-IsOf self host refs w e =
    let (j, s, i) =
      All-get bytes_eq (IsEntry self.store self.next_client) self.clients host refs w e in
    subst (λ t. All (IsOf self.store self.next_client t) refs) (bytes_eq→eq j host s) i.1

-- A key that equals the host may take its list.
pub put-IsWhitelist :
    (store : ℕ → UdpClient) (n : ℕ) (es : List (Text × List ℕ)) (host : Text) (refs : List ℕ)
    → All (IsEntry store n) es
    → refs ≢ []
    → All (IsOf store n host) refs
    → All (IsEntry store n) (put bytes_eq es host refs)
put-IsWhitelist store n es host refs w ne i =
    All-put bytes_eq (IsEntry store n) es host refs w (ne, i)
      (λ j s. (ne, subst (λ t. All (IsOf store n t) refs) (sym (bytes_eq→eq j host s)) i))

append-ne : (rs : List ℕ) (r : ℕ) → rs ++ r ∷ [] ≢ []
append-ne [] r e = cc
append-ne (q ∷ rs) r e = cc

pub cons-ne : (r : ℕ) (rs : List ℕ) → r ∷ rs ≢ []
cons-ne r rs e = cc

pub add_client-IsWhitelist :
    (self : Server) (host : Text) (key iv : Bytes)
    → IsWhitelist self
    → IsWhitelist (add_client self host key iv).0
unfolding add_client
add_client-IsWhitelist self host key iv w =
    let c = new_client host (elim (self.encryption == 0) [ true ↦ false | false ↦ true ]) key iv in
    let store' = set_client self.store self.next_client c in
    let n = self.next_client + 1 in
    let w' =
      All-IsEntry self.store store' self.next_client n (omega arith)
        (set_client-other self.store self.next_client c) self.clients w in
    let new : All (IsOf store' n host) (self.next_client ∷ []) =
      ((omega arith, ap (λ x. x.host) (set_client-same self.store self.next_client c)), tt) in
    elim (Option-cases (get bytes_eq self.clients host)) [
      | inl e ↦
          rw e (
            put-IsWhitelist store' n self.clients host (self.next_client ∷ []) w' (cons-ne _ [])
              new)
      | inr (refs, e) ↦ rw e (
          put-IsWhitelist store' n self.clients host (refs ++ self.next_client ∷ []) w'
            (append-ne refs self.next_client)
            (All-append (IsOf store' n host) refs (self.next_client ∷ [])
              (All-IsOf self.store store' self.next_client n (omega arith)
                (set_client-other self.store self.next_client c) host refs
                (get-IsOf self host refs w e))
              new))
    ]

pub All-remove_address :
    (P : ℕ → Type 0) (store : ℕ → UdpClient) (host : Text) (port : ℕ) (rs : List ℕ)
    → All P rs
    → All P (remove_address store host port rs)
unfolding remove_address
All-remove_address P store host port [] h = tt
All-remove_address P store host port (r ∷ rs) h =
    elim (Bool-cases (has_address host port (store r))) [
      | inl e ↦ rw e h.1
      | inr e ↦ rw e (h.0, All-remove_address P store host port rs h.1)
    ]

pub keep_list-IsWhitelist :
    (store : ℕ → UdpClient) (n : ℕ) (es : List (Text × List ℕ)) (host : Text) (refs : List ℕ)
    → All (IsEntry store n) es
    → All (IsOf store n host) refs
    → All (IsEntry store n) (keep_list es host refs)
keep_list-IsWhitelist store n es host [] w i = All-pop bytes_eq (IsEntry store n) es host w
keep_list-IsWhitelist store n es host (r ∷ rs) w i =
    put-IsWhitelist store n es host (r ∷ rs) w (cons-ne r rs) i

take_out-IsWhitelist :
    (self : Server) (host : Text) (port : ℕ)
    → IsWhitelist self
    → IsWhitelist (take_out self host port)
unfolding take_out
take_out-IsWhitelist self host port w = elim (Option-cases (get bytes_eq self.clients host)) [
  | inl e ↦ rw (e, take_out) w
  | inr (refs, e) ↦
      rw (e, take_out)
        (keep_list-IsWhitelist self.store self.next_client self.clients host
          (remove_address self.store host port refs) w
          (All-remove_address (IsOf self.store self.next_client host) self.store host port refs
            (get-IsOf self host refs w e)))
]

-- A change of a client that keeps its host.
pub set_client-IsWhitelist :
    (self : Server) (r : ℕ) (c : UdpClient)
    → c.host ≡ (self.store r).host
    → IsWhitelist self
    → IsWhitelist (record self { store = set_client self.store r c })
set_client-IsWhitelist self r c h w =
    All-IsEntry self.store (set_client self.store r c) self.next_client self.next_client
      (omega arith) (λ q _. set_client-host self.store r c h q) self.clients w

-- The whitelist holds in whatever a call that returns leaves.
abbrev pub LeavesWhitelist : Locked Server → Type 0
LeavesWhitelist deadlock = Unit
LeavesWhitelist (done s) = IsWhitelist s

pub remove_client_-LeavesWhitelist :
    (self : Server) (host : Text) (port : ℕ)
    → IsWhitelist self
    → LeavesWhitelist (remove_client_ self host port)
unfolding remove_client_
remove_client_-LeavesWhitelist self host port w =
    by_lock self.lock_held (take_out self host port) (take_out-IsWhitelist self host port w)
  where
    by_lock :
        (b : Bool) (s : Server) → IsWhitelist s → LeavesWhitelist (if b then deadlock else done s)
    by_lock true s h = tt
    by_lock false s h = h

pub stop_client-LeavesWhitelist :
    (self : Server) (r : ℕ) → IsWhitelist self → LeavesWhitelist (stop_client self r)
unfolding stop_client
stop_client-LeavesWhitelist self r w = elim (Option-cases (self.store r).port) [
  | inl e ↦ rw (e, stop_client) w
  | inr (p, e) ↦
      rw (e, stop_client)
        (remove_client_-LeavesWhitelist
          (record self {
            store =
                set_client self.store r (record (self.store r) { message_callback = new_handler });
          })
          (self.store r).host p
          (set_client-IsWhitelist self r (record (self.store r) { message_callback = new_handler })
            refl w))
]

pub choose_client-IsWhitelist :
    (self : Server) (host : Text) (port : ℕ) (refs : List ℕ)
    → IsWhitelist self
    → IsWhitelist (choose_client self host port refs).0
unfolding choose_client
choose_client-IsWhitelist self host port refs w =
    elim (Option-cases (find_address self.store host port refs)) [
      | inr (c, e) ↦ rw (e, choose_client) w
      | inl e ↦ elim (Option-cases (find_unbound self.store refs)) [
        | inl k ↦ rw (e, k, choose_client) w
        | inr (c, k) ↦
            rw (e, k, choose_client)
              (set_client-IsWhitelist self c (record (self.store c) { port = some port }) refl w)
      ]
    ]

pub announce-IsWhitelist :
    (self : Server) (c port : ℕ) → IsWhitelist self → IsWhitelist (announce self c port).0
unfolding announce
announce-IsWhitelist self c port w = elim (Option-cases (self.store c).port) [
  | inl e ↦
      rw (e, announce)
        (set_client-IsWhitelist self c (record (self.store c) { port = some port }) refl w)
  | inr (p, e) ↦ rw (e, announce) w
]
