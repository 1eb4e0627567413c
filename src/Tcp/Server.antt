-- ===== src/Tcp/Server.antt =====
-- TCPserver.py, class Server: the list of clients and their number, as connections are accepted and
-- clients are removed. A client is known by a number. Removal holds the lock of the clients, and so does
-- the append of the accepting thread, but not its `+= 1`: these are separate steps. An `+= 1` or `-= 1` is
-- taken as one step.
use live_translation.Base.{
  ℕ, suc, ◌+ℤ◌, ◌-ℤ◌, ℤ, pos, ◌≡◌, refl, ap, sym, ◌∙◌, subst, Bool, true, false, List, [], ◌∷◌,
  ◌++◌, ◌==◌, arith, int_laws, pos_part, neg_part, length, length-append, Bool-cases, inl, inr,
  if◌then◌else◌,
}
use live_translation.Data.{Result, ok, err, ◌>>=◌, Error, value_error}

pub record TcpServer : Type 0 where
  pub running : Bool
  pub clients : List ℕ
  pub active_clients_count : ℤ

-- The body of the loop in `_accept_clients`, on a connection: a new client joins the list under the lock.
unfoldable pub append_client : TcpServer → ℕ → TcpServer
append_client self c =
    if self.running then record self { clients = self.clients ++ c ∷ [] } else self

-- The rest of the body, without the lock: the client is given to the thread pool and counted, or, without
-- a pool, the loop ends.
unfoldable pub submit_client : TcpServer → Bool → TcpServer
submit_client self has_pool =
    if has_pool
    then record self { active_clients_count = self.active_clients_count +ℤ pos 1 }
    else self

-- `list.remove`
unfoldable pub list_remove : List ℕ → ℕ → Result (List ℕ)
list_remove [] c = err (value_error "list.remove(x): x not in list")
list_remove (b ∷ bs) c =
    let rest = list_remove bs c in if b == c then ok bs else (rest >>= λ cs. ok (b ∷ cs))

-- `_remove_client`
unfoldable pub drop_client : TcpServer → ℕ → Result TcpServer
drop_client self c = list_remove self.clients c >>= λ cs.
    ok (record self { clients = cs; active_clients_count = self.active_clients_count -ℤ pos 1 })

abbrev pub IsCounted : TcpServer → Type 0
IsCounted self = self.active_clients_count ≡ pos (length self.clients)

-- A server, with the clients that are in the list and not yet counted.
abbrev IsCountedBut : TcpServer → ℕ → Type 0
IsCountedBut self uncounted = self.active_clients_count +ℤ pos uncounted ≡ pos (length self.clients)

-- The servers that the steps of the accepting thread and the removals of the other threads lead to, in any
-- order, and whether the accepting thread has appended a client that it has not counted.
pub data ServerReached : TcpServer → ℕ → Type 0 where
  started : ServerReached (record { running = true; clients = []; active_clients_count = pos 0 }) 0
  appended :
      {self : TcpServer} (c : ℕ)
      → self.running ≡ true
      → ServerReached self 0
      → ServerReached (append_client self c) 1
  submitted : {self : TcpServer} → ServerReached self 1 → ServerReached (submit_client self true) 0
  without_pool :
      {self : TcpServer} → ServerReached self 1 → ServerReached (submit_client self false) 1
  stopping :
      {self : TcpServer} {n : ℕ}
      → ServerReached self n
      → ServerReached (record self { running = false }) n
  dropped :
      {self s : TcpServer} {n : ℕ} (c : ℕ)
      → ServerReached self n
      → drop_client self c ≡ ok s
      → ServerReached s n

impossible : {A : Type 0} {e : Error} {a : A} → ◌≡◌ {A = Result A} (err e) (ok a) → ⊥
impossible q = cc

length-list_remove :
    (bs : List ℕ) (c : ℕ) (cs : List ℕ) → list_remove bs c ≡ ok cs → length bs ≡ suc (length cs)
unfolding list_remove
length-list_remove [] c cs h = absurd (impossible h)
length-list_remove (b ∷ bs) c cs h = elim (Bool-cases (b == c)) [
  | inl e ↦
      let h' : ok bs ≡ ok cs = rw (e, list_remove) at h in
      let same : bs ≡ cs = cc in omega (arith, ap length same)
  | inr e ↦
      by_rest (list_remove bs c) (λ ds k. length-list_remove bs c ds k) (rw (e, list_remove) at h)
]
  where
    by_rest :
        (r : Result (List ℕ))
        → ((ds : List ℕ) → r ≡ ok ds → length bs ≡ suc (length ds))
        → (r >>= λ ds. ok (b ∷ ds)) ≡ ok cs
        → suc (length bs) ≡ suc (length cs)
    by_rest (err x) k q = absurd (impossible q)
    by_rest (ok ds) k q = let same : b ∷ ds ≡ cs = cc in ap suc (k ds refl ∙ ap length same)

one_more : (a : ℤ) (m n : ℕ) → a +ℤ pos 0 ≡ pos m → n ≡ suc m → a +ℤ pos 1 ≡ pos n
one_more a m n h l = omega (int_laws, ap pos_part h, ap neg_part h, l)

one_less : (a : ℤ) (u m n : ℕ) → a +ℤ pos u ≡ pos m → m ≡ suc n → (a -ℤ pos 1) +ℤ pos u ≡ pos n
one_less a u m n h l = omega (int_laws, ap pos_part h, ap neg_part h, l)

counted_now : (a : ℤ) (m : ℕ) → a +ℤ pos 1 ≡ pos m → (a +ℤ pos 1) +ℤ pos 0 ≡ pos m
counted_now a m h = omega (int_laws, ap pos_part h, ap neg_part h)

append_client-IsCountedBut :
    (self : TcpServer) (c : ℕ)
    → self.running ≡ true
    → IsCountedBut self 0
    → IsCountedBut (append_client self c) 1
unfolding append_client
append_client-IsCountedBut self c r h =
    let l = length-append self.clients (c ∷ []) in
    subst
      (λ b. IsCountedBut (if b then record self { clients = self.clients ++ c ∷ [] } else self) 1)
      (sym r)
      (one_more self.active_clients_count (length self.clients) (length (self.clients ++ c ∷ [])) h
        (omega (arith, l)))

drop_client-IsCountedBut :
    (self s : TcpServer) (n c : ℕ)
    → IsCountedBut self n
    → drop_client self c ≡ ok s
    → IsCountedBut s n
unfolding drop_client
drop_client-IsCountedBut self s n c h e = by_list (list_remove self.clients c) refl e
  where
    by_list :
        (r : Result (List ℕ))
        → list_remove self.clients c ≡ r
        → (r >>= λ cs. ok (record self {
          clients = cs;
          active_clients_count = self.active_clients_count -ℤ pos 1;
        }))
          ≡ ok s
        → IsCountedBut s n
    by_list (err x) k q = absurd (impossible q)
    by_list (ok cs) k q =
        let same : record self {
          clients = cs;
          active_clients_count = self.active_clients_count -ℤ pos 1;
        }
            ≡ s =
          cc in
        let l = length-list_remove self.clients c cs k in
        subst (λ t. IsCountedBut t n) same
          (one_less self.active_clients_count n (length self.clients) (length cs) h l)

-- In whatever order the accepting thread appends and counts, and other threads remove clients, and also
-- once the server stops or has no pool: `active_clients_count`, together with the client that the
-- accepting thread has appended and not yet counted, is the number of clients in the list.
pub ServerReached-IsCounted :
    {self : TcpServer} {uncounted : ℕ}
    → ServerReached self uncounted
    → self.active_clients_count +ℤ pos uncounted ≡ pos (length self.clients)
unfolding submit_client
ServerReached-IsCounted started = omega int_laws
ServerReached-IsCounted (appended {self} c e r) =
    append_client-IsCountedBut self c e (ServerReached-IsCounted r)
ServerReached-IsCounted (submitted {self} r) =
    counted_now self.active_clients_count (length self.clients) (ServerReached-IsCounted r)
ServerReached-IsCounted (without_pool {self} r) = ServerReached-IsCounted r
ServerReached-IsCounted (stopping {self} r) = ServerReached-IsCounted r
ServerReached-IsCounted (dropped {self} {s} {n} c r e) =
    drop_client-IsCountedBut self s n c (ServerReached-IsCounted r) e
