-- ===== src/Tcp/Lifecycle.antt =====
-- TCPserver.py, class Server: start and stop.
use live_translation.Base.{
  false-true, ℕ, ◌-ℤ◌, pos, ◌≡◌, refl, ap, sym, ◌∙◌, Bool, true, false, not, List, [], ◌∷◌, ◌++◌,
  ◌==◌, arith, int_laws, length, length-append, Bool-cases, inl, inr, if◌then◌else◌, keep_if, All,
  All-append,
}
use live_translation.Data.{Result, ok, ◌>>=◌}
use live_translation.Tcp.Server.{TcpServer, list_remove, drop_client, IsCounted}

-- What `start` meets: the socket cannot be made, or not bound to the address, or all goes well.
pub data Fate : Type 0 where
  no_socket not_bound served : Fate

-- The fields that start and stop change, beside those of TcpServer.
pub record Life : Type 0 where
  pub server : TcpServer
  pub has_socket : Bool
  pub accepting : Bool
  pub encryption : ℕ
  pub has_keys : Bool

abbrev pub set_running : Life → Bool → Life
set_running self b = record self { server = record self.server { running = b } }

-- The block under `try`, and its handler.
abbrev pub open_socket : Life → Fate → Life
open_socket self no_socket = set_running self false
open_socket self not_bound = set_running (record self { has_socket = true }) false
open_socket self served = set_running (record self { has_socket = true; accepting = true }) true

abbrev pub with_keys : Life → Life
with_keys self = if self.encryption == 0 then self else record self { has_keys = true }

unfoldable pub start_server : Life → Fate → Life
start_server self fate = let s = with_keys self in if s.has_socket then s else open_socket s fate

-- Whether a client leaves the list when it is stopped: it does where it has been started, and has not
-- stopped. The name stands as well for the clients that leave it when their `start` is over.
module _ (is_live : ℕ → Bool) where
  -- `for client in self._clients[:]`
  unfoldable pub stop_clients : TcpServer → List ℕ → Result TcpServer
  stop_clients self [] = ok self
  stop_clients self (c ∷ cs) =
      (if is_live c then drop_client self c else ok self) >>= λ s. stop_clients s cs

  list_remove-behind :
      (pre : List ℕ) (c : ℕ) (cs : List ℕ)
      → All (λ b. is_live b ≡ false) pre
      → is_live c ≡ true
      → list_remove (pre ++ c ∷ cs) c ≡ ok (pre ++ cs)
  unfolding list_remove
  list_remove-behind [] c cs h l = let e : (c == c) ≡ true = ground arith in rw e
  list_remove-behind (b ∷ bs) c cs h l = elim (Bool-cases (b == c)) [
    | inl q ↦ let same : b ≡ c = ground arith in absurd (false-true (sym h.0 ∙ ap is_live same ∙ l))
    | inr q ↦ rw q (ap (λ r. r >>= λ ds. ok (b ∷ ds)) (list_remove-behind bs c cs h.1 l))
  ]

  -- What the loop leaves, from a list whose first part it has gone through.
  record Stopped (self : TcpServer) (clients : List ℕ) (r : Result TcpServer) : Type 0 where
    pub left : TcpServer
    pub returned : r ≡ ok left
    pub clients_left : left.clients ≡ clients
    pub still : left.running ≡ self.running
    pub counted : IsCounted left

  shift_append : (xs : List ℕ) (y : ℕ) (ys : List ℕ) → (xs ++ y ∷ []) ++ ys ≡ xs ++ y ∷ ys
  shift_append [] y ys = refl
  shift_append (x ∷ xs) y ys = ap (◌∷◌ x) (shift_append xs y ys)

  -- The client behind the first part of the list leaves it, and is no longer counted.
  drop_client-Stopped :
      (pre cs : List ℕ) (c : ℕ) (self : TcpServer)
      → self.clients ≡ pre ++ c ∷ cs
      → All (λ b. is_live b ≡ false) pre
      → is_live c ≡ true
      → IsCounted self
      → Stopped self (pre ++ cs) (drop_client self c)
  unfolding drop_client
  drop_client-Stopped pre cs c self e h l n = record {
    left = record self {
      clients = pre ++ cs;
      active_clients_count = self.active_clients_count -ℤ pos 1;
    };
    returned =
        ap
          (λ r. r >>= λ ds. ok (record self {
            clients = ds;
            active_clients_count = self.active_clients_count -ℤ pos 1;
          }))
          (ap (λ xs. list_remove xs c) e ∙ list_remove-behind pre c cs h l);
    clients_left = refl;
    still = refl;
    counted =
        ap (λ k. k -ℤ pos 1) (n ∙ ap (λ xs. pos (length xs)) e)
        ∙ omega (int_laws, length-append pre (c ∷ cs), length-append pre cs);
  }

  stop_clients-Stopped :
      (cs pre : List ℕ) (self : TcpServer)
      → self.clients ≡ pre ++ cs
      → All (λ b. is_live b ≡ false) pre
      → IsCounted self
      → Stopped self (pre ++ keep_if (λ c. not (is_live c)) cs) (stop_clients self cs)
  unfolding stop_clients
  stop_clients-Stopped [] pre self e h n = record {
    left = self;
    returned = refl;
    clients_left = e;
    still = refl;
    counted = n;
  }
  stop_clients-Stopped (c ∷ cs) pre self e h n = elim (Bool-cases (is_live c)) [
    | inl l ↦
        let one = drop_client-Stopped pre cs c self e h l n in
        let rest = stop_clients-Stopped cs pre one.left one.clients_left h one.counted in
        rw (l, keep_if)
          (record {
            left = rest.left;
            returned = ap (λ r. r >>= λ s. stop_clients s cs) one.returned ∙ rest.returned;
            clients_left = rest.clients_left;
            still = rest.still ∙ one.still;
            counted = rest.counted;
          })
    | inr l ↦
        let rest =
          stop_clients-Stopped cs (pre ++ c ∷ []) self (e ∙ sym (shift_append pre c cs))
            (All-append (λ b. is_live b ≡ false) pre (c ∷ []) h (l, tt)) n in
        rw (l, keep_if)
          (record {
            left = rest.left;
            returned = rest.returned;
            clients_left =
                rest.clients_left ∙ shift_append pre c (keep_if (λ d. not (is_live d)) cs);
            still = rest.still;
            counted = rest.counted;
          })
  ]

module _ (is_live leaves : ℕ → Bool) where
  -- `shutdown(wait=True)`: the clients that are still in the list have not been started, and wait for a
  -- thread. Each of them is started now, and when its `start` is over it has left the list, or not.
  unfoldable pub run_waiting : TcpServer → Result TcpServer
  unfolding stop_clients
  run_waiting self = stop_clients leaves self self.clients

  -- `stop`. The accepting thread, which is joined, takes no connection once the server does not run.
  unfoldable pub stop_server : Life → Result Life
  unfolding run_waiting
  stop_server self =
      if self.server.running
      then (stop_clients is_live (record self.server { running = false }) self.server.clients
          >>= λ s. run_waiting s >>= λ t.
              ok (record self { server = t; has_socket = false; accepting = false }))
      else ok self

  -- On a server that runs and counts its clients, `stop` raises nothing, and ends with the server not
  -- running and without a socket. Left in the list are, in their order, exactly the clients that had not been
  -- started and did not leave it when the thread pool started them at last, and these are counted.
  pub stop_server-clients :
      (self : Life)
      → self.server.running ≡ true
      → IsCounted self.server
      → (s : Life) × (stop_server self ≡ ok s)
        × (s.server.running ≡ false)
        × (s.has_socket ≡ false)
        × (s.server.clients
            ≡ keep_if (λ c. not (leaves c)) (keep_if (λ c. not (is_live c)) self.server.clients))
        × IsCounted s.server
  unfolding stop_server run_waiting
  stop_server-clients self r n =
      let begun : TcpServer = record self.server { running = false } in
      let st = stop_clients-Stopped is_live self.server.clients [] begun refl tt n in
      let ru = stop_clients-Stopped leaves st.left.clients [] st.left refl tt st.counted in
      (
        record self { server = ru.left; has_socket = false; accepting = false },
        ap
              (λ b.
                if b
                then (stop_clients is_live begun self.server.clients >>= λ s. run_waiting s >>= λ t.
                    ok (record self { server = t; has_socket = false; accepting = false }))
                else ok self)
              r
            ∙ ap
                (λ x. x >>= λ s. run_waiting s >>= λ t.
                  ok (record self { server = t; has_socket = false; accepting = false }))
                st.returned
            ∙ ap
                (λ x.
                  x >>= λ t. ok (record self { server = t; has_socket = false; accepting = false }))
                ru.returned,
        ru.still ∙ st.still,
        refl,
        ru.clients_left ∙ ap (keep_if (λ c. not (leaves c))) st.clients_left,
        ru.counted,
      )
