-- ===== src/Tcp/Stranded.antt =====
-- TCPserver.py, class Server: a server whose address cannot be bound.
use live_translation.Base.{
  ℕ, ◌≡◌, refl, ap, sym, ◌∙◌, subst, Bool, true, false, List, [], ◌∷◌, ◌==◌, if◌then◌else◌,
}
use live_translation.Data.{Result, ok, ◌>>=◌}
use live_translation.Tcp.Lifecycle.{
  Fate, not_bound, Life, open_socket, with_keys, start_server, stop_clients, run_waiting,
  stop_server,
}

module _ (is_live leaves : ℕ → Bool) where
  -- Calls of the server's user.
  pub data Use : Type 0 where
    starts : Fate → Use
    stops : Use

  abbrev use_server : Life → Use → Result Life
  use_server self (starts fate) = ok (start_server self fate)
  use_server self stops = stop_server is_live leaves self

  abbrev pub use_all : Life → List Use → Result Life
  use_all self [] = ok self
  use_all self (u ∷ us) = use_server self u >>= λ s. use_all s us

  -- A server that has a socket and does not run.
  record IsStranded (self : Life) : Type 0 where
    pub down : self.server.running ≡ false
    pub socket : self.has_socket ≡ true

  with_keys-fields :
      (self : Life)
      → ((with_keys self).server.running ≡ self.server.running)
        × ((with_keys self).has_socket ≡ self.has_socket)
  with_keys-fields self = by_test (self.encryption == 0)
    where
      by_test :
          (b : Bool)
          → ((if b then self else record self { has_keys = true }).server.running
              ≡ self.server.running)
            × ((if b then self else record self { has_keys = true }).has_socket ≡ self.has_socket)
      by_test true = (refl, refl)
      by_test false = (refl, refl)

  start-IsStranded :
      (self : Life) (fate : Fate) → IsStranded self → IsStranded (start_server self fate)
  unfolding start_server
  start-IsStranded self fate h =
      let f = with_keys-fields self in
      subst IsStranded
        (sym (
          ap (λ b. if b then with_keys self else open_socket (with_keys self) fate)
            (f.1 ∙ h.socket)))
        (record { down = f.0 ∙ h.down; socket = f.1 ∙ h.socket })

  use_all-IsStranded :
      (self : Life) (us : List Use)
      → IsStranded self
      → (s : Life) × (use_all self us ≡ ok s) × IsStranded s
  unfolding stop_server
  use_all-IsStranded self [] h = (self, refl, h)
  use_all-IsStranded self (starts fate ∷ us) h =
      use_all-IsStranded (start_server self fate) us (start-IsStranded self fate h)
  use_all-IsStranded self (stops ∷ us) h =
      let rest = use_all-IsStranded self us h in
      (
        rest.0,
        ap
              (λ b.
                (if b
                  then (stop_clients is_live (record self.server { running = false })
                        self.server.clients
                      >>= λ s. run_waiting is_live leaves s >>= λ t.
                          ok (record self { server = t; has_socket = false; accepting = false }))
                  else ok self)
                >>= λ s. use_all s us)
              h.down
            ∙ rest.1,
        rest.2,
      )

  -- Once a server without a socket cannot bind its address, it never runs again, whatever calls of
  -- `start` and `stop` follow, and whatever these would meet.
  pub start_server-stranded :
      (self : Life) (us : List Use)
      → self.has_socket ≡ false
      → (s : Life) × (use_all self (starts not_bound ∷ us) ≡ ok s) × (s.server.running ≡ false)
  unfolding start_server
  start_server-stranded self us h =
      let f = with_keys-fields self in
      let failed =
        ap (λ b. if b then with_keys self else open_socket (with_keys self) not_bound) (f.1 ∙ h) in
      let r =
        use_all-IsStranded (start_server self not_bound) us
          (subst IsStranded (sym failed) (record { down = refl; socket = refl })) in
      (r.0, r.1, r.2.down)
