-- ===== src/Udp/Reach.antt =====
-- The whitelist through every call.
use live_translation.Base.{
  ℕ, ◌≡◌, refl, subst, Bool, true, false, Option, none, some, [], ◌==◌, Bool-cases, Option-cases,
  inl, inr, ◌&&◌,
}
use live_translation.Base.Dict.{get}
use live_translation.Data.{Text, Bytes}
use live_translation.Ogg.Bytes.{bytes_eq}
use live_translation.Udp.{
  UdpClient, Server, done, add_client, set_client, stop_client, choose_client, handle_client,
  receive, on_event, remove_callback,
}
use live_translation.Udp.Whitelist.{
  IsWhitelist, add_client-IsWhitelist, set_client-IsWhitelist, LeavesWhitelist,
  stop_client-LeavesWhitelist, choose_client-IsWhitelist, announce-IsWhitelist,
}

module _ (decrypt : Bytes → Bytes → Bytes → Bytes) where
  handle_client-IsWhitelist :
      (c : Server × Option ℕ) (port : ℕ) (data_ : Bytes)
      → IsWhitelist c.0
      → IsWhitelist (handle_client decrypt c port data_).0
  handle_client-IsWhitelist (self, none) port data_ w = w
  handle_client-IsWhitelist (self, some c) port data_ w = announce-IsWhitelist self c port w

  receive-IsWhitelist :
      (self : Server) (host : Text) (port : ℕ) (data_ : Bytes)
      → IsWhitelist self
      → IsWhitelist (receive decrypt self host port data_).0
  unfolding receive
  receive-IsWhitelist self host port data_ w =
      elim (Option-cases (get bytes_eq self.clients host)) [
        | inl e ↦ rw (e, receive) w
        | inr (refs, e) ↦
            rw (e, receive)
              (handle_client-IsWhitelist (choose_client self host port refs) port data_
                (choose_client-IsWhitelist self host port refs w))
      ]

  -- The states that calls lead to, in any order, from a server without clients.
  pub data Reached : Server → Type 0 where
    created :
        (encryption : ℕ) (store : ℕ → UdpClient)
        → Reached (record {
          running = true;
          encryption = encryption;
          clients = [];
          lock_held = false;
          store = store;
          next_client = 0;
        })
    added :
        {self : Server} (host : Text) (key iv : Bytes)
        → Reached self
        → Reached (add_client self host key iv).0
    received :
        {self : Server} (host : Text) (port : ℕ) (data_ : Bytes)
        → Reached self
        → Reached (receive decrypt self host port data_).0
    stopped : {self s : Server} (r : ℕ) → Reached self → stop_client self r ≡ done s → Reached s
    listened :
        {self : Server} (r : ℕ) (is_message : Bool) (num_params callback : ℕ)
        → Reached self
        → Reached (record self {
          store =
              set_client self.store r (on_event (self.store r) is_message num_params callback).0;
        })
    unlistened :
        {self : Server} (r : ℕ) (is_message : Bool) (callback_id : ℕ)
        → Reached self
        → Reached (record self {
          store = set_client self.store r (remove_callback (self.store r) is_message callback_id);
        })

  on_event-host :
      (c : UdpClient) (is_message : Bool) (num_params callback : ℕ)
      → (on_event c is_message num_params callback).0.host ≡ c.host
  unfolding on_event
  on_event-host c is_message num_params callback =
      elim (Bool-cases (is_message && num_params == 2)) [ inl e ↦ rw e | inr e ↦ rw e ]

  remove_callback-host :
      (c : UdpClient) (is_message : Bool) (callback_id : ℕ)
      → (remove_callback c is_message callback_id).host ≡ c.host
  unfolding remove_callback
  remove_callback-host c true callback_id = refl
  remove_callback-host c false callback_id = refl

  -- Whatever calls of `add_client`, `_listen`, `Client.stop`, `on_event` and `remove_event` come, in
  -- any order, no list of the whitelist is empty, and each holds only clients that `add_client` made
  -- for the host of the list.
  pub Reached-IsWhitelist : {self : Server} → Reached self → IsWhitelist self
  Reached-IsWhitelist (created encryption store) = tt
  Reached-IsWhitelist (added {self} host key iv r) =
      add_client-IsWhitelist self host key iv (Reached-IsWhitelist r)
  Reached-IsWhitelist (received {self} host port data_ r) =
      receive-IsWhitelist self host port data_ (Reached-IsWhitelist r)
  Reached-IsWhitelist (stopped {self} {s} r h e) =
      subst LeavesWhitelist e (stop_client-LeavesWhitelist self r (Reached-IsWhitelist h))
  Reached-IsWhitelist (listened {self} r is_message num_params callback h) =
      set_client-IsWhitelist self r (on_event (self.store r) is_message num_params callback).0
        (on_event-host (self.store r) is_message num_params callback) (Reached-IsWhitelist h)
  Reached-IsWhitelist (unlistened {self} r is_message callback_id h) =
      set_client-IsWhitelist self r (remove_callback (self.store r) is_message callback_id)
        (remove_callback-host (self.store r) is_message callback_id) (Reached-IsWhitelist h)
