-- ===== src/App/Broadcast.antt =====
-- Sending to the clients of the dictionary, one after the other.
use live_translation.Base.{
  ℕ, ◌≡◌, refl, ap, ◌∙◌, Bool, true, false, List, [], ◌∷◌, ◌==◌, if◌then◌else◌, map, keep_if, All,
}
use live_translation.Base.Dict.{get}
use live_translation.Data.{Text, Bytes}
use live_translation.App.{
  Client, App, Ran, returns, same_client, and_then, on_gone, stop_client, matches, after_send,
  send_to, send_loop, Action, sends,
}
use live_translation.App.Live.{broadcast}
use live_translation.App.Keys.{keys, IsFound}

module _ (encode : Text → Bytes) (reaches : ℕ → Bytes → Bool) (has_stopped : ℕ → Bool) where
  -- A send fails only for a client that has stopped before.
  abbrev pub FailsStopped : Type 0
  FailsStopped = (c : ℕ) (bytes : Bytes) → reaches c bytes ≡ false → has_stopped c ≡ true

  abbrev sent : ℕ → Bytes → List Action → List Action
  sent c bytes rest = if reaches c bytes then sends c bytes ∷ rest else rest

  after_send-returns :
      (app : App) (c : ℕ) (bytes : Bytes) (rest : List Action)
      → FailsStopped
      → after_send encode reaches has_stopped true app c bytes (returns app rest)
        ≡ returns app (sent c bytes rest)
  unfolding stop_client
  after_send-returns app c bytes rest h = by_send (reaches c bytes) (has_stopped c) (h c bytes)
    where
      by_send :
          (b s : Bool)
          → (b ≡ false → s ≡ true)
          → (if b
              then record (returns app rest) { actions = sends c bytes ∷ rest }
              else and_then (if s then returns app [] else on_gone true app c) (returns app rest))
            ≡ returns app (if b then sends c bytes ∷ rest else rest)
      by_send true s k = refl
      by_send false s k = rw (k refl)

  broadcast-cons :
      (i c : ℕ) (cs : List ℕ) (bytes : Bytes)
      → sent c bytes (broadcast encode reaches i cs bytes)
        ≡ broadcast encode reaches i (c ∷ cs) bytes
  broadcast-cons i c cs bytes = by_send (reaches c bytes)
    where
      by_send :
          (b : Bool)
          → (if b
              then sends c bytes ∷ broadcast encode reaches i cs bytes
              else broadcast encode reaches i cs bytes)
            ≡ map
                (λ d. sends d bytes)
                (if b
                  then c ∷ keep_if (λ d. reaches d bytes) cs
                  else keep_if (λ d. reaches d bytes) cs)
      by_send true = refl
      by_send false = refl

  -- The entry of the loop is one whose client is found, and which belongs to the instance.
  pub send_to-IsFound :
      (app : App) (id c : ℕ) (bytes : Bytes) (rest : Ran)
      → IsFound app.instance_id app.client_dict c
      → send_to encode reaches has_stopped true app id bytes
          (get same_client app.client_dict c)
          rest
        ≡ (if app.instance_id == id
            then after_send encode reaches has_stopped true app c bytes rest
            else rest)
  send_to-IsFound app id c bytes rest f =
      ap (λ o. send_to encode reaches has_stopped true app id bytes o rest) f.there
      ∙ ap
          (λ o.
            if matches o id
            then after_send encode reaches has_stopped true app f.client.stream bytes rest
            else rest)
          f.entry.1
      ∙ ap
          (λ d.
            if app.instance_id == id
            then after_send encode reaches has_stopped true app d bytes rest
            else rest)
          f.entry.0

  pub send_loop-broadcast :
      (app : App) (id : ℕ) (bytes : Bytes) (es : List (ℕ × Client))
      → FailsStopped
      → All (λ e. IsFound app.instance_id app.client_dict e.0) es
      → send_loop encode reaches has_stopped true app id bytes es
        ≡ returns app (
            if app.instance_id == id
            then broadcast encode reaches app.instance_id (keys es) bytes
            else [])
  unfolding send_loop
  send_loop-broadcast app id bytes [] h k = by_id (app.instance_id == id)
    where
      by_id : (b : Bool) → returns app [] ≡ returns app (if b then [] else [])
      by_id true = refl
      by_id false = refl
  send_loop-broadcast app id bytes (e ∷ es) h k =
      send_to-IsFound app id e.0 bytes (send_loop encode reaches has_stopped true app id bytes es)
        k.0
      ∙ by_id (app.instance_id == id) (send_loop encode reaches has_stopped true app id bytes es)
          (send_loop-broadcast app id bytes es h k.1)
    where
      by_id :
          (b : Bool) (rest : Ran)
          → rest
            ≡ returns app
                (if b then broadcast encode reaches app.instance_id (keys es) bytes else [])
          → (if b then after_send encode reaches has_stopped true app e.0 bytes rest else rest)
            ≡ returns app
                (if b then broadcast encode reaches app.instance_id (keys (e ∷ es)) bytes else [])
      by_id true rest q =
          ap (after_send encode reaches has_stopped true app e.0 bytes) q
          ∙ after_send-returns app e.0 bytes
              (broadcast encode reaches app.instance_id (keys es) bytes) h
          ∙ ap (returns app) (broadcast-cons app.instance_id e.0 (keys es) bytes)
      by_id false rest q = q
