-- ===== src/App/Stuck.antt =====
-- A message that does not reach its client, while main.py holds the mutex of its clients.
use live_translation.Base.{
  ℕ, ◌≡◌, refl, ap, ◌∙◌, Bool, true, false, some, List, [], ◌∷◌, ◌==◌, if◌then◌else◌, All,
  Bool-cases, inl, inr, arith,
}
use live_translation.Data.{Text, Bytes, Word, AudioData}
use live_translation.App.{
  Client, App, Ran, returns, and_then, on_gone, stop_client, after_send, send_loop, publish_words,
  callback, sends,
}
use live_translation.App.Live.{is_live, spaced}
use live_translation.App.Keys.{keys, Represents, IsFound, All-IsFound}
use live_translation.App.Broadcast.{send_to-IsFound}
use live_translation.App.Refines.{join_words-spaced}

module _ (encode : Text → Bytes) (reaches : ℕ → Bytes → Bool) (has_stopped : ℕ → Bool) where
  after_send-unreached :
      (app : App) (c : ℕ) (bytes : Bytes) (rest : Ran)
      → reaches c bytes ≡ false
      → has_stopped c ≡ false
      → (after_send encode reaches has_stopped true app c bytes rest).stuck ≡ true
  unfolding stop_client on_gone
  after_send-unreached app c bytes rest r s =
      ap
        (λ b.
          (if b
            then record rest { actions = sends c bytes ∷ rest.actions }
            else and_then (if has_stopped c then returns app [] else on_gone true app c)
                rest).stuck)
        r
      ∙ ap (λ b. (and_then (if b then returns app [] else on_gone true app c) rest).stuck) s

  -- A loop that is stuck later is stuck.
  after_send-stuck :
      (app : App) (c : ℕ) (bytes : Bytes) (rest : Ran)
      → rest.stuck ≡ true
      → (after_send encode reaches has_stopped true app c bytes rest).stuck ≡ true
  unfolding stop_client on_gone
  after_send-stuck app c bytes rest h = by_send (reaches c bytes) (has_stopped c)
    where
      by_send :
          (b s : Bool)
          → (if b
              then record rest { actions = sends c bytes ∷ rest.actions }
              else and_then (if s then returns app [] else on_gone true app c) rest).stuck
            ≡ true
      by_send true s = h
      by_send false true = h
      by_send false false = refl

  send_loop-stuck :
      (app : App) (c : ℕ) (bytes : Bytes) (es : List (ℕ × Client))
      → reaches c bytes ≡ false
      → has_stopped c ≡ false
      → is_live (keys es) c ≡ true
      → All (λ e. IsFound app.instance_id app.client_dict e.0) es
      → (send_loop encode reaches has_stopped true app app.instance_id bytes es).stuck ≡ true
  unfolding send_loop
  send_loop-stuck app c bytes [] r s l k = cc
  send_loop-stuck app c bytes (e ∷ es) r s l k =
      ap (λ x. x.stuck)
        (send_to-IsFound encode reaches has_stopped app app.instance_id e.0 bytes
          (send_loop encode reaches has_stopped true app app.instance_id bytes es) k.0)
      ∙ ap
          (λ b.
            (if b
              then after_send encode reaches has_stopped true app e.0 bytes
                  (send_loop encode reaches has_stopped true app app.instance_id bytes es)
              else send_loop encode reaches has_stopped true app app.instance_id bytes es).stuck)
          same
      ∙ elim (Bool-cases (e.0 == c)) [
        | inl q ↦
            let at : e.0 ≡ c = ground arith in
            after_send-unreached app e.0 bytes _ (ap (λ x. reaches x bytes) at ∙ r)
              (ap has_stopped at ∙ s)
        | inr q ↦
            after_send-stuck app e.0 bytes _ (send_loop-stuck app c bytes es r s (rw q at l) k.1)
      ]
    where
      same : (app.instance_id == app.instance_id) ≡ true
      same = ground arith

  -- Where the dictionary stands for a list of clients, a result of the instance with both kinds of words is
  -- stuck for ever as soon as its message does not reach one of them that has not stopped before: the mutex
  -- of the clients is held while that client stops, and stopping waits for a callback that takes the mutex.
  pub callback-stuck :
      (app : App) (live : List ℕ) (d : AudioData) (ws us : List Word) (c : ℕ)
      → Represents app live
      → d.confirmed_words ≡ some ws
      → d.unconfirmed_words ≡ some us
      → is_live live c ≡ true
      → reaches c (encode (spaced ws)) ≡ false
      → has_stopped c ≡ false
      → (callback encode reaches has_stopped false app (some d) app.instance_id).stuck ≡ true
  unfolding callback
  callback-stuck app live d ws us c p a b l r s =
      ap
        (λ o.
          (publish_words encode reaches has_stopped false app app.instance_id o
            d.unconfirmed_words).stuck)
        a
      ∙ ap
          (λ o.
            (publish_words encode reaches has_stopped false app app.instance_id (some ws) o).stuck)
          b
      ∙ ap
          (λ t.
            (send_loop encode reaches has_stopped true app app.instance_id (encode t)
              app.client_dict).stuck)
          (join_words-spaced [] ws)
      ∙ send_loop-stuck app c (encode (spaced ws)) app.client_dict r s
          (ap (λ k. is_live k c) p.same ∙ l) (All-IsFound app.instance_id app.client_dict p.entries)
