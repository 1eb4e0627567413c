-- ===== src/App.antt =====
-- main.py and Client.py: the clients that main.py keeps, and its callbacks, which join the servers with
-- the pipeline. A stream client is known by a number. The callbacks of the servers and of the pipeline
-- are taken one after the other.
pub mod Live
pub mod Keys
pub mod Broadcast
pub mod Refines
pub mod Stuck
use live_translation.Base.{
  ℕ, ◌≡◌, Bool, true, false, ◌&&◌, Option, none, some, List, [], ◌∷◌, ◌++◌, ◌==◌, if◌then◌else◌,
  map, String,
}
use live_translation.Base.Dict.{get, put, pop}
use live_translation.Data.{Text, Bytes, Word, AudioData}

-- `Client`: `_client` is the stream client.
pub record Client : Type 0 where
  pub stream : ℕ
  pub instance_id : Option ℕ

unfoldable pub new_client : ℕ → Client
new_client c = record { stream = c; instance_id = none }

-- STATUS
pub data Stage : Type 0 where
  starting running stopping stopped : Stage

abbrev pub is_up : Stage → Bool
is_up running = true
is_up starting = false
is_up stopping = false
is_up stopped = false

-- The code of the answer, beside STATUS itself.
unfoldable pub healthcheck : Stage → Stage × ℕ
healthcheck status = if is_up status then (status, 200) else (status, 503)

-- What main.py keeps while it runs: `instance` and `client_dict`.
pub record App : Type 0 where
  pub instance_id : ℕ
  pub client_dict : List (ℕ × Client)

-- At the start of `main`.
abbrev pub start : ℕ → App
start i = record { instance_id = i; client_dict = [] }

-- What the callbacks do to the rest of the program: a message to a client, data given to the pipeline
-- for an instance, or a line on the terminal, "not in list" or "has no instance".
pub data Action : Type 0 where
  sends : ℕ → Bytes → Action
  executes : Bytes → ℕ → Action
  unlisted : ℕ → Action
  lacks_instance : ℕ → Action

-- What a callback leaves. One that is stuck waits for `client_dict_mutex` for ever, and holds it.
pub record Ran : Type 0 where
  pub app : App
  pub actions : List Action
  pub stuck : Bool

abbrev pub returns : App → List Action → Ran
returns app actions = record { app = app; actions = actions; stuck = false }

-- `with client_dict_mutex`, where the mutex is held or not: a lock that is held is waited for, and one that
-- is free is held in the body.
abbrev pub with_mutex : Bool → App → (Bool → Ran) → Ran
with_mutex held app body =
    if held then record { app = app; actions = []; stuck = true } else body true

abbrev pub same_client : ℕ → ℕ → Bool
same_client a b = a == b

-- `OnConnected`
unfoldable pub on_connected : Bool → App → ℕ → Ran
unfolding new_client
on_connected held app c =
    let newclient = record (new_client c) { instance_id = some app.instance_id } in
    with_mutex held app
      (λ h. returns (record app { client_dict = put same_client app.client_dict c newclient }) [])

-- `ondisconnedted`, and `ontimeout`: the key is deleted where it is there.
unfoldable pub on_gone : Bool → App → ℕ → Ran
on_gone held app c =
    with_mutex held app
      (λ h. returns (record app { client_dict = pop same_client app.client_dict c }) [])

abbrev pub execute_for : ℕ → Bytes → Option ℕ → List Action
execute_for c recv_data none = lacks_instance c ∷ []
execute_for c recv_data (some i) = executes recv_data i ∷ []

abbrev pub found : ℕ → Bytes → Option Client → List Action
found c recv_data none = unlisted c ∷ []
found c recv_data (some client) = execute_for c recv_data client.instance_id

-- `onmsg`
unfoldable pub on_msg : Bool → App → ℕ → Bytes → Ran
on_msg held app c recv_data =
    with_mutex held app (λ h. returns app (found c recv_data (get same_client app.client_dict c)))

-- `text += word.word + " "`, for each word.
unfoldable pub join_words : Text → List Word → Text
join_words text [] = text
join_words text (w ∷ ws) = join_words (text ++ (w.word ++ 32 ∷ [])) ws

abbrev pub matches : Option ℕ → ℕ → Bool
matches none id = false
matches (some i) id = i == id

-- What the servers and the pipeline call.
pub data Event : Type 0 where
  connected : ℕ → Event
  disconnected : ℕ → Event
  timed_out : ℕ → Event
  message : ℕ → Bytes → Event
  result : Option AudioData → ℕ → Event

-- The next callback, unless the mutex is never free again.
abbrev pub and_then : Ran → Ran → Ran
and_then first rest =
    if first.stuck
    then first
    else record { app = rest.app; actions = first.actions ++ rest.actions; stuck = rest.stuck }

-- Whether the message reaches the socket of the client, and whether the client has stopped before.
-- `encode` is `str.encode`.
module _ (encode : Text → Bytes) (reaches : ℕ → Bytes → Bool) (has_stopped : ℕ → Bool) where
  -- `stop` of the TCP client of a stream client: where it has not stopped before, it runs `ondisconnedted`
  -- in a thread and joins it, so that it comes to what the callback comes to.
  unfoldable pub stop_client : Bool → App → ℕ → Ran
  stop_client held app c = if has_stopped c then returns app [] else on_gone held app c

  -- The rest of the loop behind `client.send`, which stops the client where it fails.
  abbrev pub after_send : Bool → App → ℕ → Bytes → Ran → Ran
  after_send held app c bytes rest =
      if reaches c bytes
      then record rest { actions = sends c bytes ∷ rest.actions }
      else and_then (stop_client held app c) rest

  -- A key of the loop is there: the dictionary does not change while the mutex is held.
  abbrev pub send_to : Bool → App → ℕ → Bytes → Option Client → Ran → Ran
  send_to held app id bytes none rest = rest
  send_to held app id bytes (some client) rest =
      if matches client.instance_id id then after_send held app client.stream bytes rest else rest

  -- `for c in client_dict`
  unfoldable pub send_loop : Bool → App → ℕ → Bytes → List (ℕ × Client) → Ran
  unfolding stop_client
  send_loop held app id bytes [] = returns app []
  send_loop held app id bytes (e ∷ es) =
      let rest = send_loop held app id bytes es in
      send_to held app id bytes (get same_client app.client_dict e.0) rest

  abbrev pub publish_words : Bool → App → ℕ → Option (List Word) → Option (List Word) → Ran
  publish_words held app id none u = returns app []
  publish_words held app id (some ws) none = returns app []
  publish_words held app id (some ws) (some us) =
      with_mutex held app (λ h. send_loop h app id (encode (join_words [] ws)) app.client_dict)

  -- `callback`, on data and the instance of the package.
  unfoldable pub callback : Bool → App → Option AudioData → ℕ → Ran
  unfolding join_words
  callback held app none id = returns app []
  callback held app (some d) id = publish_words held app id d.confirmed_words d.unconfirmed_words

  -- The mutex is free between the callbacks, unless one is stuck.
  unfoldable pub handle : App → Event → Ran
  unfolding on_connected on_gone on_msg callback
  handle app (connected c) = on_connected false app c
  handle app (disconnected c) = on_gone false app c
  handle app (timed_out c) = on_gone false app c
  handle app (message c recv_data) = on_msg false app c recv_data
  handle app (result d id) = callback false app d id

  unfoldable pub run : App → List Event → Ran
  run app [] = returns app []
  run app (e ∷ es) = let first = handle app e in and_then first (run first.app es)
