-- ===== src/Tcp/Callbacks.antt =====
-- TCPserver.py, class Client: the callbacks of its four events.
use live_translation.Base.{
  ℕ, ◌≡◌, refl, Option, none, some, ◌==◌, if◌then◌else◌, List, [], ◌∷◌, ◌++◌, ◌≢◌,
}
use live_translation.Event.{EventHandler, Reached, add_event, remove_event, emit, emit-add_event}

pub record TcpCallbacks : Type 0 where
  pub disconnected_callbacks : EventHandler ℕ
  pub timeout_callbacks : EventHandler ℕ
  pub message_callbacks : EventHandler ℕ
  pub ping_callbacks : EventHandler ℕ

-- The strings that name an event; `other` is any other string.
pub data EventType : Type 0 where
  disconnected_event timeout_event message_event ping_event other : EventType

-- How many parameters the callbacks of an event have.
abbrev pub params_of : EventType → ℕ
params_of message_event = 2
params_of disconnected_event = 1
params_of timeout_event = 1
params_of ping_event = 1
params_of other = 0

abbrev pub callbacks_of : TcpCallbacks → EventType → Option (EventHandler ℕ)
callbacks_of self disconnected_event = some self.disconnected_callbacks
callbacks_of self timeout_event = some self.timeout_callbacks
callbacks_of self message_event = some self.message_callbacks
callbacks_of self ping_event = some self.ping_callbacks
callbacks_of self other = none

abbrev pub with_callbacks : TcpCallbacks → EventType → EventHandler ℕ → TcpCallbacks
with_callbacks self disconnected_event h = record self { disconnected_callbacks = h }
with_callbacks self timeout_event h = record self { timeout_callbacks = h }
with_callbacks self message_event h = record self { message_callbacks = h }
with_callbacks self ping_event h = record self { ping_callbacks = h }
with_callbacks self other h = self

-- `on_event`, with the number of parameters that the callback has.
unfoldable pub on_tcp_event : TcpCallbacks → EventType → ℕ → ℕ → TcpCallbacks × Option ℕ
on_tcp_event self event_type num_params callback =
    elim (callbacks_of self event_type) as (λ _. TcpCallbacks × Option ℕ) [
      | none ↦ (self, none)
      | some h ↦
          if num_params == params_of event_type
          then (
            with_callbacks self event_type (add_event h callback).0,
            some (add_event h callback).1,
          )
          else (self, none)
    ]

-- `remove_event`
unfoldable pub remove_tcp_event : TcpCallbacks → EventType → ℕ → TcpCallbacks
remove_tcp_event self event_type event_id =
    elim (callbacks_of self event_type) as (λ _. TcpCallbacks) [
      | none ↦ self
      | some h ↦ with_callbacks self event_type (remove_event h event_id)
    ]

-- The callbacks that an event runs.
abbrev pub runs : TcpCallbacks → EventType → List ℕ
runs self event_type = elim (callbacks_of self event_type) as (λ _. List ℕ) [
  | none ↦ []
  | some h ↦ emit h
]

-- Handlers that calls of their methods have led to.
pub record AreReached (self : TcpCallbacks) : Type 0 where
  pub disconnected_reached : Reached self.disconnected_callbacks
  pub timeout_reached : Reached self.timeout_callbacks
  pub message_reached : Reached self.message_callbacks
  pub ping_reached : Reached self.ping_callbacks

-- What a registration does to an event, and what removal by the identifier undoes.
pub record Registered (self : TcpCallbacks) (e : EventType) (c : ℕ) : Type 0 where
  pub event_id : ℕ
  pub given : (on_tcp_event self e (params_of e) c).1 ≡ some event_id
  pub behind : runs (on_tcp_event self e (params_of e) c).0 e ≡ runs self e ++ c ∷ []
  pub undone :
      runs (remove_tcp_event (on_tcp_event self e (params_of e) c).0 e event_id) e ≡ runs self e

-- For each of the four events, a callback with the right number of parameters gets an identifier and
-- runs behind those that ran before, and removing it by that identifier leads back to these.
pub on_tcp_event-Registered :
    (self : TcpCallbacks) (e : EventType) (c : ℕ)
    → AreReached self
    → e ≢ other
    → Registered self e c
unfolding on_tcp_event remove_tcp_event
on_tcp_event-Registered self disconnected_event c r n =
    let p = emit-add_event c r.disconnected_reached in
    record {
      event_id = (add_event self.disconnected_callbacks c).1;
      given = refl;
      behind = p.0;
      undone = p.1;
    }
on_tcp_event-Registered self timeout_event c r n =
    let p = emit-add_event c r.timeout_reached in
    record {
      event_id = (add_event self.timeout_callbacks c).1;
      given = refl;
      behind = p.0;
      undone = p.1;
    }
on_tcp_event-Registered self message_event c r n =
    let p = emit-add_event c r.message_reached in
    record {
      event_id = (add_event self.message_callbacks c).1;
      given = refl;
      behind = p.0;
      undone = p.1;
    }
on_tcp_event-Registered self ping_event c r n =
    let p = emit-add_event c r.ping_reached in
    record {
      event_id = (add_event self.ping_callbacks c).1;
      given = refl;
      behind = p.0;
      undone = p.1;
    }
on_tcp_event-Registered self other c r n = absurd (n refl)
