-- ===== src/Event.antt =====
-- Event.py: the table of callbacks behind the servers' events. A callback is a value of the type C;
-- `emit` starts one thread per callback and waits for all, so what it gives is the callbacks it runs.
use live_translation.Base.{
  ℕ, ◌+◌, ◌<◌, ◌≡◌, refl, ap, true, false, List, [], ◌∷◌, ◌++◌, map, arith, ◌==◌, All,
}
use live_translation.Base.Dict.{put, pop, put-append, pop-append, All-put, All-pop}

pub record EventHandler (C : Type 0) : Type 0 where
  pub callbacks : List (ℕ × C)
  pub next_id : ℕ

module _ {C : Type 0} where
  abbrev pub new_handler : EventHandler C
  new_handler = record { callbacks = []; next_id = 0 }

  -- The handler, and the identifier that is returned.
  unfoldable pub add_event : EventHandler C → C → EventHandler C × ℕ
  add_event self callback =
      let event_id = self.next_id in
      (
        record self {
          next_id = self.next_id + 1;
          callbacks = put ◌==◌ self.callbacks event_id callback;
        },
        event_id,
      )

  unfoldable pub remove_event : EventHandler C → ℕ → EventHandler C
  remove_event self event_id = record self { callbacks = pop ◌==◌ self.callbacks event_id }

  unfoldable pub emit : EventHandler C → List C
  emit self = map (λ e. e.1) self.callbacks

  -- The handlers that the methods lead to.
  pub data Reached : EventHandler C → Type 0 where
    created : Reached new_handler
    added : {self : EventHandler C} (c : C) → Reached self → Reached (add_event self c).0
    removed : {self : EventHandler C} (i : ℕ) → Reached self → Reached (remove_event self i)

  abbrev IsBelow : ℕ → List (ℕ × C) → Type 0
  IsBelow n es = All (λ e. e.0 < n) es

  IsBelow-suc : (n : ℕ) (es : List (ℕ × C)) → IsBelow n es → IsBelow (n + 1) es
  IsBelow-suc n [] h = tt
  IsBelow-suc n (e ∷ es) h = (omega (arith, h.0), IsBelow-suc n es h.1)

  IsBelow-fresh : (n : ℕ) (es : List (ℕ × C)) → IsBelow n es → All (λ e. (e.0 == n) ≡ false) es
  IsBelow-fresh n [] h = tt
  IsBelow-fresh n (e ∷ es) h = (apart e.0 h.0, IsBelow-fresh n es h.1)
    where
      apart : (i : ℕ) → i < n → (i == n) ≡ false
      apart i l = ground arith

  Reached-IsBelow : {self : EventHandler C} → Reached self → IsBelow self.next_id self.callbacks
  unfolding add_event remove_event
  Reached-IsBelow created = tt
  Reached-IsBelow (added {self} c r) =
      All-put ◌==◌ (λ e. e.0 < self.next_id + 1) self.callbacks self.next_id c
        (IsBelow-suc self.next_id self.callbacks (Reached-IsBelow r)) (omega arith)
        (λ j s. ground arith)
  Reached-IsBelow (removed {self} i r) =
      All-pop ◌==◌ (λ e. e.0 < self.next_id) self.callbacks i (Reached-IsBelow r)

  map-append :
      (es : List (ℕ × C)) (i : ℕ) (c : C)
      → map (λ e. e.1) (es ++ (i, c) ∷ []) ≡ map (λ e. e.1) es ++ c ∷ []
  map-append [] i c = refl
  map-append (e ∷ es) i c = ap (◌∷◌ e.1) (map-append es i c)

  -- On a handler that calls have led to, an added callback runs behind all callbacks that ran before,
  -- and removing it by the identifier that was returned leads back to these.
  pub emit-add_event :
      {self : EventHandler C} (c : C)
      → Reached self
      → (emit (add_event self c).0 ≡ emit self ++ c ∷ [])
        × (emit (remove_event (add_event self c).0 (add_event self c).1) ≡ emit self)
  unfolding emit add_event remove_event
  emit-add_event {self} c r =
      let fresh = IsBelow-fresh self.next_id self.callbacks (Reached-IsBelow r) in
      let e = put-append ◌==◌ self.callbacks self.next_id c fresh in
      (
        rw e (map-append self.callbacks self.next_id c),
        rw e (
            ap (map (λ e. e.1))
              (pop-append ◌==◌ self.callbacks self.next_id c (equal self.next_id) fresh)),
      )
    where
      equal : (i : ℕ) → (i == i) ≡ true
      equal i = ground arith
