-- ===== src/App/Live.antt =====
-- What main.py is for: a list of the clients that are there, in the order of their coming, each of which
-- gets every result of the instance.
use live_translation.Base.{
  true-false, ℕ, ◌≡◌, refl, Bool, true, false, not, Option, none, some, List, [], ◌∷◌, ◌++◌, ◌==◌,
  if◌then◌else◌, map, keep_if, All, All-append, Bool-cases, inl, inr, arith,
}
use live_translation.Data.{Text, Bytes, Word, AudioData}
use live_translation.App.{
  Action, sends, executes, unlisted, Event, connected, disconnected, timed_out, message, result,
}

abbrev pub is_live : List ℕ → ℕ → Bool
is_live [] c = false
is_live (d ∷ ds) c = let rest = is_live ds c in if d == c then true else rest

abbrev pub join : List ℕ → ℕ → List ℕ
join live c = if is_live live c then live else live ++ c ∷ []

abbrev pub leave : List ℕ → ℕ → List ℕ
leave live c = keep_if (λ d. not (d == c)) live

-- Each word with a space behind it.
abbrev pub spaced : List Word → Text
spaced [] = []
spaced (w ∷ ws) = w.word ++ 32 ∷ spaced ws

module _ (encode : Text → Bytes) (reaches : ℕ → Bytes → Bool) (instance_id : ℕ) where
  abbrev pub broadcast : List ℕ → Bytes → List Action
  broadcast live bytes = map (λ c. sends c bytes) (keep_if (λ c. reaches c bytes) live)

  abbrev pub announce_words : List ℕ → Option (List Word) → Option (List Word) → List Action
  announce_words live none u = []
  announce_words live (some ws) none = []
  announce_words live (some ws) (some us) = broadcast live (encode (spaced ws))

  abbrev pub announce : List ℕ → Option AudioData → List Action
  announce live none = []
  announce live (some d) = announce_words live d.confirmed_words d.unconfirmed_words

  abbrev pub live_step : List ℕ → Event → List ℕ × List Action
  live_step live (connected c) = (join live c, [])
  live_step live (disconnected c) = (leave live c, [])
  live_step live (timed_out c) = (leave live c, [])
  live_step live (message c bytes) =
      (live, if is_live live c then executes bytes instance_id ∷ [] else unlisted c ∷ [])
  live_step live (result d id) = (live, if instance_id == id then announce live d else [])

  unfoldable pub live_run : List ℕ → List Event → List Action
  live_run live [] = []
  live_run live (e ∷ es) = (live_step live e).1 ++ live_run (live_step live e).0 es

-- No client is in the list twice.
abbrev pub IsDistinct : List ℕ → Type 0
IsDistinct [] = Unit
IsDistinct (c ∷ cs) = All (λ d. (d == c) ≡ false) cs × IsDistinct cs

pub leave_unchanged :
    (cs : List ℕ) (c : ℕ) → All (λ d. (d == c) ≡ false) cs → keep_if (λ d. not (d == c)) cs ≡ cs
leave_unchanged [] c h = refl
leave_unchanged (d ∷ ds) c h = rw (h.0, keep_if, leave_unchanged ds c h.1)

All-keep_if : (P : ℕ → Type 0) (f : ℕ → Bool) (cs : List ℕ) → All P cs → All P (keep_if f cs)
All-keep_if P f [] h = tt
All-keep_if P f (c ∷ cs) h = elim (Bool-cases (f c)) [
  | inl e ↦ rw (e, keep_if) (h.0, All-keep_if P f cs h.1)
  | inr e ↦ rw (e, keep_if) (All-keep_if P f cs h.1)
]

pub leave-IsDistinct : (cs : List ℕ) (c : ℕ) → IsDistinct cs → IsDistinct (leave cs c)
leave-IsDistinct [] c h = tt
leave-IsDistinct (d ∷ ds) c h = elim (Bool-cases (d == c)) [
  | inl e ↦ rw (e, leave) (leave-IsDistinct ds c h.1)
  | inr e ↦
      rw (e, leave)
        (All-keep_if (λ x. (x == d) ≡ false) (λ x. not (x == c)) ds h.0, leave-IsDistinct ds c h.1)
]

append-IsDistinct :
    (cs : List ℕ) (c : ℕ) → IsDistinct cs → is_live cs c ≡ false → IsDistinct (cs ++ c ∷ [])
append-IsDistinct [] c h n = (tt, tt)
append-IsDistinct (d ∷ ds) c h n = elim (Bool-cases (d == c)) [
  | inl e ↦ absurd (true-false (rw e at n))
  | inr e ↦ (
    All-append (λ x. (x == d) ≡ false) ds (c ∷ []) h.0 (ground arith, tt),
    append-IsDistinct ds c h.1 (rw e at n),
  )
]

pub join-IsDistinct : (cs : List ℕ) (c : ℕ) → IsDistinct cs → IsDistinct (join cs c)
join-IsDistinct cs c h = elim (Bool-cases (is_live cs c)) [
  | inl e ↦ rw (e, join) h
  | inr e ↦ rw (e, join) (append-IsDistinct cs c h e)
]
