-- ===== src/App/Keys.antt =====
-- The dictionary of main.py as a list of clients: its keys.
use live_translation.Base.{
  true-false, ℕ, ◌≡◌, refl, ap, sym, ◌∙◌, Bool, true, false, none, some, List, [], ◌∷◌, ◌++◌, ◌==◌,
  if◌then◌else◌, map, All, Bool-cases, inl, inr, arith,
}
use live_translation.Base.Dict.{get, put, pop}
use live_translation.App.{Client, App, same_client}
use live_translation.App.Live.{is_live, join, leave, IsDistinct, leave_unchanged}

abbrev pub keys : List (ℕ × Client) → List ℕ
keys = map (λ e. e.0)

-- An entry leads to its client, which belongs to the instance.
abbrev pub IsEntry : ℕ → ℕ × Client → Type 0
IsEntry i e = (e.1.stream ≡ e.0) × (e.1.instance_id ≡ some i)

-- The dictionary stands for this list of clients.
pub record Represents (app : App) (live : List ℕ) : Type 0 where
  pub same : keys app.client_dict ≡ live
  pub entries : All (IsEntry app.instance_id) app.client_dict
  pub distinct : IsDistinct live

pub keys-put :
    (es : List (ℕ × Client)) (c : ℕ) (v : Client) → keys (put same_client es c v) ≡ join (keys es) c
unfolding put
keys-put [] c v = refl
keys-put (e ∷ es) c v = elim (Bool-cases (e.0 == c)) [
  | inl q ↦ rw (q, put, join, is_live)
  | inr q ↦ rw (q, put) (ap (◌∷◌ e.0) (keys-put es c v) ∙ later (is_live (keys es) c))
]
  where
    later :
        (b : Bool)
        → e.0 ∷ (if b then keys es else keys es ++ c ∷ [])
          ≡ (if b then e.0 ∷ keys es else (e.0 ∷ keys es) ++ c ∷ [])
    later true = refl
    later false = refl

moved :
    (ds : List ℕ) (c d : ℕ)
    → (c == d) ≡ true
    → All (λ x. (x == c) ≡ false) ds
    → All (λ x. (x == d) ≡ false) ds
moved [] c d q k = tt
moved (x ∷ xs) c d q k = (ground arith, moved xs c d q k.1)

pub keys-pop :
    (es : List (ℕ × Client)) (c : ℕ)
    → IsDistinct (keys es)
    → keys (pop same_client es c) ≡ leave (keys es) c
unfolding pop
keys-pop [] c h = refl
keys-pop (e ∷ es) c h = elim (Bool-cases (e.0 == c)) [
  | inl q ↦ rw (q, pop, leave) (sym (leave_unchanged (keys es) c (moved (keys es) e.0 c q h.0)))
  | inr q ↦ rw (q, pop, leave) (ap (◌∷◌ e.0) (keys-pop es c h.1))
]

-- A key is there, and leads to its client.
pub record IsFound (i : ℕ) (es : List (ℕ × Client)) (c : ℕ) : Type 0 where
  pub client : Client
  pub there : get same_client es c ≡ some client
  pub entry : IsEntry i (c, client)

pub entry-IsFound :
    (i : ℕ) (es : List (ℕ × Client)) (c : ℕ)
    → All (IsEntry i) es
    → is_live (keys es) c ≡ true
    → IsFound i es c
unfolding get
entry-IsFound i [] c h l = absurd (cc)
entry-IsFound i (e ∷ es) c h l = elim (Bool-cases (e.0 == c)) [
  | inl q ↦ record { client = e.1; there = rw q; entry = (h.0.0 ∙ (ground arith), h.0.1) }
  | inr q ↦
      let f = entry-IsFound i es c h.1 (rw q at l) in
      record { client = f.client; there = rw q f.there; entry = f.entry }
]

pub entry_lost :
    (es : List (ℕ × Client)) (c : ℕ) → is_live (keys es) c ≡ false → get same_client es c ≡ none
unfolding get
entry_lost [] c l = refl
entry_lost (e ∷ es) c l = elim (Bool-cases (e.0 == c)) [
  | inl q ↦ absurd (true-false (rw q at l))
  | inr q ↦ rw q (entry_lost es c (rw q at l))
]

is_live_here : (c : ℕ) (ds : List ℕ) → is_live (c ∷ ds) c ≡ true
is_live_here c ds = let e : (c == c) ≡ true = ground arith in rw (e, is_live)

is_live_later : (c d : ℕ) (ds : List ℕ) → is_live ds c ≡ true → is_live (d ∷ ds) c ≡ true
is_live_later c d ds l = by_test (d == c)
  where
    by_test : (b : Bool) → (if b then true else is_live ds c) ≡ true
    by_test true = refl
    by_test false = l

-- Each key of a dictionary is found there.
pub All-IsFound :
    (i : ℕ) (es : List (ℕ × Client)) → All (IsEntry i) es → All (λ e. IsFound i es e.0) es
All-IsFound i es h = over es (λ c l. entry-IsFound i es c h l)
  where
    over :
        (ds : List (ℕ × Client))
        → ((c : ℕ) → is_live (keys ds) c ≡ true → IsFound i es c)
        → All (λ e. IsFound i es e.0) ds
    over [] k = tt
    over (d ∷ ds) k =
        (k d.0 (is_live_here d.0 (keys ds)), over ds (λ c l. k c (is_live_later c d.0 (keys ds) l)))
