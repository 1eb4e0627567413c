-- ===== src/Base/Dict.antt =====
-- Python's dictionaries: entries in the order of their insertion, by a Boolean test of the keys.
use mathlib.Core.Path.{◌≡◌, refl, subst}
use mathlib.Core.Logic.{inl, inr}
use mathlib.Core.Bool.{Bool, true, false}
use mathlib.Core.List.{List, [], ◌∷◌, ◌++◌}
use mathlib.Core.Option.{Option, none, some}
use live_translation.Base.Tests.{if◌then◌else◌, Bool-cases}
use live_translation.Base.Lists.{All}

module _ {K V : Type 0} (same : K → K → Bool) where
  -- `d.get(k)`
  unfoldable pub get : List (K × V) → K → Option V
  get [] k = none
  get (e ∷ es) k = let rest = get es k in if same e.0 k then some e.1 else rest

  -- `d[k] = v`
  unfoldable pub put : List (K × V) → K → V → List (K × V)
  put [] k v = (k, v) ∷ []
  put (e ∷ es) k v = let rest = put es k v in if same e.0 k then (e.0, v) ∷ es else e ∷ rest

  -- `d.pop(k, None)`
  unfoldable pub pop : List (K × V) → K → List (K × V)
  pop [] k = []
  pop (e ∷ es) k = let rest = pop es k in if same e.0 k then es else e ∷ rest

  some-injective : (v w : V) → some v ≡ some w → v ≡ w
  some-injective v w h = cc

  none-some : (v : V) → ◌≡◌ {A = Option V} none (some v) → ⊥
  none-some v h = cc

  -- What holds of all entries holds of one that is found.
  pub All-get :
      (P : K × V → Type 0) (es : List (K × V)) (k : K) (v : V)
      → All P es
      → get es k ≡ some v
      → (j : K) × (same j k ≡ true) × P (j, v)
  unfolding get
  All-get P [] k v h e = absurd (none-some v e)
  All-get P (d ∷ es) k v h e = elim (Bool-cases (same d.0 k)) [
    | inl s ↦ (d.0, s, subst (λ w. P (d.0, w)) (some-injective d.1 v (rw s at e)) h.0)
    | inr s ↦ All-get P es k v h.1 (rw s at e)
  ]

  pub All-put :
      (P : K × V → Type 0) (es : List (K × V)) (k : K) (v : V)
      → All P es
      → P (k, v)
      → ((j : K) → same j k ≡ true → P (j, v))
      → All P (put es k v)
  unfolding put
  All-put P [] k v h n r = (n, tt)
  All-put P (d ∷ es) k v h n r = elim (Bool-cases (same d.0 k)) [
    | inl s ↦ rw s (r d.0 s, h.1)
    | inr s ↦ rw s (h.0, All-put P es k v h.1 n r)
  ]

  pub All-pop : (P : K × V → Type 0) (es : List (K × V)) (k : K) → All P es → All P (pop es k)
  unfolding pop
  All-pop P [] k h = tt
  All-pop P (d ∷ es) k h = elim (Bool-cases (same d.0 k)) [
    | inl s ↦ rw s h.1
    | inr s ↦ rw s (h.0, All-pop P es k h.1)
  ]

  -- A key that no entry has is put behind all entries, and is taken from there again.
  pub put-append :
      (es : List (K × V)) (k : K) (v : V)
      → All (λ e. same e.0 k ≡ false) es
      → put es k v ≡ es ++ (k, v) ∷ []
  unfolding put
  put-append [] k v h = refl
  put-append (d ∷ es) k v h = rw (h.0, put, put-append es k v h.1)

  pub pop-append :
      (es : List (K × V)) (k : K) (v : V)
      → same k k ≡ true
      → All (λ e. same e.0 k ≡ false) es
      → pop (es ++ (k, v) ∷ []) k ≡ es
  unfolding pop
  pop-append [] k v s h = rw s
  pop-append (d ∷ es) k v s h = rw (h.0, pop, pop-append es k v s h.1)

  -- What has been put under a key is found there.
  pub get-put : (es : List (K × V)) (k : K) (v : V) → same k k ≡ true → get (put es k v) k ≡ some v
  unfolding get put
  get-put [] k v s = rw s
  get-put (d ∷ es) k v s = elim (Bool-cases (same d.0 k)) [
    | inl e ↦ rw (e, get) (rw e)
    | inr e ↦ rw (e, get) (rw e (get-put es k v s))
  ]
