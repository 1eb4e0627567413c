-- ===== src/LiveStats/Pairs.antt =====
-- Words that are found, each with its delay, and lists that a test parts in two.
use mathlib.Core.List.{Perm}
use mathlib.Core.List.Perm
use live_translation.Base.{
  ◌-ℤ◌, ◌≡◌, refl, ap, ℤ, Bool, true, false, not, List, [], ◌∷◌, ◌++◌, map, keep_if, All,
  Bool-cases, inl, inr,
}
use live_translation.Data.{Word}
use live_translation.LiveStats.Timing.{delays}

-- A word, and its delay.
abbrev pub Found : Type 0
Found = Word × ℤ

abbrev pub words : List Found → List Word
words es = map (λ e. e.0) es

abbrev pub times : List Found → List ℤ
times es = map (λ e. e.1) es

pub words-append : (xs ys : List Found) → words (xs ++ ys) ≡ words xs ++ words ys
words-append [] ys = refl
words-append (x ∷ xs) ys = ap (◌∷◌ x.0) (words-append xs ys)

pub times-append : (xs ys : List Found) → times (xs ++ ys) ≡ times xs ++ times ys
times-append [] ys = refl
times-append (x ∷ xs) ys = ap (◌∷◌ x.1) (times-append xs ys)

-- Each word with its delay at this output time.
abbrev pub at_time : ℤ → List Word → List Found
at_time out ws = map (λ w. (w, out -ℤ w.end)) ws

pub words-at_time : (out : ℤ) (ws : List Word) → words (at_time out ws) ≡ ws
words-at_time out [] = refl
words-at_time out (w ∷ ws) = ap (◌∷◌ w) (words-at_time out ws)

pub times-at_time : (out : ℤ) (ws : List Word) → times (at_time out ws) ≡ delays out ws
times-at_time out [] = refl
times-at_time out (w ∷ ws) = ap (◌∷◌ (out -ℤ w.end)) (times-at_time out ws)

perm_middle : (w : Word) (xs ys : List Word) → Perm (xs ++ w ∷ ys) (w ∷ xs ++ ys)
perm_middle w [] ys = Perm.refl _
perm_middle w (x ∷ xs) ys =
    Perm.trans (Perm.cons x (perm_middle w xs ys)) (Perm.swap w x (xs ++ ys))

pub keep_if-perm :
    (f : Word → Bool) (ts : List Word) → Perm (keep_if f ts ++ keep_if (λ v. not (f v)) ts) ts
keep_if-perm f [] = Perm.refl _
keep_if-perm f (t ∷ ts) = elim (Bool-cases (f t)) [
  | inl e ↦ rw (e, keep_if) (Perm.cons t (keep_if-perm f ts))
  | inr e ↦
      rw (e, keep_if)
        (Perm.trans (perm_middle t (keep_if f ts) (keep_if (λ v. not (f v)) ts))
          (Perm.cons t (keep_if-perm f ts)))
]

pub keep_if-true : (f : Word → Bool) (ts : List Word) → All (λ w. f w ≡ true) (keep_if f ts)
keep_if-true f [] = tt
keep_if-true f (t ∷ ts) = elim (Bool-cases (f t)) [
  | inl e ↦ rw (e, keep_if) (e, keep_if-true f ts)
  | inr e ↦ rw (e, keep_if) (keep_if-true f ts)
]

pub keep_if-false :
    (f : Word → Bool) (ts : List Word) → All (λ w. f w ≡ false) (keep_if (λ v. not (f v)) ts)
keep_if-false f [] = tt
keep_if-false f (t ∷ ts) = elim (Bool-cases (f t)) [
  | inl e ↦ rw (e, keep_if) (keep_if-false f ts)
  | inr e ↦ rw (e, keep_if) (e, keep_if-false f ts)
]

pub All-keep_if :
    (P : Word → Type 0) (f : Word → Bool) (ts : List Word) → All P ts → All P (keep_if f ts)
All-keep_if P f [] h = tt
All-keep_if P f (t ∷ ts) h = elim (Bool-cases (f t)) [
  | inl e ↦ rw (e, keep_if) (h.0, All-keep_if P f ts h.1)
  | inr e ↦ rw (e, keep_if) (All-keep_if P f ts h.1)
]

pub All-at_time :
    (P : Word → Type 0) (Q : Found → Type 0) (out : ℤ) (ws : List Word)
    → ((w : Word) → P w → Q (w, out -ℤ w.end))
    → All P ws
    → All Q (at_time out ws)
All-at_time P Q out [] f h = tt
All-at_time P Q out (w ∷ ws) f h = (f w h.0, All-at_time P Q out ws f h.1)

pub All-zip :
    {A : Type 0} (P Q R : A → Type 0) (xs : List A)
    → ((x : A) → P x → Q x → R x)
    → All P xs
    → All Q xs
    → All R xs
All-zip P Q R [] f h k = tt
All-zip P Q R (x ∷ xs) f h k = (f x h.0 k.0, All-zip P Q R xs f h.1 k.1)
