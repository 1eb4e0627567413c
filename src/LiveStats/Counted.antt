-- ===== src/LiveStats/Counted.antt =====
-- Taking the words that a test has found from a list, one by one.
use live_translation.Base.{
  and_parts, false-true, ◌≡◌, refl, ap, sym, ◌∙◌, ℤ, Bool, true, false, not, ◌&&◌, List, [], ◌∷◌,
  ◌++◌, keep_if, All, All-append, Bool-cases, inl, inr, arith,
}
use live_translation.Data.{Text, Word, ok, ◌>>=◌}
use live_translation.Ogg.Bytes.{bytes_eq}
use live_translation.Ogg.Page.Bounds.{bytes_eq→eq}
use live_translation.Udp.Routing.{bytes_eq_refl}
use live_translation.ConfirmWords.{eq_ℤ}
use live_translation.LiveStats.Timing.{word_eq, remove_word, remove_words}

eq_ℤ_refl : (a : ℤ) → eq_ℤ a a ≡ true
eq_ℤ_refl a = ground arith

word_eq_refl : (w : Word) → word_eq w w ≡ true
word_eq_refl w =
    rw (bytes_eq_refl w.word, eq_ℤ_refl w.start, eq_ℤ_refl w.end, eq_ℤ_refl w.probability)

eq_ℤ-path : (a b : ℤ) → eq_ℤ a b ≡ true → a ≡ b
eq_ℤ-path a b h = ground arith

word_eq-path : (v w : Word) → word_eq v w ≡ true → v ≡ w
word_eq-path v w h =
    let a =
      and_parts (bytes_eq v.word w.word)
        (eq_ℤ v.start w.start && (eq_ℤ v.end w.end && eq_ℤ v.probability w.probability)) h in
    let b =
      and_parts (eq_ℤ v.start w.start) (eq_ℤ v.end w.end && eq_ℤ v.probability w.probability) a.1 in
    let c = and_parts (eq_ℤ v.end w.end) (eq_ℤ v.probability w.probability) b.1 in
    same_fields v w (bytes_eq→eq v.word w.word a.0) (eq_ℤ-path v.start w.start b.0)
      (eq_ℤ-path v.end w.end c.0) (eq_ℤ-path v.probability w.probability c.1)
  where
    same_fields :
        (x y : Word)
        → x.word ≡ y.word
        → x.start ≡ y.start
        → x.end ≡ y.end
        → x.probability ≡ y.probability
        → x ≡ y
    same_fields x y a b c d =
        let base : ℤ → Text → Word = λ s t. record x { word = t; start = s } in
        ap (base x.start) a
        ∙ ap (λ s. base s y.word) b
        ∙ ap (λ e. let z : Word = record (base y.start y.word) { end = e } in z) c
        ∙ ap
            (λ q. let z : Word = record (base y.start y.word) { end = y.end; probability = q } in z)
            d

module _ (f : Word → Bool) where
  -- A word that is not equal to any of those before it is the one that `remove` takes.
  remove_word-behind :
      (pre : List Word) (w : Word) (ts : List Word)
      → All (λ v. f v ≡ false) pre
      → f w ≡ true
      → remove_word (pre ++ w ∷ ts) w ≡ ok (pre ++ ts)
  unfolding remove_word
  remove_word-behind [] w ts h e = rw (word_eq_refl w)
  remove_word-behind (v ∷ vs) w ts h e = elim (Bool-cases (word_eq v w)) [
    | inl q ↦ absurd (false-true (sym h.0 ∙ ap f (word_eq-path v w q) ∙ e))
    | inr q ↦ rw q (ap (λ r. r >>= λ us. ok (v ∷ us)) (remove_word-behind vs w ts h.1 e))
  ]

  shift_append : (xs : List Word) (y : Word) (ys : List Word) → (xs ++ y ∷ []) ++ ys ≡ xs ++ y ∷ ys
  shift_append [] y ys = refl
  shift_append (x ∷ xs) y ys = ap (◌∷◌ x) (shift_append xs y ys)

  -- Removing what a test has found, one by one, leaves what it has not found.
  pub remove_words-keep_if :
      (pre ts : List Word)
      → All (λ v. f v ≡ false) pre
      → remove_words (pre ++ ts) (keep_if f ts) ≡ ok (pre ++ keep_if (λ v. not (f v)) ts)
  unfolding remove_words
  remove_words-keep_if pre [] h = refl
  remove_words-keep_if pre (t ∷ ts) h = elim (Bool-cases (f t)) [
    | inl e ↦
        rw (e, keep_if, remove_word-behind pre t ts h e, remove_words)
          (remove_words-keep_if pre ts h)
    | inr e ↦
        rw (e, keep_if, ← shift_append pre t ts, ← shift_append pre t (keep_if (λ v. not (f v)) ts))
          (remove_words-keep_if (pre ++ t ∷ []) ts
            (All-append (λ v. f v ≡ false) pre (t ∷ []) h (e, tt)))
  ]
