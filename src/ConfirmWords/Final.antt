-- ===== src/ConfirmWords/Final.antt =====
-- What holds of the confirmed words after any call: order, confidence, number, and where they are from.
use live_translation.Base.{
  ℕ, zero, suc, ◌-◌, ◌≤◌, ℤ, ◌+ℤ◌, ◌≡◌, refl, ap, ◌∙◌, ◌≢◌, Bool, true, false, some, List, [], ◌∷◌,
  ◌++◌, arith, length, length-drop, drop, Bool-cases, inl, inr, All, All-append, All-drop, keep_if,
  ltb, ◌==◌,
}
use live_translation.Base.Sort.{IsSorted, sorted, sorted-IsSorted, insert_sorted}
use live_translation.Data.{Word, TextSegment, AudioData, Package}
use live_translation.ConfirmWords.{
  TextLib, ConfirmWords, overlaps, by_start, is_confident, limit, settle, confirm, execute,
  execute_on, collect_words, new_unconfirmed, words_to_confirm, remove_overlapping,
  execute_segments, execute_times,
}
use live_translation.ConfirmWords.Overlaps.{drop_overlaps, remove_overlapping-drop_overlaps}

module _ (P : Word → Type 0) where
  All-insert_sorted :
      (w : Word) (ws : List Word) → P w → All P ws → All P (insert_sorted by_start w ws)
  unfolding insert_sorted
  All-insert_sorted w [] h k = (h, tt)
  All-insert_sorted w (v ∷ ws) h k = elim (Bool-cases (by_start w v)) [
    | inl e ↦ rw e (h, k)
    | inr e ↦ rw e (k.0, All-insert_sorted w ws h k.1)
  ]

  All-sorted : (ws : List Word) → All P ws → All P (sorted by_start ws)
  unfolding sorted
  All-sorted [] h = tt
  All-sorted (w ∷ ws) h = All-insert_sorted w (sorted by_start ws) h.0 (All-sorted ws h.1)

  All-keep_if : (p : Word → Bool) (ws : List Word) → All P ws → All P (keep_if p ws)
  All-keep_if p [] h = tt
  All-keep_if p (w ∷ ws) h = elim (Bool-cases (p w)) [
    | inl e ↦ rw e (h.0, All-keep_if p ws h.1)
    | inr e ↦ rw e (All-keep_if p ws h.1)
  ]

  All-drop_overlaps : (lib : TextLib) (ws : List Word) → All P ws → All P (drop_overlaps lib ws)
  unfolding drop_overlaps
  All-drop_overlaps lib [] h = tt
  All-drop_overlaps lib (v ∷ []) h = h
  All-drop_overlaps lib (v ∷ w ∷ ws) h = elim (Bool-cases (overlaps lib v w)) [
    | inl e ↦ rw e (All-drop_overlaps lib (w ∷ ws) h.1)
    | inr e ↦ rw e (h.0, All-drop_overlaps lib (w ∷ ws) h.1)
  ]

  All-limit : (n : ℕ) (ws : List Word) → All P ws → All P (limit n ws)
  unfolding limit
  All-limit n ws h = elim (Bool-cases (ltb n (length ws))) [
    | inr e ↦ rw e h
    | inl e ↦ elim (Bool-cases (n == 0)) [
      | inl z ↦ rw (e, z) h
      | inr z ↦ rw (e, z) (All-drop P (length ws - n) ws h)
    ]
  ]

  All-settle : (lib : TextLib) (n : ℕ) (ws : List Word) → All P ws → All P (settle lib n ws)
  unfolding settle
  All-settle lib n ws h =
      All-limit n (remove_overlapping lib (sorted by_start (keep_if is_confident ws))) (
        rw (remove_overlapping-drop_overlaps lib (sorted by_start (keep_if is_confident ws))) (
          All-drop_overlaps lib (sorted by_start (keep_if is_confident ws))
            (All-sorted (keep_if is_confident ws) (All-keep_if is_confident ws h))))

keep_if-All : (p : Word → Bool) (ws : List Word) → All (λ w. p w ≡ true) (keep_if p ws)
keep_if-All p [] = tt
keep_if-All p (w ∷ ws) = elim (Bool-cases (p w)) [
  | inl e ↦ rw e (e, keep_if-All p ws)
  | inr e ↦ rw e (keep_if-All p ws)
]

IsSorted-drop : (n : ℕ) (ws : List Word) → IsSorted by_start ws → IsSorted by_start (drop n ws)
IsSorted-drop zero ws h = h
IsSorted-drop (suc n) [] h = tt
IsSorted-drop (suc n) (w ∷ ws) h = IsSorted-drop n ws h.1

IsSorted-limit : (n : ℕ) (ws : List Word) → IsSorted by_start ws → IsSorted by_start (limit n ws)
unfolding limit
IsSorted-limit n ws h = elim (Bool-cases (ltb n (length ws))) [
  | inr e ↦ rw e h
  | inl e ↦ elim (Bool-cases (n == 0)) [
    | inl z ↦ rw (e, z) h
    | inr z ↦ rw (e, z) (IsSorted-drop (length ws - n) ws h)
  ]
]

IsSorted-drop_overlaps :
    (lib : TextLib) (ws : List Word)
    → IsSorted by_start ws
    → IsSorted by_start (drop_overlaps lib ws)
unfolding drop_overlaps
IsSorted-drop_overlaps lib [] h = tt
IsSorted-drop_overlaps lib (v ∷ []) h = h
IsSorted-drop_overlaps lib (v ∷ w ∷ ws) h = elim (Bool-cases (overlaps lib v w)) [
  | inl e ↦ rw e (IsSorted-drop_overlaps lib (w ∷ ws) h.1)
  | inr e ↦ rw e (
    All-drop_overlaps (λ x. by_start v x ≡ true) lib (w ∷ ws) h.0,
    IsSorted-drop_overlaps lib (w ∷ ws) h.1,
  )
]

by_start_total : (v w : Word) → by_start v w ≡ false → by_start w v ≡ true
by_start_total v w h = ground arith

by_start_trans : (u v w : Word) → by_start u v ≡ true → by_start v w ≡ true → by_start u w ≡ true
by_start_trans u v w h k = ground arith

-- In order of their starts, and none below the least probability.
pub record IsFinal (ws : List Word) : Type 0 where
  pub in_order : IsSorted by_start ws
  pub confident : All (λ w. is_confident w ≡ true) ws

settle-IsFinal : (lib : TextLib) (n : ℕ) (ws : List Word) → IsFinal (settle lib n ws)
unfolding settle
settle-IsFinal lib n ws =
    let kept = keep_if is_confident ws in
    let ordered = sorted by_start kept in
    record {
      in_order = IsSorted-limit n (remove_overlapping lib ordered) (
          rw (remove_overlapping-drop_overlaps lib ordered) (
            IsSorted-drop_overlaps lib ordered
              (sorted-IsSorted by_start by_start_total by_start_trans kept)));
      confident =
          All-limit (λ w. is_confident w ≡ true) n (remove_overlapping lib ordered)
            (rw (remove_overlapping-drop_overlaps lib ordered) (
              All-drop_overlaps (λ w. is_confident w ≡ true) lib ordered
                (All-sorted (λ w. is_confident w ≡ true) kept (keep_if-All is_confident ws))));
    }

limit-IsFinal : (n : ℕ) (ws : List Word) → IsFinal ws → IsFinal (limit n ws)
limit-IsFinal n ws h = record {
  in_order = IsSorted-limit n ws h.in_order;
  confident = All-limit (λ w. is_confident w ≡ true) n ws h.confident;
}

pub length-limit : (n : ℕ) (ws : List Word) → n ≢ 0 → length (limit n ws) ≤ n
unfolding limit
length-limit n ws h = elim (Bool-cases (ltb n (length ws))) [
  | inr e ↦ rw e (ground arith)
  | inl e ↦ elim (Bool-cases (n == 0)) [
    | inl z ↦ absurd (h (ground arith))
    | inr z ↦ rw (e, z) (omega (arith, length-drop (length ws - n) ws))
  ]
]

-- Data that is ready for the module: transcribed segments, and both times of the buffer.
pub record Ready (d : AudioData) (segments : List TextSegment) (start seconds : ℤ) : Type 0 where
  pub segments_there : d.transcribed_segments ≡ some segments
  pub start_there : d.audio_buffer_start_after ≡ some start
  pub seconds_there : d.audio_buffer_time ≡ some seconds

execute_segments-Ready :
    (lib : TextLib) (self : ConfirmWords) (dp : Package) (d : AudioData)
    (segments : List TextSegment) (s t : ℤ)
    → Ready d segments s t
    → execute_segments lib self dp d d.transcribed_segments
      ≡ confirm lib self dp d (s +ℤ t) (collect_words segments)
execute_segments-Ready lib self dp d segments s t r =
    ap (execute_segments lib self dp d) r.segments_there
    ∙ ap (λ o. execute_times lib self dp d segments o d.audio_buffer_time) r.start_there
    ∙ ap (execute_times lib self dp d segments (some s)) r.seconds_there

-- The words that a call confirms, once it has been given new ones.
abbrev final_words : TextLib → ConfirmWords → List Word → List Word
final_words lib self ws =
    limit self.max_confirmed_words (settle lib self.max_confirmed_words (self.confirmed ++ ws))

module _ (lib : TextLib) (self : ConfirmWords) (dp : Package) (d : AudioData)
    (segments : List TextSegment) (s t : ℤ) (a : dp.audio ≡ some d) (r : Ready d segments s t) where
  -- Past its guards, a call confirms.
  execute-confirm : execute lib self dp ≡ confirm lib self dp d (s +ℤ t) (collect_words segments)
  unfolding execute
  execute-confirm =
      ap (execute_on lib self dp) a ∙ execute_segments-Ready lib self dp d segments s t r

  -- The confirmed words of a state satisfy a property if those of the state before and every cut of
  -- the settled words do.
  confirmed_by :
      (P : List Word → Type 0) (now : ℤ) (ws : List Word)
      → P self.confirmed
      → ((more : List Word)
          → more ≡ words_to_confirm self now (new_unconfirmed self ws)
          → P (final_words lib self more))
      → P (confirm lib self dp d now ws).state.confirmed
  unfolding confirm
  confirmed_by P now [] h k = h
  confirmed_by P now (w ∷ ws) h k =
      k (words_to_confirm self now (new_unconfirmed self (w ∷ ws))) refl

  -- On data with transcribed segments and both times, a call keeps the confirmed words in ascending
  -- order of their starts and free of words below the least probability.
  pub execute-IsFinal : IsFinal self.confirmed → IsFinal (execute lib self dp).state.confirmed
  execute-IsFinal h = rw execute-confirm (
      confirmed_by IsFinal (s +ℤ t) (collect_words segments) h (λ more _.
        limit-IsFinal self.max_confirmed_words
          (settle lib self.max_confirmed_words (self.confirmed ++ more))
          (settle-IsFinal lib self.max_confirmed_words (self.confirmed ++ more))))

  -- On such data, where `max_confirmed_words` is not 0, a call keeps the number of confirmed words
  -- within it.
  pub execute-length :
      self.max_confirmed_words ≢ 0
      → length self.confirmed ≤ self.max_confirmed_words
      → length (execute lib self dp).state.confirmed ≤ self.max_confirmed_words
  execute-length n h = rw execute-confirm (
      confirmed_by (λ ws. length ws ≤ self.max_confirmed_words) (s +ℤ t) (collect_words segments) h
        (λ more _.
          length-limit self.max_confirmed_words
            (settle lib self.max_confirmed_words (self.confirmed ++ more)) n))

  -- On such data, a call confirms no word but those that were confirmed before, and those among the
  -- new ones that do not start before the confirmed time less the offset and that ended at least
  -- `confirm_if_older_then` before the end of the buffer: what holds of all these holds of all the
  -- confirmed words.
  pub execute-All :
      (P : Word → Type 0)
      → All P self.confirmed
      → All P (words_to_confirm self (s +ℤ t) (new_unconfirmed self (collect_words segments)))
      → All P (execute lib self dp).state.confirmed
  execute-All P h k = rw execute-confirm (
      confirmed_by (All P) (s +ℤ t) (collect_words segments) h (λ more e.
        All-limit P self.max_confirmed_words
          (settle lib self.max_confirmed_words (self.confirmed ++ more))
          (All-settle P lib self.max_confirmed_words (self.confirmed ++ more)
            (All-append P self.confirmed more h (rw e k)))))
