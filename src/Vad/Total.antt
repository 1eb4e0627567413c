-- ===== src/Vad/Total.antt =====
-- The search for the least score in the loop over the frames, and when it can fail.
use live_translation.Base.{
  ℕ, zero, suc, ◌+◌, ◌/◌, ◌<◌, ◌-ℤ◌, ℤ, ◌≡◌, refl, Bool, true, false, List, [], ◌∷◌, arith, ltb_ℤ,
  Bool-cases, inl, inr, length, drop, length-drop, length-append, if◌then◌else◌,
}
use live_translation.Data.{ok}
use live_translation.Vad.{
  Binarize, Binarized, least_from, argmin, at, put_region, append_score, divide, exceeds,
  close_region, step_active, step_frame, frames_loop, binarize_class,
}

least_from-lt :
    (n best i : ℕ) (y : ℤ) (xs : List ℤ) → best < n → i + length xs ≡ n → least_from best i y xs < n
unfolding least_from
least_from-lt n best i y [] l e = l
least_from-lt n best i y (x ∷ xs) l e = elim (Bool-cases (ltb_ℤ x y)) [
  | inl h ↦ rw (h, least_from) (least_from-lt n i (i + 1) x xs (omega arith) (omega arith))
  | inr h ↦ rw (h, least_from) (least_from-lt n best (i + 1) y xs l (omega arith))
]

argmin_total : (xs : List ℤ) → 0 < length xs → (i : ℕ) × (argmin xs ≡ ok i) × (i < length xs)
unfolding argmin
argmin_total [] l = absurd (omega arith)
argmin_total (x ∷ xs) l = (
  least_from 0 1 x xs,
  refl,
  least_from-lt (length (x ∷ xs)) 0 1 x xs (omega arith) (omega arith),
)

at_total : (xs : List ℤ) (i : ℕ) → i < length xs → (x : ℤ) × (at xs i ≡ ok x)
at_total [] i l = absurd (omega arith)
at_total (x ∷ xs) zero l = (x, refl)
at_total (x ∷ xs) (suc i) l = at_total xs i (omega arith)

-- There are as many times as scores.
abbrev IsPaired : Binarized → Type 0
IsPaired b = length b.curr_scores ≡ length b.curr_timestamps

record Kept (b : Binarized) : Type 0 where
  paired : IsPaired b
  some_score : 0 < length b.curr_scores

append_score-Kept : (b : Binarized) (t y : ℤ) → IsPaired b → Kept (append_score b t y)
append_score-Kept b t y h = record {
  paired =
      omega (arith, length-append b.curr_scores (y ∷ []), length-append b.curr_timestamps (t ∷ []));
  some_score = omega (arith, length-append b.curr_scores (y ∷ []));
}

divide_total :
    (self : Binarize) (b : Binarized)
    → Kept b
    → (c : Binarized) × (divide self b ≡ ok c) × IsPaired c
unfolding divide
divide_total self b k =
    let half = length b.curr_scores / 2 in
    let m =
      argmin_total (drop half b.curr_scores)
        (omega (arith, length-drop half b.curr_scores, k.some_score)) in
    let i = half + m.0 in
    let a =
      at_total b.curr_timestamps i (omega (arith, length-drop half b.curr_scores, m.2, k.paired)) in
    (
      record b {
        regions = put_region self b a.0;
        start = a.0;
        curr_scores = drop (i + 1) b.curr_scores;
        curr_timestamps = drop (i + 1) b.curr_timestamps;
      },
      rw (m.1, divide, a.1),
      omega (
        arith,
        length-drop (i + 1) b.curr_scores,
        length-drop (i + 1) b.curr_timestamps,
        k.paired,
      ),
    )

close_or_keep :
    (self : Binarize) (b : Binarized) (t : ℤ) (q : Bool)
    → IsPaired b
    → IsPaired (if q then close_region self b t else b)
close_or_keep self b t true h = refl
close_or_keep self b t false h = h

step_active_total :
    (self : Binarize) (b : Binarized) (t y : ℤ)
    → Kept b
    → (c : Binarized) × (step_active self b t y ≡ ok c) × Kept c
unfolding step_active
step_active_total self b t y k = elim (Bool-cases (exceeds (t -ℤ b.start) self.max_duration)) [
  | inl e ↦
      let d = divide_total self b k in
      (append_score d.0 t y, rw (e, step_active, d.1), append_score-Kept d.0 t y d.2)
  | inr e ↦
      let c = if ltb_ℤ y self.offset then close_region self b t else b in
      (
        append_score c t y,
        rw (e, step_active),
        append_score-Kept c t y (close_or_keep self b t (ltb_ℤ y self.offset) k.paired),
      )
]

step_frame_total :
    (self : Binarize) (b : Binarized) (t y : ℤ)
    → Kept b
    → (c : Binarized) × (step_frame self b t y ≡ ok c) × Kept c
unfolding step_frame
step_frame_total self b t y k =
    by_active (record b { t = t }) (record { paired = k.paired; some_score = k.some_score })
      b.is_active
  where
    by_onset :
        (c : Binarized)
        → Kept c
        → (q : Bool) → Kept (if q then record c { start = t; is_active = true } else c)
    by_onset c h true = record { paired = h.paired; some_score = h.some_score }
    by_onset c h false = h

    by_active :
        (c : Binarized)
        → Kept c
        → (q : Bool)
        → (d : Binarized) × ((if q
              then step_active self c t y
              else ok (if ltb_ℤ self.onset y then record c { start = t; is_active = true } else c))
            ≡ ok d)
          × Kept d
    by_active c h true = step_active_total self c t y h
    by_active c h false = (
      if ltb_ℤ self.onset y then record c { start = t; is_active = true } else c,
      refl,
      by_onset c h (ltb_ℤ self.onset y),
    )

frames_loop_total :
    (self : Binarize) (b : Binarized) (ts ys : List ℤ)
    → Kept b
    → (c : Binarized) × (frames_loop self b ts ys ≡ ok c)
unfolding frames_loop
frames_loop_total self b [] ys k = (b, refl)
frames_loop_total self b (t ∷ ts) [] k = (b, refl)
frames_loop_total self b (t ∷ ts) (y ∷ ys) k =
    let s = step_frame_total self b t y k in
    let r = frames_loop_total self s.0 ts ys s.2 in (r.0, rw (s.1, frames_loop) r.1)

-- On any scores of one frame or more, with any thresholds, paddings and greatest duration, the
-- regions of a class are found: no search for the least score meets an empty list or an index
-- without a time.
pub binarize_class_total :
    (self : Binarize) (t y : ℤ) (ts ys : List ℤ)
    → (regions : List (ℤ × ℤ)) × (binarize_class self (t ∷ ts) (y ∷ ys) ≡ ok regions)
unfolding binarize_class
binarize_class_total self t y ts ys =
    let b : Binarized = record {
      start = t;
      is_active = ltb_ℤ self.onset y;
      curr_scores = y ∷ [];
      curr_timestamps = t ∷ [];
      t = t;
      regions = [];
    } in
    let r = frames_loop_total self b ts ys (record { paired = refl; some_score = omega arith }) in
    (if r.0.is_active then put_region self r.0 r.0.t else r.0.regions, rw (r.1, binarize_class))
