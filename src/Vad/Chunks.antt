-- ===== src/Vad/Chunks.antt =====
-- The segments of the chunks that regions are merged into, and the length of the chunks.
use live_translation.Base.{
  ◌+ℤ◌, ◌-ℤ◌, ◌≤ℤ◌, ◌<ℤ◌, ℤ, pos, ◌≡◌, refl, ap, sym, ◌∙◌, subst, Bool, true, false, ◌&&◌, List, [],
  ◌∷◌, ◌++◌, arith, int_laws, All, All-append, Bool-cases, inl, inr, ltb_ℤ, leb_ℤ,
}
use mathlib.Core.List.{append_assoc, append-nil}
use live_translation.Base.Sort.{IsSorted}
use live_translation.Data.{Chunk}
use live_translation.Vad.{
  Merge, close, is_full, add_segment, merge_segment, merge_loop, merge_timeline,
}

-- The segments of the chunks, in their order.
abbrev pub join_segments : List Chunk → List (ℤ × ℤ)
join_segments [] = []
join_segments (c ∷ cs) = c.segments ++ join_segments cs

join_segments-append :
    (cs : List Chunk) (c : Chunk) → join_segments (cs ++ c ∷ []) ≡ join_segments cs ++ c.segments
join_segments-append [] c = append-nil c.segments
join_segments-append (b ∷ cs) c =
    ap (λ x. b.segments ++ x) (join_segments-append cs c)
    ∙ sym (append_assoc b.segments (join_segments cs) c.segments)

abbrev seen : Merge → List (ℤ × ℤ)
seen m = join_segments m.merged_segments ++ m.seg_idxs

seen-close : (m : Merge) → join_segments (close m) ≡ seen m
seen-close m =
    join_segments-append m.merged_segments
      (record { start = m.curr_start; end = m.curr_end; segments = m.seg_idxs })

merge_segment-seen :
    (size : ℤ) (m : Merge) (s : ℤ × ℤ) → seen (merge_segment size m s) ≡ seen m ++ s ∷ []
unfolding merge_segment
merge_segment-seen size m s = elim (Bool-cases (is_full size m s)) [
  | inl e ↦ rw (e, merge_segment) (ap (λ x. x ++ s ∷ []) (seen-close m))
  | inr e ↦
      rw (e, merge_segment)
        (sym (append_assoc (join_segments m.merged_segments) m.seg_idxs (s ∷ [])))
]

merge_loop-seen :
    (size : ℤ) (m : Merge) (ss : List (ℤ × ℤ)) → join_segments (merge_loop size m ss) ≡ seen m ++ ss
unfolding merge_loop
merge_loop-seen size m [] = seen-close m ∙ sym (append-nil (seen m))
merge_loop-seen size m (s ∷ ss) =
    merge_loop-seen size (merge_segment size m s) ss
    ∙ ap (λ x. x ++ ss) (merge_segment-seen size m s)
    ∙ append_assoc (seen m) (s ∷ []) ss

-- The chunks hold the segments of the timeline, each once and in their order.
pub join_segments-merge_timeline :
    (size : ℤ) (ss : List (ℤ × ℤ)) → join_segments (merge_timeline size ss) ≡ ss
unfolding merge_timeline
join_segments-merge_timeline size [] = refl
join_segments-merge_timeline size (s ∷ ss) =
    merge_loop-seen size
      (record { merged_segments = []; curr_start = s.0; curr_end = pos 0; seg_idxs = [] }) (s ∷ ss)

-- A segment that is not empty and not longer than a chunk may be.
pub record IsTurn (size : ℤ) (s : ℤ × ℤ) : Type 0 where
  pub forward : s.0 <ℤ s.1
  pub short : s.1 ≤ℤ s.0 +ℤ size

abbrev pub by_time : ℤ × ℤ → ℤ × ℤ → Bool
by_time s t = leb_ℤ s.0 t.0

abbrev pub IsShort : ℤ → Chunk → Type 0
IsShort size c = (c.start <ℤ c.end) × (c.end ≤ℤ c.start +ℤ size)

-- What the loop keeps once it has a segment: short chunks, the open one among them.
record IsOpen (size : ℤ) (m : Merge) : Type 0 where
  closed : All (IsShort size) m.merged_segments
  forward : m.curr_start <ℤ m.curr_end
  short : m.curr_end ≤ℤ m.curr_start +ℤ size

close-IsShort : (size : ℤ) (m : Merge) → IsOpen size m → All (IsShort size) (close m)
close-IsShort size m h =
    All-append (IsShort size) m.merged_segments
      (record { start = m.curr_start; end = m.curr_end; segments = m.seg_idxs } ∷ []) h.closed
      ((h.forward, h.short), tt)

not_full :
    (size a b c d : ℤ)
    → (ltb_ℤ size (d -ℤ a) && ltb_ℤ (pos 0) (b -ℤ a)) ≡ false
    → a <ℤ b
    → a ≤ℤ c
    → c <ℤ d
    → (a <ℤ d) × (d ≤ℤ a +ℤ size)
not_full size a b c d e f g h = (omega arith, le_of (later (ltb_ℤ size (d -ℤ a)) e))
  where
    positive : ltb_ℤ (pos 0) (b -ℤ a) ≡ true
    positive = let l : pos 0 <ℤ b -ℤ a = omega int_laws in ground arith

    later : (t : Bool) → (t && ltb_ℤ (pos 0) (b -ℤ a)) ≡ false → t ≡ false
    later true q = sym positive ∙ q
    later false q = refl

    le_of : ltb_ℤ size (d -ℤ a) ≡ false → d ≤ℤ a +ℤ size
    le_of q = let l : d -ℤ a ≤ℤ size = ground arith in omega int_laws

merge_segment-IsOpen :
    (size : ℤ) (m : Merge) (s : ℤ × ℤ)
    → IsOpen size m
    → IsTurn size s
    → m.curr_start ≤ℤ s.0
    → IsOpen size (merge_segment size m s)
unfolding merge_segment
merge_segment-IsOpen size m s o t l = elim (Bool-cases (is_full size m s)) [
  | inl e ↦
      rw (e, merge_segment)
        (record { closed = close-IsShort size m o; forward = t.forward; short = t.short })
  | inr e ↦
      rw (e, merge_segment)
        (let n = not_full size m.curr_start m.curr_end s.0 s.1 e o.forward l t.forward in
          record { closed = o.closed; forward = n.0; short = n.1 })
]

-- The open chunk starts at the segment, or where it started before.
merge_segment-start :
    (size : ℤ) (m : Merge) (s : ℤ × ℤ)
    → m.curr_start ≤ℤ s.0
    → (merge_segment size m s).curr_start ≤ℤ s.0
unfolding merge_segment
merge_segment-start size m s l = elim (Bool-cases (is_full size m s)) [
  | inl e ↦ rw (e, merge_segment) (omega arith)
  | inr e ↦ rw (e, merge_segment) l
]

merge_loop-IsShort :
    (size : ℤ) (m : Merge) (ss : List (ℤ × ℤ))
    → IsOpen size m
    → All (IsTurn size) ss
    → IsSorted by_time ss
    → All (λ s. m.curr_start ≤ℤ s.0) ss
    → All (IsShort size) (merge_loop size m ss)
unfolding merge_loop
merge_loop-IsShort size m [] o t h l = close-IsShort size m o
merge_loop-IsShort size m (s ∷ ss) o t h l =
    merge_loop-IsShort size (merge_segment size m s) ss (merge_segment-IsOpen size m s o t.0 l.0)
      t.1 h.1 (behind (merge_segment size m s).curr_start ss (merge_segment-start size m s l.0) h.0)
  where
    behind :
        (a : ℤ) (ts : List (ℤ × ℤ))
        → a ≤ℤ s.0
        → All (λ t. by_time s t ≡ true) ts
        → All (λ t. a ≤ℤ t.0) ts
    behind a [] k q = tt
    behind a (r ∷ ts) k q = (chain a s.0 r.0 k q.0, behind a ts k q.1)
      where
        chain : (a b c : ℤ) → a ≤ℤ b → leb_ℤ b c ≡ true → a ≤ℤ c
        chain a b c i j = ground arith

and_false : (b c : Bool) → c ≡ false → (b && c) ≡ false
and_false true c h = h
and_false false c h = refl

-- The first segment opens a chunk.
merge_segment_first :
    (size : ℤ) (s : ℤ × ℤ) (m : Merge)
    → m.curr_end ≡ pos 0
    → m.curr_start ≡ s.0
    → pos 0 ≤ℤ s.0
    → merge_segment size m s ≡ add_segment m s
unfolding merge_segment
merge_segment_first size s m e b l =
    let none_yet : ltb_ℤ (pos 0) (m.curr_end -ℤ m.curr_start) ≡ false =
      rw (e, b) (negative s.0 l) in
    let f : is_full size m s ≡ false =
      and_false (ltb_ℤ size (s.1 -ℤ m.curr_start)) (ltb_ℤ (pos 0) (m.curr_end -ℤ m.curr_start))
        none_yet in
    rw (f, merge_segment)
  where
    negative : (a : ℤ) → pos 0 ≤ℤ a → ltb_ℤ (pos 0) (pos 0 -ℤ a) ≡ false
    negative a k = let q : pos 0 -ℤ a ≤ℤ pos 0 = omega int_laws in ground arith

-- Where the segments start at 0 or later, in order of their starts, and each is longer than 0 and at
-- most as long as a chunk may be, so is each of the chunks.
pub merge_timeline-IsShort :
    (size : ℤ) (ss : List (ℤ × ℤ))
    → All (λ s. pos 0 ≤ℤ s.0) ss
    → All (IsTurn size) ss
    → IsSorted by_time ss
    → All (IsShort size) (merge_timeline size ss)
unfolding merge_timeline merge_loop
merge_timeline-IsShort size [] p t h = tt
merge_timeline-IsShort size (s ∷ ss) p t h =
    let m : Merge = record {
      merged_segments = [];
      curr_start = s.0;
      curr_end = pos 0;
      seg_idxs = [];
    } in
    subst (λ n. All (IsShort size) (merge_loop size n ss))
      (sym (merge_segment_first size s m refl refl p.0))
      (merge_loop-IsShort size (add_segment m s) ss
        (record { closed = tt; forward = t.0.forward; short = t.0.short }) t.1 h.1 (later ss h.0))
  where
    later : (ts : List (ℤ × ℤ)) → All (λ t. by_time s t ≡ true) ts → All (λ t. s.0 ≤ℤ t.0) ts
    later [] q = tt
    later (r ∷ ts) q = (le s.0 r.0 q.0, later ts q.1)
      where
        le : (a b : ℤ) → leb_ℤ a b ≡ true → a ≤ℤ b
        le a b i = ground arith
