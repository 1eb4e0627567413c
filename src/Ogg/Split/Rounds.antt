-- ===== src/Ogg/Split/Rounds.antt =====
-- One round of the split loop, seen on the bytes that remain.
use mathlib.Core.Path.{fun_ext}
use native.Mathlib.Nat.{zero-add}
use live_translation.Base.{
  ℕ, ◌+◌, ◌-◌, ◌≤◌, ◌≡◌, refl, sym, ap, ◌∙◌, true, false, not, ◌||◌, none, some, arith, ltb, length,
  slice, take, drop, length-drop, length-take, drop-drop, take-take, ◌⊎◌, inl, inr, Bool-cases,
}
use live_translation.Data.{Bytes, ok, ◌>>=◌}
use live_translation.Ogg.Bytes.{byte_at, bytes_eq, sum, little, byte_at_total}
use live_translation.Ogg.Page.{OggSPage, oggs, new_page}
use live_translation.Ogg.Page.Bounds.{HasHeader, HasHeader-Accepted}
use live_translation.Ogg.Split.{sized, stops, cut_page, next_page}

-- A slice that starts at `o` is a slice from the start of what is left there.
slice-drop : (o b : ℕ) (xs : Bytes) → slice xs o (o + b) ≡ slice (drop o xs) 0 b
slice-drop o b xs = let e : o + b - o ≡ b - 0 = omega arith in rw e

drop-drop_header : (o : ℕ) (xs : Bytes) → drop (o + 27) xs ≡ drop 27 (drop o xs)
drop-drop_header o xs = sym (drop-drop o 27 (o + 27) xs refl)

-- The tests look only at what is left: a whole header that starts with the magic number.
stops-drop :
    (xs : Bytes) (o : ℕ)
    → stops xs o ≡ (ltb (length (drop o xs)) 27 || not (bytes_eq (slice (drop o xs) 0 4) oggs))
stops-drop xs o =
    let ys = drop o xs in
    let w : o + 27 - o ≡ 27 = omega arith in
    rw (w, take-take 4 27 ys (omega arith)) (ground (arith, length-take 27 ys, length-drop o xs))

pub stops_cases :
    (xs : Bytes) (o : ℕ) → (stops xs o ≡ true) ⊎ ((stops xs o ≡ false) × HasHeader (drop o xs))
stops_cases xs o = elim (Bool-cases (stops xs o)) [
  | inl e ↦ inl e
  | inr e ↦ inr (
    e,
    record { long = ground (arith, stops-drop xs o); magic = ground (arith, stops-drop xs o) },
  )
]

cut_page-drop : (xs : Bytes) (o n : ℕ) → cut_page xs o n ≡ cut_page (drop o xs) 0 n
unfolding cut_page
cut_page-drop xs o n =
    let ys = drop o xs in
    let e : o + 27 + n - (o + 27) ≡ 27 + n - 27 = omega arith in
    rw (e, drop-drop_header o xs)
      (rw (slice-drop o (27 + n + sum (slice ys 27 (27 + n))) xs, zero-add))

-- A round depends only on what is left.
pub next_page-drop : (xs : Bytes) (o : ℕ) → next_page xs o ≡ next_page (drop o xs) 0
unfolding next_page
next_page-drop xs o =
    rw (stops-drop xs o, stops-drop (drop o xs) 0, fun_ext (cut_page-drop xs o), slice-drop o 27 xs)

-- Where a whole header is left, the round finds a page of 27 bytes or more, cut from what is left.
pub record Found (ys : Bytes) : Type 0 where
  pub page : OggSPage
  pub size : ℕ
  pub next : next_page ys 0 ≡ ok (some (page, size))
  pub positive : 27 ≤ size
  pub raw : page.raw_data ≡ take size ys

HasHeader-take : (n : ℕ) (ys : Bytes) → 27 ≤ n → HasHeader ys → HasHeader (take n ys)
HasHeader-take n ys h k = record {
  long = omega (arith, length-take n ys, k.long);
  magic = rw (take-take 4 n ys (omega arith)) k.magic;
}

unfoldable pub announced : Bytes → ℕ → ℕ
announced ys n = 27 + n + sum (slice ys 27 (27 + n))

pub cut_page-eq :
    (ys : Bytes) (n : ℕ)
    → cut_page ys 0 n ≡ (new_page (take (announced ys n) ys) >>= sized (announced ys n))
unfolding cut_page announced
cut_page-eq ys n =
    let s = 27 + n + sum (slice ys 27 (27 + n)) in let e : 0 + s - 0 ≡ s = omega arith in rw e

cut_page_total :
    (ys : Bytes) (n : ℕ)
    → HasHeader ys
    → (p : OggSPage) × (s : ℕ) × (cut_page ys 0 n ≡ ok (p, s)) × (27 ≤ s) × (p.raw_data ≡ take s ys)
unfolding announced
cut_page_total ys n h = rw (cut_page-eq ys n) (built (announced ys n) (omega arith))
  where
    built :
        (s : ℕ)
        → 27 ≤ s
        → (p : OggSPage) × (t : ℕ) × ((new_page (take s ys) >>= sized s) ≡ ok (p, t))
          × (27 ≤ t)
          × (p.raw_data ≡ take t ys)
    built s l =
        let (p, e, a) = HasHeader-Accepted little (take s ys) (HasHeader-take s ys l h) in
        (p, s, rw e, l, ap (λ (q : OggSPage). q.raw_data) a.filled)

pub HasHeader-Found : (ys : Bytes) → HasHeader ys → Found ys
unfolding next_page
HasHeader-Found ys h =
    let (n, en) = byte_at_total (take 27 ys) 26 (omega (arith, length-take 27 ys, h.long)) in
    let (p, s, e, l, r) = cut_page_total ys n h in
    record { page = p; size = s; next = found n p s en e; positive = l; raw = r }
  where
    goes : stops ys 0 ≡ false
    goes = ground (arith, stops-drop ys 0, h.long, h.magic)

    found :
        (n : ℕ) (p : OggSPage) (s : ℕ)
        → byte_at (take 27 ys) 26 ≡ ok n
        → cut_page ys 0 n ≡ ok (p, s)
        → next_page ys 0 ≡ ok (some (p, s))
    found n p s en e = rw (goes, en, e)

pub stops-next_page : (ys : Bytes) (o : ℕ) → stops ys o ≡ true → next_page ys o ≡ ok none
unfolding next_page
stops-next_page ys o h = rw h

-- What a round at any offset does.
pub next_page_cases :
    (xs : Bytes) (o : ℕ)
    → ((next_page xs o ≡ ok none) × (stops (drop o xs) 0 ≡ true))
      ⊎ ((f : Found (drop o xs)) × (next_page xs o ≡ ok (some (f.page, f.size))))
next_page_cases xs o = elim (stops_cases (drop o xs) 0) [
  | inl e ↦ inl (next_page-drop xs o ∙ stops-next_page (drop o xs) 0 e, e)
  | inr (_, h) ↦ let f = HasHeader-Found (drop o xs) h in inr (f, next_page-drop xs o ∙ f.next)
]
