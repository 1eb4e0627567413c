-- ===== src/ConfirmWords/Overlaps.antt =====
-- The loop that pops the overlapping words, against a filter on neighbours.
use live_translation.Base.{
  ℕ, suc, ◌+◌, ◌-◌, ◌≡◌, refl, sym, ap, ◌∙◌, List, [], ◌∷◌, ◌++◌, map, arith, length, length-append,
  Bool-cases, inl, inr, if◌then◌else◌,
}
use mathlib.Core.List.{append_assoc}
use live_translation.Data.{Word}
use live_translation.ConfirmWords.{
  TextLib, overlaps, to_remove, remove_at, pop_each, remove_overlapping,
}

-- A word goes where its successor in the list starts before its end and sounds like it.
unfoldable pub drop_overlaps : TextLib → List Word → List Word
drop_overlaps lib [] = []
drop_overlaps lib (v ∷ []) = v ∷ []
drop_overlaps lib (v ∷ w ∷ ws) =
    let rest = drop_overlaps lib (w ∷ ws) in if overlaps lib v w then rest else v ∷ rest

-- One pop moves the later indices down by one.
to_remove-pred :
    (lib : TextLib) (i : ℕ) (ws : List Word)
    → map (λ x. x - 1) (to_remove lib (i + 1) ws) ≡ to_remove lib i ws
unfolding to_remove
to_remove-pred lib i [] = refl
to_remove-pred lib i (v ∷ []) = refl
to_remove-pred lib i (v ∷ w ∷ ws) = elim (Bool-cases (overlaps lib v w)) [
  | inl e ↦
      let same : i + 1 - 1 ≡ i = omega arith in rw (e, same, to_remove-pred lib (i + 1) (w ∷ ws))
  | inr e ↦ rw e (to_remove-pred lib (i + 1) (w ∷ ws))
]

length-pred : (is : List ℕ) → length (map (λ x. x - 1) is) ≡ length is
length-pred [] = refl
length-pred (i ∷ is) = ap suc (length-pred is)

remove_at-append :
    (pre : List Word) (v : Word) (ws : List Word)
    → remove_at (length pre) (pre ++ v ∷ ws) ≡ pre ++ ws
remove_at-append [] v ws = refl
remove_at-append (p ∷ pre) v ws = ap (◌∷◌ p) (remove_at-append pre v ws)

pop_each-to_remove :
    (lib : TextLib) (i : ℕ) (pre ws : List Word)
    → length pre ≡ i
    → pop_each (length (to_remove lib i ws)) (to_remove lib i ws) (pre ++ ws)
      ≡ pre ++ drop_overlaps lib ws
unfolding pop_each to_remove drop_overlaps
pop_each-to_remove lib i pre [] h = refl
pop_each-to_remove lib i pre (v ∷ []) h = refl
pop_each-to_remove lib i pre (v ∷ w ∷ ws) h = elim (Bool-cases (overlaps lib v w)) [
  | inl e ↦
      let up = to_remove lib (i + 1) (w ∷ ws) in
      let down = to_remove-pred lib i (w ∷ ws) in
      let len : length up ≡ length (to_remove lib i (w ∷ ws)) =
        sym (length-pred up) ∙ ap length down in
      rw (e, pop_each, down, len, ← h, remove_at-append pre v (w ∷ ws), h)
        (pop_each-to_remove lib i pre (w ∷ ws) h)
  | inr e ↦
      rw
        (
          e,
          ← append_assoc pre (v ∷ []) (w ∷ ws),
          ← append_assoc pre (v ∷ []) (drop_overlaps lib (w ∷ ws)),
        )
        (pop_each-to_remove lib (i + 1) (pre ++ v ∷ []) (w ∷ ws)
          (omega (arith, length-append pre (v ∷ []))))
]

-- Popping the collected indices one by one, each time moving the others down, removes exactly the
-- words that overlap a similar successor.
pub remove_overlapping-drop_overlaps :
    (lib : TextLib) (ws : List Word) → remove_overlapping lib ws ≡ drop_overlaps lib ws
unfolding remove_overlapping
remove_overlapping-drop_overlaps lib ws = pop_each-to_remove lib 0 [] ws refl
