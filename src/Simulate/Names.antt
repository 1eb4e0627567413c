-- ===== src/Simulate/Names.antt =====
-- simulate.py: the names in the list of pipelines, and the files that are named after them.
use live_translation.Base.{
  and_parts, none-some, true-false, ℕ, zero, suc, ◌≡◌, ◌≢◌, refl, ap, sym, ◌∙◌, Bool, true, false,
  not, ◌&&◌, some, List, [], ◌∷◌, ◌++◌, get_elem?, arith, length, length-append, length-append,
}
use live_translation.Data.{Text, codes}
use live_translation.Ogg.Bytes.{bytes_eq}
use live_translation.Udp.Routing.{bytes_eq_refl}
use live_translation.Simulate.{SimulationPipeline}
use live_translation.Simulate.Files.{simulation_file, simulation_beginning}
use live_translation.Simulate.Table.{simulation_pipeline_list}

-- No name is in the list twice.
abbrev differs : SimulationPipeline → SimulationPipeline → Bool
differs p q = not (bytes_eq p.name q.name) && not (bytes_eq q.name p.name)

abbrev every : {A : Type 0} → (A → Bool) → List A → Bool
every f [] = true
every f (x ∷ xs) = f x && every f xs

abbrev all_differ : List SimulationPipeline → Bool
all_differ [] = true
all_differ (p ∷ ps) = every (differs p) ps && all_differ ps

not-true : (a : Bool) → not a ≡ true → a ≡ false
not-true true h = sym h
not-true false h = refl

every-get_elem? :
    {A : Type 0} (f : A → Bool) (xs : List A) (i : ℕ) (x : A)
    → every f xs ≡ true
    → get_elem? xs i ≡ some x
    → f x ≡ true
every-get_elem? f [] i x h e = absurd (none-some x e)
every-get_elem? f (y ∷ ys) zero x h e =
    let same : y ≡ x = cc in ap f (sym same) ∙ (and_parts (f y) (every f ys) h).0
every-get_elem? f (y ∷ ys) (suc i) x h e =
    every-get_elem? f ys i x (and_parts (f y) (every f ys) h).1 e

differs-bytes_eq :
    (p q : SimulationPipeline)
    → differs p q ≡ true
    → (bytes_eq p.name q.name ≡ false) × (bytes_eq q.name p.name ≡ false)
differs-bytes_eq p q h =
    let both = and_parts (not (bytes_eq p.name q.name)) (not (bytes_eq q.name p.name)) h in
    (not-true (bytes_eq p.name q.name) both.0, not-true (bytes_eq q.name p.name) both.1)

names_apart :
    (ps : List SimulationPipeline) (i j : ℕ) (p q : SimulationPipeline)
    → all_differ ps ≡ true
    → get_elem? ps i ≡ some p
    → get_elem? ps j ≡ some q
    → i ≢ j
    → bytes_eq p.name q.name ≡ false
names_apart [] i j p q h e f n = absurd (none-some p e)
names_apart (x ∷ xs) zero zero p q h e f n = absurd (n refl)
names_apart (x ∷ xs) zero (suc j) p q h e f n =
    let same : x ≡ p = cc in
    let here = (and_parts (every (differs x) xs) (all_differ xs) h).0 in
    ap (λ z. bytes_eq z.name q.name) (sym same)
    ∙ (differs-bytes_eq x q (every-get_elem? (differs x) xs j q here f)).0
names_apart (x ∷ xs) (suc i) zero p q h e f n =
    let same : x ≡ q = cc in
    let here = (and_parts (every (differs x) xs) (all_differ xs) h).0 in
    ap (λ z. bytes_eq p.name z.name) (sym same)
    ∙ (differs-bytes_eq x p (every-get_elem? (differs x) xs i p here e)).1
names_apart (x ∷ xs) (suc i) (suc j) p q h e f n =
    names_apart xs i j p q (and_parts (every (differs x) xs) (all_differ xs) h).1 e f
      (λ k. n (ap suc k))

listed_apart : all_differ simulation_pipeline_list ≡ true
listed_apart = refl

cons-injective : (x y : ℕ) (xs ys : Text) → x ∷ xs ≡ y ∷ ys → xs ≡ ys
cons-injective x y xs ys e = cc

left_cancel : (b xs ys : Text) → b ++ xs ≡ b ++ ys → xs ≡ ys
left_cancel [] xs ys e = e
left_cancel (c ∷ cs) xs ys e = left_cancel cs xs ys (cons-injective c c (cs ++ xs) (cs ++ ys) e)

right_cancel : (s xs ys : Text) → xs ++ s ≡ ys ++ s → xs ≡ ys
right_cancel s [] [] e = refl
right_cancel s [] (y ∷ ys) e =
    let l = length-append (y ∷ ys) s in absurd (omega (arith, ap length e, l))
right_cancel s (x ∷ xs) [] e =
    let l = length-append (x ∷ xs) s in absurd (omega (arith, ap length e, l))
right_cancel s (x ∷ xs) (y ∷ ys) e =
    let rest = right_cancel s xs ys (cons-injective x y (xs ++ s) (ys ++ s) e) in
    let head : x ≡ y = cc in cc

-- For any recording, two places of the list have different simulation files, so no run overwrites, or
-- takes for its own, what another has left.
pub simulation_file-differs :
    (beginning : Text) (i j : ℕ) (p q : SimulationPipeline)
    → get_elem? simulation_pipeline_list i ≡ some p
    → get_elem? simulation_pipeline_list j ≡ some q
    → i ≢ j
    → simulation_file beginning p ≢ simulation_file beginning q
unfolding simulation_file
simulation_file-differs beginning i j p q e f n same =
    let both =
      right_cancel (codes "_simulation.pkl") (simulation_beginning beginning p)
        (simulation_beginning beginning q) same in
    let names : p.name ≡ q.name =
      cons-injective 95 95 p.name q.name
        (left_cancel beginning (codes "_" ++ p.name) (codes "_" ++ q.name) both) in
    true-false (
      sym (bytes_eq_refl q.name)
      ∙ ap (λ z. bytes_eq z q.name) (sym names)
      ∙ names_apart simulation_pipeline_list i j p q listed_apart e f n)
