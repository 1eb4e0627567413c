-- ===== src/Ogg/Audio/Collected.antt =====
-- Which pages `_extract_comment_header` takes for the comment header.
use mathlib.Core.List.{append_assoc}
use mathlib.Core.Path.{ap₂, subst}
use live_translation.Base.{
  ◌%◌, ◌≡◌, refl, ap, ◌∙◌, true, false, Option, none, some, List, [], ◌∷◌, ◌++◌, arith, ◌==◌, All,
  Bool-cases, inl, inr, Option-cases,
}
use live_translation.Ogg.Page.{OggSPage}
use live_translation.Ogg.Audio.{starts_comment, find_tags, collect, comment_header_pages}

-- The bit for a continued packet is set.
abbrev pub IsContinued : OggSPage → Type 0
IsContinued p = (p.header_type % 2 == 0) ≡ false

-- `collected` is a run of `pages`: the page with sequence number 1 that starts with OpusTags, the
-- continued pages behind it, and the first page that is not continued.
pub record IsCommentRun (pages collected : List OggSPage) : Type 0 where
  pub before : List OggSPage
  pub first : OggSPage
  pub middle : List OggSPage
  pub last : OggSPage
  pub after : List OggSPage
  pub within : pages ≡ before ++ first ∷ (middle ++ last ∷ after)
  pub taken : collected ≡ first ∷ (middle ++ last ∷ [])
  pub starts : starts_comment first ≡ true
  pub continued : All IsContinued middle
  pub ends : (last.header_type % 2 == 0) ≡ true

-- What `collect` adds to the pages that it has.
record Added (collected ps result : List OggSPage) : Type 0 where
  middle : List OggSPage
  last : OggSPage
  after : List OggSPage
  within : ps ≡ middle ++ last ∷ after
  taken : result ≡ collected ++ (middle ++ last ∷ [])
  continued : All IsContinued middle
  ends : (last.header_type % 2 == 0) ≡ true

collect-Added :
    (collected ps : List OggSPage) (result : List OggSPage)
    → collect collected ps ≡ some result
    → Added collected ps result
unfolding collect
collect-Added collected [] result h = absurd (cc)
collect-Added collected (p ∷ ps) result h = elim (Bool-cases (p.header_type % 2 == 0)) [
  | inl e ↦ record {
    middle = [];
    last = p;
    after = ps;
    within = refl;
    taken = ground arith;
    continued = tt;
    ends = e;
  }
  | inr e ↦
      let a = collect-Added (collected ++ p ∷ []) ps result (rw e at h) in
      record {
        middle = p ∷ a.middle;
        last = a.last;
        after = a.after;
        within = ap (◌∷◌ p) a.within;
        taken = a.taken ∙ append_assoc collected (p ∷ []) (a.middle ++ a.last ∷ []);
        continued = (e, a.continued);
        ends = a.ends;
      }
]

record Tags (pages : List OggSPage) (first : OggSPage) (ps : List OggSPage) : Type 0 where
  before : List OggSPage
  within : pages ≡ before ++ first ∷ ps
  starts : starts_comment first ≡ true

started :
    (p first : OggSPage) (pages ps : List OggSPage)
    → ◌≡◌ {A = Option (OggSPage × List OggSPage)} (some (p, pages)) (some (first, ps))
    → starts_comment p ≡ true
    → Tags (p ∷ pages) first ps
started p first pages ps h e =
    let same : p ≡ first = ground arith in
    let rest : pages ≡ ps = ground arith in
    record {
      before = [];
      within = ap₂ ◌∷◌ same rest;
      starts = subst (λ r. starts_comment r ≡ true) same e;
    }

find_tags-Tags :
    (pages : List OggSPage) (first : OggSPage) (ps : List OggSPage)
    → find_tags pages ≡ some (first, ps)
    → Tags pages first ps
unfolding find_tags
find_tags-Tags [] first ps h = absurd (cc)
find_tags-Tags (p ∷ pages) first ps h = elim (Bool-cases (starts_comment p)) [
  | inl e ↦ started p first pages ps (rw e at h) e
  | inr e ↦
      let t = find_tags-Tags pages first ps (rw e at h) in
      record { before = p ∷ t.before; within = ap (◌∷◌ p) t.within; starts = t.starts }
]

-- Whenever a comment header is found, its pages are a run of the stream's: the page with sequence
-- number 1 that starts with OpusTags, the continued pages behind it, and the page that follows these,
-- which is not continued.
pub comment_header_pages-IsCommentRun :
    (pages collected : List OggSPage)
    → comment_header_pages pages ≡ some collected
    → IsCommentRun pages collected
unfolding comment_header_pages
comment_header_pages-IsCommentRun pages collected h = elim (Option-cases (find_tags pages)) [
  | inl e ↦ absurd (none_some (rw (e, comment_header_pages) at h))
  | inr (r, e) ↦ run r.0 r.1 e (rw (e, comment_header_pages) at h)
]
  where
    none_some : ◌≡◌ {A = Option (List OggSPage)} none (some collected) → ⊥
    none_some q = cc

    run :
        (first : OggSPage) (ps : List OggSPage)
        → find_tags pages ≡ some (first, ps)
        → collect (first ∷ []) ps ≡ some collected
        → IsCommentRun pages collected
    run first ps e k =
        let t = find_tags-Tags pages first ps e in
        let a = collect-Added (first ∷ []) ps collected k in
        record {
          before = t.before;
          first = first;
          middle = a.middle;
          last = a.last;
          after = a.after;
          within = t.within ∙ ap (λ qs. t.before ++ first ∷ qs) a.within;
          taken = a.taken;
          starts = t.starts;
          continued = a.continued;
          ends = a.ends;
        }
