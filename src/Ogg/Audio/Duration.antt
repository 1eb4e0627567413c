-- ===== src/Ogg/Audio/Duration.antt =====
-- The duration of a stream, and how it is made up of the durations of its pages.
use live_translation.Base.{
  ℕ, ◌+ℤ◌, ◌-ℤ◌, ℤ, pos, ◌≡◌, refl, ◌≢◌, ◌∙◌, some, List, [], ◌∷◌, arith, int_laws, ◌==◌, false,
}
use live_translation.Data.{ok, err, zero_division}
use live_translation.Ogg.Page.{OggSPage}
use live_translation.Ogg.Headers.{OpusIdHeader, OpusCommentHeader}
use live_translation.Ogg.Audio.{page_duration, duration_loop, calculate_durations}

-- The granule position of the last page, `g` if there is none.
abbrev pub last_granule : ℕ → List OggSPage → ℕ
last_granule g [] = g
last_granule g (p ∷ ps) = last_granule p.granule_position ps

abbrev pub sum_durations : List OggSPage → ℤ
sum_durations [] = pos 0
sum_durations (p ∷ ps) = p.duration +ℤ sum_durations ps

-- The page but for its duration.
abbrev pub without_duration : OggSPage → OggSPage
without_duration p = record p { duration = pos 0 }

pub record Timed (rate g : ℕ) (acc : ℤ) (pages : List OggSPage) : Type 0 where
  pub timed : List OggSPage
  pub total : ℤ
  pub result : duration_loop rate g acc pages ≡ ok (timed, total)
  pub telescopes : total ≡ acc +ℤ (pos (last_granule g pages) -ℤ pos g)
  pub made_up : total ≡ acc +ℤ sum_durations timed

duration_loop-Timed :
    (rate g : ℕ) (acc : ℤ) (pages : List OggSPage) → rate ≢ 0 → Timed rate g acc pages
unfolding duration_loop page_duration
duration_loop-Timed rate g acc [] h = record {
  timed = [];
  total = acc;
  result = refl;
  telescopes = omega int_laws;
  made_up = omega int_laws;
}
duration_loop-Timed rate g acc (p ∷ ps) h =
    let d = pos p.granule_position -ℤ pos g in
    let t = duration_loop-Timed rate p.granule_position (acc +ℤ d) ps h in
    record {
      timed = record p { duration = d } ∷ t.timed;
      total = t.total;
      result = rw (nonzero) (rw t.result);
      telescopes = t.telescopes ∙ omega int_laws;
      made_up = t.made_up ∙ omega int_laws;
    }
  where
    nonzero : (rate == 0) ≡ false
    nonzero = ground arith

-- With both headers and a sample rate other than 0, the durations are the differences between
-- successive granule positions: the duration of the stream, in samples, is the last granule position
-- less the first, and it is the sum of the durations written into the pages behind the first one.
pub calculate_durations_total :
    (first : OggSPage) (rest : List OggSPage) (i : OpusIdHeader) (c : OpusCommentHeader)
    → i.input_sample_rate ≢ 0
    → (timed : List OggSPage) × (total : ℤ) × (calculate_durations (first ∷ rest) (some i) (some c)
        ≡ ok (first ∷ timed, total))
      × (total ≡ pos (last_granule first.granule_position rest) -ℤ pos first.granule_position)
      × (total ≡ sum_durations timed)
unfolding calculate_durations
calculate_durations_total first rest i c h =
    let t = duration_loop-Timed i.input_sample_rate first.granule_position (pos 0) rest h in
    (t.timed, t.total, rw t.result, t.telescopes ∙ omega int_laws, t.made_up ∙ omega int_laws)

-- A sample rate of 0 in the ID header raises, unless the stream has one page only.
pub calculate_durations_zero :
    (first second : OggSPage) (rest : List OggSPage) (i : OpusIdHeader) (c : OpusCommentHeader)
    → i.input_sample_rate ≡ 0
    → calculate_durations (first ∷ second ∷ rest) (some i) (some c) ≡ err zero_division
unfolding calculate_durations duration_loop page_duration
calculate_durations_zero first second rest i c h = rw h
