-- ===== src/AudioBuffer/Calls.antt =====
-- Whole calls of `execute`: what the search for the headers leaves alone, and the times that calls
-- pass on.
use live_translation.Base.{
  ℕ, ◌≡◌, refl, ◌≢◌, sym, ◌∙◌, true, Option, none, some, List, [], ◌∷◌, ◌++◌, arith, ◌⊎◌, inl, inr,
  ◌==◌, ◌<◌, ◌*◌, Bool-cases, subst,
}
use live_translation.Data.{
  Bytes, Result, ok, err, Error, AudioData, Package, Outcome, raising, running, exit, zero_division,
  Result-cases,
}
use live_translation.Ogg.Bytes.{little}
use live_translation.Ogg.Page.{OggSPage, new_page}
use live_translation.Ogg.Page.Bounds.{page_from_bytes-HasHeader}
use live_translation.Ogg.Headers.{OpusIdHeader, OpusCommentHeader}
use live_translation.Ogg.Audio.{audio_from_bytes, calculate_page_duration}
use live_translation.AudioBuffer.{
  CreateAudioBuffer, Headers, stop, go, reread, keep_headers, choose_headers, find_headers,
  lacks_headers, previous_granule, add_page, continue_with, execute_page, execute_raw, execute_on,
  execute,
}
use live_translation.AudioBuffer.Window.{Added, waits, grows, slides, add_page-Added}
use live_translation.AudioBuffer.Timing.{IsTimed, Added-IsTimed, PassesOn, Added-PassesOn}

-- The fields that make up the window.
pub record SameWindow (self s : CreateAudioBuffer) : Type 0 where
  pub last_n_seconds : s.last_n_seconds ≡ self.last_n_seconds
  pub buffer : s.audio_data_buffer ≡ self.audio_data_buffer
  pub seconds : s.current_audio_buffer_seconds ≡ self.current_audio_buffer_seconds
  pub start : s.start_of_buffer_time ≡ self.start_of_buffer_time

SameWindow-IsTimed : (self s : CreateAudioBuffer) → SameWindow self s → IsTimed self → IsTimed s
SameWindow-IsTimed self s w t = record {
  ends = rw (w.seconds, w.start, w.buffer) t.ends;
  fresh = λ e. w.seconds ∙ t.fresh (sym w.buffer ∙ e);
}

-- The search for the headers leaves the window alone, and a call that it ends passes nothing on.
abbrev LeavesWindow : CreateAudioBuffer → Package → Headers → Type 0
LeavesWindow self dp (stop o) = SameWindow self o.state × ((o.raised ≢ none) ⊎ (o.dp.status ≡ exit))
LeavesWindow self dp (go s) = SameWindow self s

SameWindow-refl : (self : CreateAudioBuffer) → SameWindow self self
SameWindow-refl self = record { last_n_seconds = refl; buffer = refl; seconds = refl; start = refl }

raised_some : (e : Error) → some e ≢ none
raised_some e q = cc

keep_headers-LeavesWindow :
    (self : CreateAudioBuffer) (dp : Package) (i : OpusIdHeader) (c : OpusCommentHeader)
    → LeavesWindow self dp (keep_headers self dp i c)
unfolding keep_headers
keep_headers-LeavesWindow self dp i c = by_pages (new_page i.page.raw_data) (reread c.pages)
  where
    same :
        (r : ℕ) (h : Option (List OggSPage))
        → SameWindow self (record self { sample_rate = r; header_pages = h })
    same r h = record { last_n_seconds = refl; buffer = refl; seconds = refl; start = refl }

    by_pages :
        (p : Result OggSPage) (ps : Result (List OggSPage))
        → LeavesWindow self dp (elim p [
          | err e ↦ stop (
              raising
                (record self { sample_rate = i.input_sample_rate; header_pages = some [] })
                dp
                e)
          | ok p ↦ elim ps [
            | err e ↦ stop (
                raising
                  (record self { sample_rate = i.input_sample_rate; header_pages = some (p ∷ []) })
                  dp
                  e)
            | ok ps ↦
                go (record self { sample_rate = i.input_sample_rate; header_pages = some (p ∷ ps) })
          ]
        ])
    by_pages (err e) ps = (same i.input_sample_rate (some []), inl (raised_some e))
    by_pages (ok p) (err e) = (same i.input_sample_rate (some (p ∷ [])), inl (raised_some e))
    by_pages (ok p) (ok ps) = same i.input_sample_rate (some (p ∷ ps))

choose_headers-LeavesWindow :
    (self : CreateAudioBuffer) (dp : Package) (i : Option OpusIdHeader)
    (c : Option OpusCommentHeader)
    → LeavesWindow self dp (choose_headers self dp i c)
choose_headers-LeavesWindow self dp (some i) (some c) = keep_headers-LeavesWindow self dp i c
choose_headers-LeavesWindow self dp (some i) none = (SameWindow-refl self, inr refl)
choose_headers-LeavesWindow self dp none c = (SameWindow-refl self, inr refl)

LeavesWindow-of_grown :
    (self : CreateAudioBuffer) (dp : Package) (bytes : Bytes) (h : Headers)
    → LeavesWindow (record self { header_buffer = bytes }) dp h
    → LeavesWindow self dp h
LeavesWindow-of_grown self dp bytes (stop o) (w, r) = (
  record {
    last_n_seconds = w.last_n_seconds;
    buffer = w.buffer;
    seconds = w.seconds;
    start = w.start;
  },
  r,
)
LeavesWindow-of_grown self dp bytes (go s) w = record {
  last_n_seconds = w.last_n_seconds;
  buffer = w.buffer;
  seconds = w.seconds;
  start = w.start;
}

find_headers-LeavesWindow :
    (self : CreateAudioBuffer) (dp : Package) (raw : Bytes)
    → LeavesWindow self dp (find_headers self dp raw)
unfolding find_headers
find_headers-LeavesWindow self dp raw =
    let s = record self { header_buffer = self.header_buffer ++ raw } in
    LeavesWindow-of_grown self dp s.header_buffer (find_headers self dp raw)
      (elim (Result-cases (audio_from_bytes s.header_buffer)) [
        | inl (e, h) ↦ rw (h, find_headers) (SameWindow-refl s, inl (raised_some e))
        | inr (a, h) ↦
            rw (h, find_headers) (choose_headers-LeavesWindow s dp a.id_header a.comment_header)
      ])

-- What a call does with a page: it adds it to the same window, or it ends without passing anything
-- on and leaves the window alone.
pub data Handled (self : CreateAudioBuffer) (dp : Package) (d : AudioData) (page : OggSPage)
    : Outcome CreateAudioBuffer → Type 0 where
  adds :
      {o : Outcome CreateAudioBuffer} (s : CreateAudioBuffer)
      → SameWindow self s
      → Added s dp d page o
      → Handled self dp d page o
  leaves :
      {o : Outcome CreateAudioBuffer}
      → SameWindow self o.state
      → (o.raised ≢ none) ⊎ (o.dp.status ≡ exit)
      → Handled self dp d page o

calculate_page_duration-zero :
    (current previous rate : ℕ)
    → (rate == 0) ≡ true
    → calculate_page_duration current (some previous) rate ≡ err zero_division
unfolding calculate_page_duration
calculate_page_duration-zero current previous rate h = rw h

add_page-Handled :
    (self s : CreateAudioBuffer) (dp : Package) (d : AudioData) (page : OggSPage)
    → SameWindow self s
    → Handled self dp d page (add_page s dp d page)
unfolding add_page
add_page-Handled self s dp d page w = elim (Bool-cases (s.sample_rate == 0)) [
  | inl z ↦
      rw
        (
          calculate_page_duration-zero page.granule_position (previous_granule s.audio_data_buffer)
              s.sample_rate z,
          add_page,
        )
        (leaves w (inl (raised_some zero_division)))
  | inr n ↦ adds s w (add_page-Added s dp d page (ground arith))
]

continue_with-Handled :
    (self : CreateAudioBuffer) (dp : Package) (d : AudioData) (page : OggSPage) (h : Headers)
    → LeavesWindow self dp h
    → Handled self dp d page (continue_with h dp d page)
continue_with-Handled self dp d page (stop o) (w, r) = leaves w r
continue_with-Handled self dp d page (go s) w = add_page-Handled self s dp d page w

execute_page-Handled :
    (self : CreateAudioBuffer) (dp : Package) (d : AudioData) (page : OggSPage)
    → new_page d.raw_audio_data ≡ ok page
    → Handled self dp d page (execute_page self dp d)
unfolding execute_page
execute_page-Handled self dp d page e = elim (Bool-cases (lacks_headers self.header_pages)) [
  | inl l ↦
      rw (e, l, execute_page)
        (continue_with-Handled self dp d page (find_headers self dp d.raw_audio_data)
          (find_headers-LeavesWindow self dp d.raw_audio_data))
  | inr l ↦ rw (e, l, execute_page) (add_page-Handled self self dp d page (SameWindow-refl self))
]

-- Bytes that hold a page are not empty.
execute_raw-Handled :
    (self : CreateAudioBuffer) (dp : Package) (d : AudioData) (page : OggSPage) (raw : Bytes)
    → new_page raw ≡ ok page
    → new_page d.raw_audio_data ≡ ok page
    → Handled self dp d page (execute_raw self dp d raw)
execute_raw-Handled self dp d page [] h e =
    absurd (omega (arith, (page_from_bytes-HasHeader little [] page h).long))
execute_raw-Handled self dp d page (b ∷ bs) h e = execute_page-Handled self dp d page e

execute-Handled :
    (self : CreateAudioBuffer) (dp : Package) (d : AudioData) (page : OggSPage)
    → dp.audio ≡ some d
    → new_page d.raw_audio_data ≡ ok page
    → Handled self dp d page (execute self dp)
unfolding execute
execute-Handled self dp d page a e =
    subst (λ o. Handled self dp d page (execute_on self dp o)) (sym a)
      (execute_raw-Handled self dp d page d.raw_audio_data e e)

Added-sample_rate :
    (s : CreateAudioBuffer) (dp : Package) (d : AudioData) (page : OggSPage)
    (o : Outcome CreateAudioBuffer)
    → Added s dp d page o
    → o.state.sample_rate ≡ s.sample_rate
Added-sample_rate s dp d page o (waits e) = rw e
Added-sample_rate s dp d page o (grows _ e) = rw e
Added-sample_rate s dp d page o (slides p ps _ _ e) = rw e

-- From a state whose window ends at the granule position of its last page, and counts no audio while
-- it is empty, a call on a page leads to such a state, whether it
-- raises, exits or passes the window on; a
-- page that meets an empty window must lie before `last_n_seconds` of audio.
pub execute-IsTimed :
    (self : CreateAudioBuffer) (dp : Package) (d : AudioData) (page : OggSPage)
    → dp.audio ≡ some d
    → new_page d.raw_audio_data ≡ ok page
    → IsTimed self
    → (self.audio_data_buffer ≡ []
        → page.granule_position < self.last_n_seconds * (execute self dp).state.sample_rate)
    → IsTimed (execute self dp).state
execute-IsTimed self dp d page a e t =
    handled (execute self dp) (execute-Handled self dp d page a e)
  where
    handled :
        (o : Outcome CreateAudioBuffer)
        → Handled self dp d page o
        → (self.audio_data_buffer ≡ []
            → page.granule_position < self.last_n_seconds * o.state.sample_rate)
        → IsTimed o.state
    handled o (leaves w _) early = SameWindow-IsTimed self o.state w t
    handled o (adds s w ad) early =
        Added-IsTimed s dp d page (SameWindow-IsTimed self s w t) ad (λ n.
          rw (w.last_n_seconds, ← Added-sample_rate s dp d page o ad) (early (sym w.buffer ∙ n)))

-- From such a state, what a call on a page passes on without an exception is the header bytes and the bytes
-- of the window that it leaves, and the two times written beside it add up to the granule position of the page
-- that came in.
pub execute-PassesOn :
    (self : CreateAudioBuffer) (dp : Package) (d : AudioData) (page : OggSPage)
    → dp.audio ≡ some d
    → new_page d.raw_audio_data ≡ ok page
    → IsTimed self
    → (execute self dp).raised ≡ none
    → (execute self dp).dp.status ≡ running
    → PassesOn d page (execute self dp)
execute-PassesOn self dp d page a e t =
    handled (execute self dp) (execute-Handled self dp d page a e)
  where
    handled :
        (o : Outcome CreateAudioBuffer)
        → Handled self dp d page o
        → o.raised ≡ none
        → o.dp.status ≡ running
        → PassesOn d page o
    handled o (adds s w ad) n r = Added-PassesOn s dp d page (SameWindow-IsTimed self s w t) ad r
    handled o (leaves w (inl q)) n r = absurd (q n)
    handled o (leaves w (inr q)) n r = absurd (clash (sym q ∙ r))
      where
        clash : exit ≡ running → ⊥
        clash z = cc
