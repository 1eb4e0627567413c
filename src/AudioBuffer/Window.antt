-- ===== src/AudioBuffer/Window.antt =====
-- The ways in which a page is added to the window, and what each leaves in the state.
use live_translation.Base.{
  ℕ, ◌+ℤ◌, ◌-ℤ◌, ℤ, pos, ◌≡◌, refl, ◌≢◌, true, false, ◌&&◌, none, some, List, [], ◌∷◌, ◌++◌, arith,
  int_laws, inl, inr, Bool-cases, ltb_ℤ, ◌==◌,
}
use live_translation.Data.{ok, AudioData, Package, Outcome, exiting}
use live_translation.Ogg.Page.{OggSPage}
use live_translation.Ogg.Audio.{calculate_page_duration}
use live_translation.AudioBuffer.{
  CreateAudioBuffer, pop_page, publish, reaches, emit_window, previous_granule, add_page,
}

-- The end of the window, in samples since the start of the stream.
abbrev pub window_end : CreateAudioBuffer → ℤ
window_end self = self.current_audio_buffer_seconds +ℤ self.start_of_buffer_time

-- The state once the page has been appended.
abbrev pub appended : CreateAudioBuffer → OggSPage → CreateAudioBuffer
appended self page = record self {
  audio_data_buffer = self.audio_data_buffer ++ page ∷ [];
  current_audio_buffer_seconds =
      self.current_audio_buffer_seconds
      +ℤ (pos page.granule_position -ℤ pos (previous_granule self.audio_data_buffer));
}

-- The granule position of the first page, `g` if there is none.
abbrev pub first_granule : ℕ → List OggSPage → ℕ
first_granule g [] = g
first_granule g (p ∷ ps) = p.granule_position

-- The state once the first page, `p`, has left it.
abbrev pub popped : CreateAudioBuffer → OggSPage → List OggSPage → CreateAudioBuffer
popped self p ps =
    let d = pos (first_granule p.granule_position ps) -ℤ pos p.granule_position in
    record self {
      audio_data_buffer = ps;
      current_audio_buffer_seconds = self.current_audio_buffer_seconds -ℤ d;
      start_of_buffer_time = self.start_of_buffer_time +ℤ d;
    }

nonzero_rate : (rate : ℕ) → rate ≢ 0 → (rate == 0) ≡ false
nonzero_rate rate h = ground arith

calculate_page_duration-eq :
    (current previous rate : ℕ)
    → rate ≢ 0
    → calculate_page_duration current (some previous) rate ≡ ok (pos current -ℤ pos previous)
unfolding calculate_page_duration
calculate_page_duration-eq current previous rate h = rw (nonzero_rate rate h)

pop_page-popped :
    (self : CreateAudioBuffer) (p : OggSPage) (ps : List OggSPage)
    → self.sample_rate ≢ 0
    → pop_page self (p ∷ ps) ≡ (popped self p ps, none)
unfolding pop_page
pop_page-popped self p [] h =
    rw (
      calculate_page_duration-eq p.granule_position p.granule_position self.sample_rate h,
      pop_page,
    )
pop_page-popped self p (q ∷ ps) h =
    rw (
      calculate_page_duration-eq q.granule_position p.granule_position self.sample_rate h,
      pop_page,
    )

-- Popping moves the start of the window and leaves its end where it is.
pub window_end-popped :
    (self : CreateAudioBuffer) (p : OggSPage) (ps : List OggSPage)
    → window_end (popped self p ps) ≡ window_end self
window_end-popped self p ps = omega int_laws

-- The three ways to leave `add_page` with a sample rate other than 0.
pub data Added (self : CreateAudioBuffer) (dp : Package) (d : AudioData) (page : OggSPage)
    : Outcome CreateAudioBuffer → Type 0 where
  waits :
      {o : Outcome CreateAudioBuffer}
      → o ≡ exiting (appended self page) dp "Not enough audio data to create a package"
      → Added self dp d page o
  grows :
      {o : Outcome CreateAudioBuffer}
      → reaches (appended self page) self.last_n_seconds ≡ false
      → o ≡ publish (appended self page) dp d
      → Added self dp d page o
  slides :
      {o : Outcome CreateAudioBuffer} (p : OggSPage) (ps : List OggSPage)
      → self.audio_data_buffer ++ page ∷ [] ≡ p ∷ ps
      → reaches (appended self page) self.last_n_seconds ≡ true
      → o ≡ publish (popped (appended self page) p ps) dp d
      → Added self dp d page o

uncons :
    (xs : List OggSPage) (page : OggSPage)
    → (p : OggSPage) × (ps : List OggSPage) × (xs ++ page ∷ [] ≡ p ∷ ps)
uncons [] page = (page, [], refl)
uncons (x ∷ xs) page = (x, xs ++ page ∷ [], refl)

module _ (self : CreateAudioBuffer) (dp : Package) (d : AudioData) (page : OggSPage)
    (nonzero : self.sample_rate ≢ 0) where
  abbrev duration : ℤ
  duration = pos page.granule_position -ℤ pos (previous_granule self.audio_data_buffer)

  add_page-emit_window : add_page self dp d page ≡ emit_window (appended self page) dp d duration
  unfolding add_page
  add_page-emit_window = rw (
    calculate_page_duration-eq page.granule_position (previous_granule self.audio_data_buffer)
        self.sample_rate nonzero,
    add_page,
  )

  emit_window-Added : (dur : ℤ) → Added self dp d page (emit_window (appended self page) dp d dur)
  unfolding emit_window
  emit_window-Added dur =
      elim (Bool-cases (ltb_ℤ (pos 0) dur && reaches (appended self page) self.min_n_seconds)) [
        | inr e ↦ waits (rw e)
        | inl e ↦ elim (Bool-cases (reaches (appended self page) self.last_n_seconds)) [
          | inr f ↦ grows f (rw (e, f))
          | inl f ↦
              let (p, ps, g) = uncons self.audio_data_buffer page in
              slides p ps g f (rw (e, f, g, pop_page-popped (appended self page) p ps nonzero))
        ]
      ]

  pub add_page-Added : Added self dp d page (add_page self dp d page)
  add_page-Added = rw add_page-emit_window (emit_window-Added duration)
