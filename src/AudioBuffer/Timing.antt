-- ===== src/AudioBuffer/Timing.antt =====
-- The end of the window, the times that are passed on, and what happens where the window runs empty.
use live_translation.Base.{
  ℕ, ◌+ℤ◌, ◌-ℤ◌, ℤ, pos, ◌≡◌, refl, ◌≢◌, ap, sym, ◌∙◌, true, some, List, [], ◌∷◌, ◌++◌, arith,
  int_laws, ◌⊎◌, inl, inr, get_last?, leb_ℤ, ◌<◌, ◌*◌, ◌≤ℤ◌,
}
use live_translation.Data.{AudioData, Package, Outcome, running, exit}
use live_translation.Ogg.Page.{OggSPage}
use live_translation.Ogg.Split.Lossless.{join_raw}
use live_translation.AudioBuffer.{CreateAudioBuffer, init, reaches, previous_granule}
use live_translation.AudioBuffer.Window.{
  window_end, appended, popped, window_end-popped, Added, waits, grows, slides,
}

-- The window ends at the granule position of its last page; an empty one is at its beginning.
pub record IsTimed (self : CreateAudioBuffer) : Type 0 where
  pub ends : window_end self ≡ pos (previous_granule self.audio_data_buffer)
  pub fresh : self.audio_data_buffer ≡ [] → self.current_audio_buffer_seconds ≡ pos 0

pub init-IsTimed : (last min : ℕ) → IsTimed (init last min)
unfolding init
init-IsTimed last min = record { ends = omega int_laws; fresh = λ e. refl }

get_last?-append : (xs : List OggSPage) (p : OggSPage) → get_last? (xs ++ p ∷ []) ≡ some p
get_last?-append [] p = refl
get_last?-append (x ∷ []) p = refl
get_last?-append (x ∷ y ∷ xs) p = get_last?-append (y ∷ xs) p

previous_granule-append :
    (xs : List OggSPage) (p : OggSPage) → previous_granule (xs ++ p ∷ []) ≡ p.granule_position
previous_granule-append xs p = rw (get_last?-append xs p, previous_granule)

-- An append moves the end of the window to the page.
window_end-appended :
    (self : CreateAudioBuffer) (page : OggSPage)
    → window_end self ≡ pos (previous_granule self.audio_data_buffer)
    → window_end (appended self page) ≡ pos page.granule_position
window_end-appended self page h =
    regroup (pos (previous_granule self.audio_data_buffer)) self.current_audio_buffer_seconds
      self.start_of_buffer_time (pos page.granule_position) h
  where
    regroup : (a c s g : ℤ) → c +ℤ s ≡ a → (c +ℤ (g -ℤ a)) +ℤ s ≡ g
    regroup a c s g e = rw (← e) (omega int_laws)

-- A first page that lies before `last_n_seconds` does not fill the window by itself.
abbrev pub StartsEarly : CreateAudioBuffer → OggSPage → Type 0
StartsEarly self page =
    self.audio_data_buffer ≡ [] → page.granule_position < self.last_n_seconds * self.sample_rate

cons-ne-nil : {A : Type 0} (xs : List A) (x : A) → xs ++ x ∷ [] ≡ [] → ⊥
cons-ne-nil [] x e = cc
cons-ne-nil (y ∷ xs) x e = cc

appended-IsTimed :
    (self : CreateAudioBuffer) (page : OggSPage) → IsTimed self → IsTimed (appended self page)
appended-IsTimed self page h = record {
  ends =
      window_end-appended self page h.ends
      ∙ ap pos (sym (previous_granule-append self.audio_data_buffer page));
  fresh = λ e. absurd (cons-ne-nil self.audio_data_buffer page e);
}

-- What is left behind a first page that was popped.
popped_tail :
    (xs : List OggSPage) (page p : OggSPage) (ps : List OggSPage)
    → xs ++ page ∷ [] ≡ p ∷ ps
    → (xs ≡ []) ⊎ ((previous_granule ps ≡ page.granule_position) × (ps ≢ []))
popped_tail [] page p ps e = inl refl
popped_tail (x ∷ xs) page p ps e =
    let same : ps ≡ xs ++ page ∷ [] = ground arith in
    inr (rw same (previous_granule-append xs page), λ q. cons-ne-nil xs page (sym same ∙ q))

leb_ℤ→le : (a b : ℤ) → leb_ℤ a b ≡ true → a ≤ℤ b
leb_ℤ→le a b h = ground arith

late : (a g : ℕ) (c : ℤ) → c ≡ pos 0 → pos a ≤ℤ c +ℤ (pos g -ℤ pos 0) → g < a → ⊥
late a g c z h l = let h' : pos a ≤ℤ pos 0 +ℤ (pos g -ℤ pos 0) = rw z at h in omega int_laws

-- A first page that starts early does not reach `last_n_seconds`.
early-reaches :
    (self : CreateAudioBuffer) (page : OggSPage)
    → IsTimed self
    → StartsEarly self page
    → self.audio_data_buffer ≡ []
    → reaches (appended self page) self.last_n_seconds ≡ true
    → ⊥
early-reaches self page t s e r =
    late (self.last_n_seconds * self.sample_rate) page.granule_position
      self.current_audio_buffer_seconds (t.fresh e)
      (leb_ℤ→le (pos (self.last_n_seconds * self.sample_rate))
        (self.current_audio_buffer_seconds +ℤ (pos page.granule_position -ℤ pos 0)) (rw e at r))
      (s e)

module _ (self : CreateAudioBuffer) (dp : Package) (d : AudioData) (page : OggSPage)
    (t : IsTimed self) where
  pub Added-IsTimed :
      {o : Outcome CreateAudioBuffer}
      → Added self dp d page o
      → StartsEarly self page
      → IsTimed o.state
  Added-IsTimed (waits e) s = rw e (appended-IsTimed self page t)
  Added-IsTimed (grows _ e) s = rw e (appended-IsTimed self page t)
  Added-IsTimed (slides p ps g f e) s =
      rw e (elim (popped_tail self.audio_data_buffer page p ps g) [
        | inl n ↦ absurd (early-reaches self page t s n f)
        | inr (q, n) ↦ record {
          ends =
              window_end-popped (appended self page) p ps
              ∙ window_end-appended self page t.ends
              ∙ ap pos (sym q);
          fresh = λ z. absurd (n z);
        }
      ])

-- The package that was passed on: the window as bytes, and its two times.
pub record PassesOn (d : AudioData) (page : OggSPage) (o : Outcome CreateAudioBuffer) : Type 0 where
  pub time : ℤ
  pub start : ℤ
  pub written :
      o.dp.audio
      ≡ some (record d {
        raw_audio_data = o.state.header_buffer ++ join_raw o.state.audio_data_buffer;
        audio_buffer_time = some time;
        audio_buffer_start_after = some start;
      })
  pub placed : time +ℤ start ≡ pos page.granule_position

module _ (self : CreateAudioBuffer) (dp : Package) (d : AudioData) (page : OggSPage)
    (t : IsTimed self) where
  pub Added-PassesOn :
      {o : Outcome CreateAudioBuffer}
      → Added self dp d page o
      → o.dp.status ≡ running
      → PassesOn d page o
  Added-PassesOn (waits e) r = absurd (exited (rw e at r))
    where
      exited : exit ≡ running → ⊥
      exited q = cc
  Added-PassesOn (grows _ e) r = rw e (record {
    time = (appended self page).current_audio_buffer_seconds;
    start = self.start_of_buffer_time;
    written = refl;
    placed = window_end-appended self page t.ends;
  })
  Added-PassesOn (slides p ps g f e) r = rw e (record {
    time = (popped (appended self page) p ps).current_audio_buffer_seconds;
    start = (popped (appended self page) p ps).start_of_buffer_time;
    written = refl;
    placed = window_end-popped (appended self page) p ps ∙ window_end-appended self page t.ends;
  })
