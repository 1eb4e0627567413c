-- ===== src/LiveStats/Found.antt =====
-- simulate_live_audio_stream.py: which words of the transcript `time_difference` counts, and with which
-- delay.
use mathlib.Core.List.{Perm, append_assoc}
use mathlib.Core.List.Perm
use live_translation.Base.{
  ◌+ℤ◌, ◌-ℤ◌, ◌≡◌, refl, ap, sym, ◌∙◌, subst, ℤ, Bool, true, false, not, Option, none, some, List,
  [], ◌∷◌, ◌++◌, keep_if, All, All-append,
}
use live_translation.Data.{Word, AudioData, Result, ok, ◌>>=◌}
use live_translation.ConfirmWords.{TextLib}
use live_translation.LiveStats.Timing.{
  LivePackage, is_confirmed, Differences, delays, add_delays, confirm_live, live_step, live_loop,
  time_difference, spread,
}
use live_translation.LiveStats.Counted.{remove_words-keep_if}
use live_translation.LiveStats.Pairs.{
  Found, words, times, words-append, times-append, at_time, words-at_time, times-at_time,
  keep_if-perm, keep_if-true, keep_if-false, All-keep_if, All-at_time, All-zip,
}

-- Data that has passed the audio buffer carries both its times.
pub record HasTimes (d : AudioData) : Type 0 where
  pub start : ℤ
  pub time : ℤ
  pub start_there : d.audio_buffer_start_after ≡ some start
  pub time_there : d.audio_buffer_time ≡ some time

abbrev pub IsTimedPackage : LivePackage → Type 0
IsTimedPackage dp = (d : AudioData) → dp.audio ≡ some d → HasTimes d

module _ (lib : TextLib) (offset : ℤ) where
  abbrev confirms_words : Option (List Word) → Word → Bool
  confirms_words none w = false
  confirms_words (some live) w = is_confirmed lib offset live w

  abbrev confirms_audio : Option AudioData → Word → Bool
  confirms_audio none w = false
  confirms_audio (some d) w = confirms_words d.confirmed_words w

  -- Some confirmed word of the package is like the word, at its time.
  abbrev confirms : LivePackage → Word → Bool
  confirms dp w = confirms_audio dp.audio w

  -- The first package that confirms a word gives its delay: from the end of the word to the end of the
  -- package's audio, and the time that the package has taken.
  pub data FirstAt (w : Word) (t : ℤ) : List LivePackage → Type 0 where
    here :
        {dp : LivePackage} {dps : List LivePackage} (start time : ℤ)
        → confirms dp w ≡ true
        → ((d : AudioData)
            → dp.audio ≡ some d
            → (d.audio_buffer_start_after ≡ some start) × (d.audio_buffer_time ≡ some time))
        → t ≡ ((start +ℤ time) +ℤ (dp.end_time -ℤ dp.start_time)) -ℤ w.end
        → FirstAt w t (dp ∷ dps)
    later :
        {dp : LivePackage} {dps : List LivePackage}
        → confirms dp w ≡ false
        → FirstAt w t dps
        → FirstAt w t (dp ∷ dps)

  -- No package confirms it.
  abbrev pub IsNever : List LivePackage → Word → Type 0
  IsNever dps w = All (λ dp. confirms dp w ≡ false) dps

  -- What some packages make of the two lists.
  record Parts (P : Found → Type 0) (Q : Word → Type 0) (s : Differences) (r : Result Differences)
      : Type 0 where
    next : Differences
    found : List Found
    returned : r ≡ ok next
    counted : next.diff ≡ s.diff ++ times found
    parts : Perm (words found ++ next.transcript_list) s.transcript_list
    found_at : All P found
    left : All Q next.transcript_list
    keeps :
        (g : Word → Bool)
        → All (λ w. g w ≡ false) s.transcript_list
        → All (λ e. g e.0 ≡ false) found × All (λ w. g w ≡ false) next.transcript_list

  abbrev IsHere : LivePackage → Option AudioData → Found → Type 0
  IsHere dp o e =
      (confirms_audio o e.0 ≡ true)
      × ((start time : ℤ) × ((d : AudioData)
            → o ≡ some d
            → (d.audio_buffer_start_after ≡ some start) × (d.audio_buffer_time ≡ some time))
          × (e.1 ≡ ((start +ℤ time) +ℤ (dp.end_time -ℤ dp.start_time)) -ℤ e.0.end))

  All-refl : (ws : List Word) → All (λ w. false ≡ false) ws
  All-refl [] = tt
  All-refl (w ∷ ws) = (refl, All-refl ws)

  append_nil : (xs : List ℤ) → xs ≡ xs ++ []
  append_nil [] = refl
  append_nil (x ∷ xs) = ap (◌∷◌ x) (append_nil xs)

  -- A package that confirms nothing.
  unchanged :
      (P : Found → Type 0) (Q : Word → Type 0) (s : Differences)
      → All Q s.transcript_list
      → Parts P Q s (ok s)
  unchanged P Q s h = record {
    next = s;
    found = [];
    returned = refl;
    counted = append_nil s.diff;
    parts = Perm.refl _;
    found_at = tt;
    left = h;
    keeps = λ g k. (tt, k);
  }

  confirm_live-Parts :
      (dp : LivePackage) (d : AudioData) (live : Option (List Word)) (s : Differences)
      → d.confirmed_words ≡ live
      → HasTimes d
      → Parts
          (IsHere dp (some d))
          (λ w. confirms_words live w ≡ false)
          s
          (confirm_live lib offset dp d live s)
  confirm_live-Parts dp d none s c h = unchanged _ _ s (All-refl s.transcript_list)
  confirm_live-Parts dp d (some live) s c h =
      let f : Word → Bool = is_confirmed lib offset live in
      let ws = keep_if f s.transcript_list in
      let ts = keep_if (λ v. not (f v)) s.transcript_list in
      let out = (h.start +ℤ h.time) +ℤ (dp.end_time -ℤ dp.start_time) in
      let rest : Differences = record s { transcript_list = ts } in
      record {
        next = record rest { diff = s.diff ++ delays out ws };
        found = at_time out ws;
        returned =
            ap
              (λ r. r >>= λ us. ok (
                add_delays dp ws d.audio_buffer_start_after d.audio_buffer_time
                  (record s { transcript_list = us })))
              (remove_words-keep_if f [] s.transcript_list tt)
            ∙ ap (λ a. ok (add_delays dp ws a d.audio_buffer_time rest)) h.start_there
            ∙ ap (λ t. ok (add_delays dp ws (some h.start) t rest)) h.time_there;
        counted = ap (λ x. s.diff ++ x) (sym (times-at_time out ws));
        parts =
            subst (λ x. Perm (x ++ ts) s.transcript_list) (sym (words-at_time out ws))
              (keep_if-perm f s.transcript_list);
        found_at =
            All-at_time (λ w. f w ≡ true) (IsHere dp (some d)) out ws
              (λ w k. (
                ap (λ o. confirms_words o w) c ∙ k,
                (h.start, h.time, λ d' e. same_times d' e, refl),
              ))
              (keep_if-true f s.transcript_list);
        left = keep_if-false f s.transcript_list;
        keeps = λ g k. (
          All-at_time (λ w. g w ≡ false) (λ e. g e.0 ≡ false) out ws (λ w q. q)
              (All-keep_if (λ w. g w ≡ false) f s.transcript_list k),
          All-keep_if (λ w. g w ≡ false) (λ v. not (f v)) s.transcript_list k,
        );
      }
    where
      same_times :
          (d' : AudioData)
          → some d ≡ some d'
          → (d'.audio_buffer_start_after ≡ some h.start) × (d'.audio_buffer_time ≡ some h.time)
      same_times d' e =
          let same : d ≡ d' = cc in
          subst
            (λ x. (x.audio_buffer_start_after ≡ some h.start) × (x.audio_buffer_time ≡ some h.time))
            same (h.start_there, h.time_there)

  live_step-Parts :
      (dp : LivePackage) (o : Option AudioData) (s : Differences)
      → ((d : AudioData) → o ≡ some d → HasTimes d)
      → Parts (IsHere dp o) (λ w. confirms_audio o w ≡ false) s (live_step lib offset dp o s)
  unfolding live_step
  live_step-Parts dp none s h = unchanged _ _ s (All-refl s.transcript_list)
  live_step-Parts dp (some d) s h = confirm_live-Parts dp d d.confirmed_words s refl (h d refl)

  live_loop-Parts :
      (dps : List LivePackage) (s : Differences)
      → All IsTimedPackage dps
      → Parts (λ e. FirstAt e.0 e.1 dps) (IsNever dps) s (live_loop lib offset dps s)
  unfolding live_loop
  live_loop-Parts [] s h = unchanged _ _ s (all_never s.transcript_list)
    where
      all_never : (ws : List Word) → All (IsNever []) ws
      all_never [] = tt
      all_never (w ∷ ws) = (tt, all_never ws)
  live_loop-Parts (dp ∷ dps) s h =
      let one = live_step-Parts dp dp.audio s h.0 in
      let more = live_loop-Parts dps one.next h.1 in
      let kept = more.keeps (confirms dp) one.left in
      record {
        next = more.next;
        found = one.found ++ more.found;
        returned = ap (λ r. r >>= λ n. live_loop lib offset dps n) one.returned ∙ more.returned;
        counted =
            more.counted
            ∙ ap (λ x. x ++ times more.found) one.counted
            ∙ append_assoc s.diff (times one.found) (times more.found)
            ∙ ap (λ x. s.diff ++ x) (sym (times-append one.found more.found));
        parts =
            subst (λ x. Perm x s.transcript_list)
              (sym (
                ap (λ x. x ++ more.next.transcript_list) (words-append one.found more.found)
                ∙ append_assoc (words one.found) (words more.found) more.next.transcript_list))
              (Perm.trans (Perm.append_left (words one.found) more.parts) one.parts);
        found_at =
            All-append (λ e. FirstAt e.0 e.1 (dp ∷ dps)) one.found more.found
              (All-zip (IsHere dp dp.audio) (IsHere dp dp.audio) (λ e. FirstAt e.0 e.1 (dp ∷ dps))
                one.found (λ e k j. here k.1.0 k.1.1 k.0 k.1.2 k.1.3) one.found_at one.found_at)
              (All-zip (λ e. confirms dp e.0 ≡ false) (λ e. FirstAt e.0 e.1 dps)
                (λ e. FirstAt e.0 e.1 (dp ∷ dps)) more.found (λ e k j. later k j) kept.0
                more.found_at);
        left =
            All-zip (λ w. confirms dp w ≡ false) (IsNever dps) (IsNever (dp ∷ dps))
              more.next.transcript_list (λ w k j. (k, j)) kept.1 more.left;
        keeps = λ g k.
            let a = one.keeps g k in
            let b = more.keeps g a.1 in
            (All-append (λ e. g e.0 ≡ false) one.found more.found a.0 b.0, b.1);
      }

-- On live packages whose data, where there is any, has both times of the audio buffer, `time_difference`
-- raises nothing. The words of the transcript are, but for their order and each as often as it is there,
-- the words that it has found and those that it leaves. The delays are those of the words found, one for
-- each: from the end of the word to the end of the audio of the first package that confirms it, and the
-- time that this package has taken. No package confirms a word that is left.
pub time_difference-FirstAt :
    (lib : TextLib) (dps : List LivePackage) (transcript : List Word) (offset : ℤ)
    → All IsTimedPackage dps
    → (s : Differences) × (found : List Found) × (time_difference lib dps transcript offset
        ≡ ok (s, spread s.diff))
      × (s.diff ≡ times found)
      × Perm (words found ++ s.transcript_list) transcript
      × All (λ e. FirstAt lib offset e.0 e.1 dps) found
      × All (IsNever lib offset dps) s.transcript_list
unfolding time_difference
time_difference-FirstAt lib dps transcript offset h =
    let start : Differences = record { transcript_list = transcript; diff = [] } in
    let r = live_loop-Parts lib offset dps start h in
    (
      r.next,
      r.found,
      ap (λ x. x >>= λ s. ok (s, spread s.diff)) r.returned,
      r.counted,
      r.parts,
      r.found_at,
      r.left,
    )
