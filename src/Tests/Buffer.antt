-- ===== src/Tests/Buffer.antt =====
-- The audio buffer on the sample pages.
use live_translation.Base.{pos, ◌≡◌, refl, [], ◌∷◌, some, ◌+ℤ◌, ◌-ℤ◌}
use live_translation.Data.{AudioData}
use live_translation.Ogg.Bytes.{byte_at, int_from_bytes}
use live_translation.Ogg.Page.{OggSPage, page_from_bytes}
use live_translation.Ogg.Page.Layout.{page_bytes, page_of}
use live_translation.Ogg.Audio.{calculate_page_duration}
use live_translation.AudioBuffer.{CreateAudioBuffer, add_page, execute, execute_page}
use live_translation.AudioBuffer.Timing.{IsTimed, PassesOn}
use live_translation.AudioBuffer.Calls.{execute-IsTimed, execute-PassesOn}
use live_translation.Tests.Samples.{id_page, audio_page, raw_data, package_of}

unfoldable pub program : Unit {0}
unfolding byte_at int_from_bytes page_from_bytes page_bytes page_of calculate_page_duration add_page
    execute execute_page ◌+ℤ◌ ◌-ℤ◌
program = tt

-- Both headers have been found; two pages of half a second are in the window, which is full at 1 s.
abbrev pub self : CreateAudioBuffer
self = record {
  last_n_seconds = 1;
  min_n_seconds = 1;
  audio_data_buffer = page_of (audio_page 2 24000) ∷ page_of (audio_page 3 40000) ∷ [];
  current_audio_buffer_seconds = pos 40000;
  header_buffer = 1 ∷ 2 ∷ [];
  header_pages = some (page_of id_page ∷ []);
  sample_rate = 48000;
  start_of_buffer_time = pos 0;
}

abbrev pub audio : AudioData
audio = raw_data (page_bytes (audio_page 4 60000))

abbrev pub next_page : OggSPage
next_page = page_of (audio_page 4 60000)

pub self-IsTimed : IsTimed self
unfolding program
self-IsTimed = record { ends = refl; fresh = λ e. cc }

-- The first page leaves, and the window starts 16000 samples later.
execute_runs : (execute self (package_of audio)).state.start_of_buffer_time ≡ pos 16000
unfolding program
execute_runs = refl

execute-IsTimed_example : IsTimed (execute self (package_of audio)).state
unfolding program
execute-IsTimed_example =
    execute-IsTimed self (package_of audio) audio next_page refl refl self-IsTimed (λ e. cc)

execute-PassesOn_example : PassesOn audio next_page (execute self (package_of audio))
unfolding program
execute-PassesOn_example =
    execute-PassesOn self (package_of audio) audio next_page refl refl self-IsTimed refl refl
