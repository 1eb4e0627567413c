-- ===== src/Tests/Service.antt =====
-- The callbacks of main.py on a few clients.
use live_translation.Base.{ℕ, ◌≡◌, refl, Bool, true, false, not, List, [], ◌∷◌, some, ◌==◌, arith}
use live_translation.Base.Dict.{get, put, pop}
use live_translation.Data.{Text, Bytes, AudioData}
use live_translation.App
use live_translation.App.Live.{live_run}
use live_translation.App.Keys.{Represents}
use live_translation.App.Refines.{run-live_run}
use live_translation.App.Stuck.{callback-stuck}
use live_translation.Tests.Samples.{raw_data}
use live_translation.Tests.Speech.{word}

abbrev encode : Text → Bytes
encode text = text

-- Client 3 is gone without notice.
abbrev reaches : ℕ → Bytes → Bool
reaches c bytes = not (c == 3)

abbrev words : AudioData
words = record (raw_data []) {
  confirmed_words = some (word ∷ word ∷ []);
  unconfirmed_words = some [];
}

abbrev events : List App.Event
events =
    App.connected 2
    ∷ App.connected 3
    ∷ App.connected 4
    ∷ App.disconnected 2
    ∷ App.message 2 (9 ∷ [])
    ∷ App.message 4 (8 ∷ [])
    ∷ App.result (some words) 7
    ∷ App.result (some words) 6
    ∷ []

fails : (c : ℕ) (bytes : Bytes) → reaches c bytes ≡ false → (c == 3) ≡ true
fails c bytes h = ground arith

done_so :
    (App.run encode reaches (λ c. c == 3) (App.start 7) events).actions
    ≡ App.unlisted 2 ∷ App.executes (8 ∷ []) 7 ∷ App.sends 4 (97 ∷ 32 ∷ 97 ∷ 32 ∷ []) ∷ []
unfolding App.run App.handle App.on_connected App.on_gone App.on_msg App.callback App.send_loop
    App.stop_client App.join_words App.new_client get put pop
done_so = refl

run-live_run_example :
    ((App.run encode reaches (λ c. c == 3) (App.start 7) events).stuck ≡ false)
    × ((App.run encode reaches (λ c. c == 3) (App.start 7) events).actions
        ≡ live_run encode reaches 7 [] events)
run-live_run_example = run-live_run encode reaches (λ c. c == 3) 7 events fails

abbrev app : App.App
app = record {
  instance_id = 7;
  client_dict =
      (4, record { stream = 4; instance_id = some 7 })
      ∷ (3, record { stream = 3; instance_id = some 7 })
      ∷ [];
}

app-Represents : Represents app (4 ∷ 3 ∷ [])
app-Represents = record {
  same = refl;
  entries = ((refl, refl), ((refl, refl), tt));
  distinct = ((refl, tt), (tt, tt));
}

callback-stuck_example :
    (App.callback encode reaches (λ c. false) false app (some words) 7).stuck ≡ true
callback-stuck_example =
    callback-stuck encode reaches (λ c. false) app (4 ∷ 3 ∷ []) words (word ∷ word ∷ []) [] 3
      app-Represents refl refl refl refl refl
