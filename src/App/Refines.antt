-- ===== src/App/Refines.antt =====
-- The clients of main.py against the list of those who are there.
use live_translation.Base.{
  ℕ, ◌≡◌, refl, ap, sym, ◌∙◌, subst, Bool, true, false, Option, none, some, List, [], ◌∷◌, ◌++◌,
  ◌==◌, if◌then◌else◌, All, Bool-cases, inl, inr, arith,
}
use live_translation.Base.Dict.{get, put, All-put, All-pop}
use live_translation.Data.{Text, Bytes, Word, AudioData}
use live_translation.App.{
  Client, new_client, App, Ran, returns, same_client, on_connected, on_gone, on_msg, found,
  execute_for, join_words, publish_words, callback, Event, connected, disconnected, timed_out,
  message, result, handle, and_then, run, start, Action, executes, unlisted,
}
use live_translation.App.Live.{
  is_live, join, leave, spaced, broadcast, announce_words, announce, live_step, live_run,
  IsDistinct, leave-IsDistinct, join-IsDistinct,
}
use live_translation.App.Keys.{
  keys, IsEntry, Represents, keys-put, keys-pop, entry-IsFound, entry_lost, All-IsFound,
}
use live_translation.App.Broadcast.{FailsStopped, send_loop-broadcast}

-- `join_words` puts the words behind what is there.
append_assoc : (xs ys zs : Text) → (xs ++ ys) ++ zs ≡ xs ++ (ys ++ zs)
append_assoc [] ys zs = refl
append_assoc (x ∷ xs) ys zs = ap (◌∷◌ x) (append_assoc xs ys zs)

append_nil : (xs : Text) → xs ++ [] ≡ xs
append_nil [] = refl
append_nil (x ∷ xs) = ap (◌∷◌ x) (append_nil xs)

pub join_words-spaced : (text : Text) (ws : List Word) → join_words text ws ≡ text ++ spaced ws
unfolding join_words
join_words-spaced text [] = sym (append_nil text)
join_words-spaced text (w ∷ ws) =
    join_words-spaced (text ++ (w.word ++ 32 ∷ [])) ws
    ∙ append_assoc text (w.word ++ 32 ∷ []) (spaced ws)
    ∙ ap (λ t. text ++ t) (append_assoc w.word (32 ∷ []) (spaced ws))

-- A callback has done what the list asks for, and the dictionary stands for the list again.
record StepRefines (i : ℕ) (live : List ℕ) (actions : List Action) (r : Ran) : Type 0 where
  pub returned : r.stuck ≡ false
  pub done_so : r.actions ≡ actions
  pub represents : Represents r.app live
  pub keeps : r.app.instance_id ≡ i

put-entries :
    (i : ℕ) (es : List (ℕ × Client)) (c : ℕ)
    → All (IsEntry i) es
    → All (IsEntry i) (put same_client es c (record { stream = c; instance_id = some i }))
put-entries i es c h =
    All-put same_client (IsEntry i) es c (record { stream = c; instance_id = some i }) h
      (refl, refl) (λ j q. (ground arith, refl))

module _ (encode : Text → Bytes) (reaches : ℕ → Bytes → Bool) (has_stopped : ℕ → Bool) where
  connected-StepRefines :
      (app : App) (live : List ℕ) (c : ℕ)
      → Represents app live
      → StepRefines app.instance_id (join live c) [] (on_connected false app c)
  unfolding on_connected new_client
  connected-StepRefines app live c r = record {
    returned = refl;
    done_so = refl;
    represents = record {
      same =
          keys-put app.client_dict c (record { stream = c; instance_id = some app.instance_id })
          ∙ ap (λ l. join l c) r.same;
      entries = put-entries app.instance_id app.client_dict c r.entries;
      distinct = join-IsDistinct live c r.distinct;
    };
    keeps = refl;
  }

  gone-StepRefines :
      (app : App) (live : List ℕ) (c : ℕ)
      → Represents app live
      → StepRefines app.instance_id (leave live c) [] (on_gone false app c)
  unfolding on_gone
  gone-StepRefines app live c r = record {
    returned = refl;
    done_so = refl;
    represents = record {
      same =
          keys-pop app.client_dict c (subst IsDistinct (sym r.same) r.distinct)
          ∙ ap (λ l. leave l c) r.same;
      entries = All-pop same_client (IsEntry app.instance_id) app.client_dict c r.entries;
      distinct = leave-IsDistinct live c r.distinct;
    };
    keeps = refl;
  }

  found-live :
      (app : App) (c : ℕ) (bytes : Bytes)
      → All (IsEntry app.instance_id) app.client_dict
      → found c bytes (get same_client app.client_dict c) ≡ (
          if is_live (keys app.client_dict) c
          then executes bytes app.instance_id ∷ []
          else unlisted c ∷ [])
  found-live app c bytes h = elim (Bool-cases (is_live (keys app.client_dict) c)) [
    | inl l ↦
        let f = entry-IsFound app.instance_id app.client_dict c h l in
        ap (found c bytes) f.there
        ∙ ap (execute_for c bytes) f.entry.1
        ∙ sym (ap (λ b. if b then executes bytes app.instance_id ∷ [] else unlisted c ∷ []) l)
    | inr l ↦
        ap (found c bytes) (entry_lost app.client_dict c l)
        ∙ sym (ap (λ b. if b then executes bytes app.instance_id ∷ [] else unlisted c ∷ []) l)
  ]

  callback-announce :
      (app : App) (live : List ℕ) (d : Option AudioData) (id : ℕ)
      → FailsStopped encode reaches has_stopped
      → Represents app live
      → callback encode reaches has_stopped false app d id
        ≡ returns app
            (if app.instance_id == id then announce encode reaches app.instance_id live d else [])
  unfolding callback
  callback-announce app live d id h r = by_data d
    where
      nothing : (b : Bool) → returns app [] ≡ returns app (if b then [] else [])
      nothing true = refl
      nothing false = refl

      by_words :
          (ws us : Option (List Word))
          → publish_words encode reaches has_stopped false app id ws us
            ≡ returns app (
                if app.instance_id == id
                then announce_words encode reaches app.instance_id live ws us
                else [])
      by_words none us = nothing (app.instance_id == id)
      by_words (some ws) none = nothing (app.instance_id == id)
      by_words (some ws) (some us) =
          send_loop-broadcast encode reaches has_stopped app id (encode (join_words [] ws))
            app.client_dict h (All-IsFound app.instance_id app.client_dict r.entries)
          ∙ ap
              (λ t. returns app (
                if app.instance_id == id
                then broadcast encode reaches app.instance_id (keys app.client_dict) (encode t)
                else []))
              (join_words-spaced [] ws)
          ∙ ap
              (λ l. returns app (
                if app.instance_id == id
                then broadcast encode reaches app.instance_id l (encode (spaced ws))
                else []))
              r.same

      by_data :
          (o : Option AudioData)
          → callback encode reaches has_stopped false app o id
            ≡ returns app (
                if app.instance_id == id
                then announce encode reaches app.instance_id live o
                else [])
      by_data none = nothing (app.instance_id == id)
      by_data (some a) = by_words a.confirmed_words a.unconfirmed_words

  handle-StepRefines :
      (app : App) (live : List ℕ) (e : Event)
      → FailsStopped encode reaches has_stopped
      → Represents app live
      → StepRefines app.instance_id
          (live_step encode reaches app.instance_id live e).0
          (live_step encode reaches app.instance_id live e).1
          (handle encode reaches has_stopped app e)
  unfolding handle on_msg
  handle-StepRefines app live (connected c) h r = connected-StepRefines app live c r
  handle-StepRefines app live (disconnected c) h r = gone-StepRefines app live c r
  handle-StepRefines app live (timed_out c) h r = gone-StepRefines app live c r
  handle-StepRefines app live (message c bytes) h r = record {
    returned = refl;
    done_so =
        found-live app c bytes r.entries
        ∙ ap (λ l. if is_live l c then executes bytes app.instance_id ∷ [] else unlisted c ∷ [])
            r.same;
    represents = r;
    keeps = refl;
  }
  handle-StepRefines app live (result d id) h r =
      subst
        (StepRefines app.instance_id live
          (if app.instance_id == id then announce encode reaches app.instance_id live d else []))
        (sym (callback-announce app live d id h r))
        (record { returned = refl; done_so = refl; represents = r; keeps = refl })

  -- The outcome of a run, beside what the list asks for.
  abbrev RunRefines : List Action → Ran → Type 0
  RunRefines actions r = (r.stuck ≡ false) × (r.actions ≡ actions)

  represented-RunRefines :
      (es : List Event) (app : App) (live : List ℕ)
      → FailsStopped encode reaches has_stopped
      → Represents app live
      → RunRefines
          (live_run encode reaches app.instance_id live es)
          (run encode reaches has_stopped app es)
  unfolding run live_run
  represented-RunRefines [] app live h r = (refl, refl)
  represented-RunRefines (e ∷ es) app live h r =
      by_first (handle encode reaches has_stopped app e) (handle-StepRefines app live e h r)
        (λ next now q. represented-RunRefines es next now h q)
    where
      step : List ℕ × List Action
      step = live_step encode reaches app.instance_id live e

      by_first :
          (first : Ran)
          → StepRefines app.instance_id step.0 step.1 first
          → ((next : App) (now : List ℕ)
              → Represents next now
              → RunRefines
                  (live_run encode reaches next.instance_id now es)
                  (run encode reaches has_stopped next es))
          → RunRefines
              (step.1 ++ live_run encode reaches app.instance_id step.0 es)
              (and_then first (run encode reaches has_stopped first.app es))
      by_first first s go =
          let next = go first.app step.0 s.represents in
          rw (s.returned, and_then)
            (
              next.0,
              ap (λ xs. xs ++ (run encode reaches has_stopped first.app es).actions) s.done_so
                  ∙ ap (λ xs. step.1 ++ xs) next.1
                  ∙ ap (λ i. step.1 ++ live_run encode reaches i step.0 es) s.keeps,
            )

  -- Where sends fail only for clients that have stopped before, no callback is stuck, whatever the servers
  -- and the pipeline call, in any order, and what the callbacks do is what the list of the clients that
  -- are there asks for: data goes to the pipeline where its client is there, and a result of the instance
  -- with both kinds of words goes, each confirmed word with a space behind it, to all that are there, in the
  -- order of their coming, but for those that are not reached.
  pub run-live_run :
      (i : ℕ) (es : List Event)
      → FailsStopped encode reaches has_stopped
      → ((run encode reaches has_stopped (start i) es).stuck ≡ false)
        × ((run encode reaches has_stopped (start i) es).actions ≡ live_run encode reaches i [] es)
  run-live_run i es h =
      represented-RunRefines es (start i) [] h (record { same = refl; entries = tt; distinct = tt })
