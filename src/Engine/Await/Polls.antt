-- ===== src/Engine/Await/Polls.antt =====
-- The wait for a signal ends: it asks `hcom` for events 180 times at most.
use lazybones.Prelude.{
  ℕ, zero, suc, ◌+◌, ◌*◌, ◌≤◌, ◌<◌, ◌≡◌, refl, String, Bool, true, false, Option, List, [], ◌∷◌,
  Outcome, ok, err, leb, ltb, arith, by_test, is_some,
}
use lazybones.Engine.Commands.{Command, Answer, hcom_list, hcom_wait, HcomEvent}
use lazybones.Engine.Program.Obeys.{Protocol, Obeys}
use lazybones.Engine.Await.{
  Signal, Liveness, working, idle, gone, unknown, await_secs, idle_done_secs, Loop, look,
  after_wait, slice_at, await_from, await_signal, await_fuel, classify_agents, agent_liveness,
}

-- The polls that are left, and the seconds waited that they stand for.
abbrev MayPoll : ℕ → Command → Type 0
MayPoll seconds hcom_list = Unit
MayPoll seconds (hcom_wait sql secs) = (1 ≤ secs) × (secs ≤ 20) × (seconds + secs ≤ 3600)
MayPoll seconds _ = ⊥

abbrev seconds_after : ℕ → (c : Command) → Answer c → ℕ
seconds_after seconds (hcom_wait sql secs) x = seconds + secs
seconds_after seconds _ x = seconds

-- The wait asks `hcom` for the agents, and for events in slices of 20 seconds that sum up to an
-- hour at most. What has been seen is the seconds of the slices.
abbrev pub polls_for_an_hour : Protocol
polls_for_an_hour = record { State = ℕ; Allows = MayPoll; after = seconds_after }

-- The wait ends with a signal or an error.
abbrev pub Ends : Option (Outcome String Signal) → ℕ → Type 0
Ends signal seconds = (is_some signal ≡ true) × (seconds ≤ 3600)

abbrev LoopEnds : ℕ → Loop → Type 0
LoopEnds fuel again =
    (waited idle_secs : ℕ) (seen : Bool)
    → waited ≤ 3600
    → 3600 + 20 ≤ waited + fuel * 20
    → Obeys polls_for_an_hour (again waited idle_secs seen) waited Ends

look-Obeys :
    (fuel : ℕ) (again : Loop)
    → LoopEnds fuel again
    → (waited slice idle_secs : ℕ) (seen : Bool) (l : Liveness) → waited ≤ 3600
    → 3600 + 20 ≤ waited + fuel * 20
    → Obeys polls_for_an_hour (look again waited slice idle_secs seen l) waited Ends
look-Obeys fuel again ends waited slice idle_secs seen working h f = ends waited 0 true h f
look-Obeys fuel again ends waited slice idle_secs seen idle h f =
    by_test (λ m. Obeys polls_for_an_hour m waited Ends) (leb idle_done_secs (idle_secs + slice))
      (λ _. (refl, h)) (λ _. ends waited (idle_secs + slice) true h f)
look-Obeys fuel again ends waited slice idle_secs seen gone h f =
    by_test (λ m. Obeys polls_for_an_hour m waited Ends) seen (λ _. (refl, h))
      (λ _. ends waited idle_secs seen h f)
look-Obeys fuel again ends waited slice idle_secs seen unknown h f = ends waited idle_secs seen h f

after_wait-Obeys :
    (id : String) (fuel : ℕ) (again : Loop)
    → LoopEnds fuel again
    → (waited slice idle_secs : ℕ) (seen : Bool) (events : Outcome String (List HcomEvent))
    → waited ≤ 3600
    → 3600 + 20 ≤ waited + fuel * 20
    → Obeys polls_for_an_hour (after_wait id again waited slice idle_secs seen events) waited Ends
unfolding agent_liveness after_wait
after_wait-Obeys id fuel again ends waited slice idle_secs seen (err e) h f = (refl, h)
after_wait-Obeys id fuel again ends waited slice idle_secs seen (ok (e ∷ es)) h f = (refl, h)
after_wait-Obeys id fuel again ends waited slice idle_secs seen (ok []) h f = (
  tt,
  λ agents. look-Obeys fuel again ends waited slice idle_secs seen (classify_agents id agents) h f,
)

slice_bounds :
    (fuel waited : ℕ)
    → waited < 3600
    → 3600 + 20 ≤ waited + suc fuel * 20
    → (1 ≤ slice_at waited)
      × (slice_at waited ≤ 20)
      × (waited + slice_at waited ≤ 3600)
      × (3600 + 20 ≤ waited + slice_at waited + fuel * 20)
slice_bounds fuel waited h f = ground arith

await_from-Obeys : (fuel : ℕ) (id : String) → LoopEnds fuel (await_from fuel id)
unfolding await_from
await_from-Obeys zero id waited idle_secs seen h f = absurd (omega arith)
await_from-Obeys (suc fuel) id waited idle_secs seen h f =
    by_test (λ m. Obeys polls_for_an_hour m waited Ends) (ltb waited await_secs)
      (λ more.
        let more' : waited < 3600 = ground arith in
        let bounds = slice_bounds fuel waited more' f in
        (
          (bounds.0, bounds.1, bounds.2),
          λ events.
              after_wait-Obeys id fuel (await_from fuel id) (await_from-Obeys fuel id)
                (waited + slice_at waited) (slice_at waited) idle_secs seen events bounds.2
                bounds.3,
        ))
      (λ _. (refl, h))

-- Whatever `hcom` answers, the wait returns a signal or an error: it polls in slices of 1 to 20
-- seconds that sum up to an hour at most, and the fuel of the model is never used up.
pub await_signal-Obeys : (id : String) → Obeys polls_for_an_hour (await_signal id) 0 Ends
unfolding await_signal
await_signal-Obeys id = await_from-Obeys await_fuel id 0 0 false (omega arith) (omega arith)
