-- ===== src/Store/Handle/Publishes.antt =====
-- What the status changes of the handle publish on the bus.
use lazybones.Prelude.{String, List, [], ◌∷◌, ◌++◌, ◌≡◌, refl, Outcome, ok, err}
use lazybones.Store.Error.{StoreError}
use lazybones.Store.Surreal.{Surreal, IsDocumented, Contents, continue}
use lazybones.Store.Event.{Event}
use lazybones.Store.Task.Model.{Task}
use lazybones.Store.Task.Transition.{Transition}
use lazybones.Store.Verbs.{transition_task, reset_task}
use lazybones.Store.Verbs.Post.{Post}
use lazybones.Store.Verbs.Moves.{
  Moved, NotMoved, WasReset, NotReset, transition_task-Post, reset_task-Post,
}
use lazybones.Store.Handle.{Handle, LiveEvent, transition_event, publish, transition, reset}

-- What an operation of the handle leaves in the tables and on the bus.
abbrev pub HandlePost :
    {Db A : Type 0}
    → (contents : Db → Contents) → Outcome StoreError A × (Db × List LiveEvent)
    → (A → Contents → List LiveEvent → Type 0)
    → (StoreError → Contents → List LiveEvent → Type 0)
    → Type 0
HandlePost contents (ok a, h) Ok Err = Ok a (contents h.0) h.1
HandlePost contents (err e, h) Ok Err = Err e (contents h.0) h.1

-- The event of the change is published, and it alone.
abbrev pub Told :
    List LiveEvent → (Task → Event → Contents → Type 0) → Task → Contents → List LiveEvent → Type 0
Told bus Ok t c bus' = (event : Event) × Ok t event c × (bus' ≡ bus ++ transition_event event ∷ [])

-- Nothing is published.
abbrev pub Silent :
    List LiveEvent
    → (StoreError → Contents → Type 0)
    → StoreError
    → Contents
    → List LiveEvent
    → Type 0
Silent bus Err e c bus' = Err e c × (bus' ≡ bus)

module _ (s : Surreal) where
  -- The end of both operations.
  abbrev tell :
      Outcome StoreError (Task × Event) × s.Db → List LiveEvent → Outcome StoreError Task × Handle s
  tell (r, d) bus =
      continue r
        (λ moved h.
          continue (publish s (transition_event moved.1) h).0 (λ u h'. (ok moved.0, h'))
            (publish s (transition_event moved.1) h).1)
        (d, bus)

  tell-HandlePost :
      (p : Outcome StoreError (Task × Event) × s.Db) (bus : List LiveEvent)
      (Ok : Task → Event → Contents → Type 0) (Err : StoreError → Contents → Type 0)
      → Post s.contents p (λ r c. Ok r.0 r.1 c) Err
      → HandlePost s.contents (tell p bus) (Told bus Ok) (Silent bus Err)
  unfolding publish
  tell-HandlePost (ok (t, event), d) bus Ok Err h = (event, h, refl)
  tell-HandlePost (err e, d) bus Ok Err h = (h, refl)

  -- A transition that is made publishes the event that it logged, after what was published before;
  -- one that fails, for whatever reason, publishes nothing.
  pub transition-HandlePost :
      (doc : IsDocumented s) (id : String) (tr : Transition) (actor : String) (d : s.Db)
      (bus : List LiveEvent)
      → HandlePost s.contents
          (transition s id tr actor (d, bus))
          (Told bus (λ t event c. Moved (s.contents d) id tr actor t event c))
          (Silent bus (NotMoved (s.contents d) id tr))
  unfolding transition
  transition-HandlePost doc id tr actor d bus =
      tell-HandlePost (transition_task s id tr actor d) bus
        (λ t event c. Moved (s.contents d) id tr actor t event c) (NotMoved (s.contents d) id tr)
        (transition_task-Post s doc id tr actor d)

  -- The same of a reset.
  pub reset-HandlePost :
      (doc : IsDocumented s) (id actor : String) (d : s.Db) (bus : List LiveEvent)
      → HandlePost s.contents
          (reset s id actor (d, bus))
          (Told bus (λ t event c. WasReset (s.contents d) id actor t event c))
          (Silent bus (NotReset (s.contents d) id))
  unfolding reset
  reset-HandlePost doc id actor d bus =
      tell-HandlePost (reset_task s id actor d) bus
        (λ t event c. WasReset (s.contents d) id actor t event c) (NotReset (s.contents d) id)
        (reset_task-Post s doc id actor d)
