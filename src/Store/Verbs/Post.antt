-- ===== src/Store/Verbs/Post.antt =====
-- What a verb leaves behind, whether it returns or fails, and how that composes.
use lazybones.Prelude.{
  String, Option, none, some, ◌≡◌, refl, ◌∙◌, ◌⊎◌, inl, inr, Outcome, ok, err, insert, arith,
  option_map, ap, Option-cases,
}
use lazybones.Store.Error.{StoreError, operation, task_not_found}
use lazybones.Store.Surreal.{
  Surreal, IsDocumented, Contents, Verb, Leaves, Call, continue, ◌>>=◌, call, failing, UpdatesTask,
  expect, return,
}
use lazybones.Store.Task.Model.{Task}
use lazybones.Store.Task.Row.{TaskRow, from_task, into_task}
use lazybones.Store.Verbs.{get_task, required, write}
use lazybones.Store.RoundTrip.{into_task-from_task}

module _ {Db C : Type 0} (contents : Db → C) where
  abbrev pub Post :
      {A : Type 0}
      → Outcome StoreError A × Db
      → (A → C → Type 0)
      → (StoreError → C → Type 0)
      → Type 0
  Post (ok a, d) Ok Err = Ok a (contents d)
  Post (err e, d) Ok Err = Err e (contents d)

  continue-Post :
      {A B : Type 0} (p : Outcome StoreError A × Db) (f : A → Verb Db B) (Ok : A → C → Type 0)
      (Err : StoreError → C → Type 0) (Ok' : B → C → Type 0) (Err' : StoreError → C → Type 0)
      → Post p Ok Err
      → ((a : A) (d : Db) → Ok a (contents d) → Post (f a d) Ok' Err')
      → ((e : StoreError) (c : C) → Err e c → Err' e c)
      → Post (continue p.0 f p.1) Ok' Err'
  continue-Post (ok a, d) f Ok Err Ok' Err' h k l = k a d h
  continue-Post (err e, d) f Ok Err Ok' Err' h k l = l e (contents d) h

  -- The rule for a bind.
  pub bind-Post :
      {A B : Type 0} (m : Verb Db A) (f : A → Verb Db B) (d : Db) (Ok : A → C → Type 0)
      (Err : StoreError → C → Type 0) (Ok' : B → C → Type 0) (Err' : StoreError → C → Type 0)
      → Post (m d) Ok Err
      → ((a : A) (d' : Db) → Ok a (contents d') → Post (f a d') Ok' Err')
      → ((e : StoreError) (c : C) → Err e c → Err' e c)
      → Post ((m >>= f) d) Ok' Err'
  bind-Post m f d = continue-Post (m d) f

  -- A weaker postcondition.
  pub Post_mono :
      {A : Type 0} (p : Outcome StoreError A × Db) (Ok : A → C → Type 0)
      (Err : StoreError → C → Type 0) (Ok' : A → C → Type 0) (Err' : StoreError → C → Type 0)
      → Post p Ok Err
      → ((a : A) (c : C) → Ok a c → Ok' a c)
      → ((e : StoreError) (c : C) → Err e c → Err' e c)
      → Post p Ok' Err'
  Post_mono (ok a, d) Ok Err Ok' Err' h k l = k a (contents d) h
  Post_mono (err e, d) Ok Err Ok' Err' h k l = l e (contents d) h

module _ {Db : Type 0} (contents : Db → Contents) where
  failing-Post :
      {A : Type 0} (d : Db) (p : Outcome String A × Db) (Then : A → Contents → Type 0)
      → Leaves contents d p Then
      → Post contents
          (failing p.0, p.1)
          Then
          (λ e c. (m : String) × (e ≡ operation m) × (c ≡ contents d))
  failing-Post d (ok a, d') Then h = h
  failing-Post d (err m, d') Then h = (m, refl, h)

  -- The rule for a call of the database.
  pub call-Post :
      {A : Type 0} (m : Call Db A) (d : Db) (Then : A → Contents → Type 0)
      → Leaves contents d (m d) Then
      → Post contents (call m d) Then (λ e c. (m : String) × (e ≡ operation m) × (c ≡ contents d))
  call-Post m d Then h = failing-Post d (m d) Then h

-- The task that a row of the contents holds.
abbrev pub Holds : Contents → String → Task → Type 0
Holds c id t = (row : TaskRow) × (c.tasks id ≡ some row) × (t ≡ into_task row)

-- An error that leaves the contents: of the database, or of a missing task.
abbrev pub Untouched : Contents → String → StoreError → Contents → Type 0
Untouched c id e c' =
    (c' ≡ c)
    × (((m : String) × (e ≡ operation m)) ⊎ ((e ≡ task_not_found id) × (c.tasks id ≡ none)))

-- An error of the database, which leaves the contents.
abbrev pub Failed : Contents → StoreError → Contents → Type 0
Failed c e c' = (m : String) × (e ≡ operation m) × (c' ≡ c)

module _ (s : Surreal) (doc : IsDocumented s) where
  pub get_task-Post :
      (id : String) (d : s.Db)
      → Post s.contents
          (get_task s id d)
          (λ o c. (o ≡ option_map into_task ((s.contents d).tasks id)) × (c ≡ s.contents d))
          (Failed (s.contents d))
  unfolding get_task
  get_task-Post id d =
      bind-Post s.contents (call (s.select_task id)) (λ row. return (option_map into_task row)) d
        (λ o c. (o ≡ (s.contents d).tasks id) × (c ≡ s.contents d)) (Failed (s.contents d)) _ _
        (call-Post s.contents (s.select_task id) d _ (doc.select_task_law id d))
        (λ a d' h. (ap (option_map into_task) h.0, h.1)) (λ e c h. h)

  expect-Post :
      (id : String) (c : Contents) (o : Option Task) (d : s.Db)
      → o ≡ option_map into_task (c.tasks id)
      → s.contents d ≡ c
      → Post s.contents
          (expect o (task_not_found id) d)
          (λ t c'. Holds c id t × (c' ≡ c))
          (Untouched c id)
  expect-Post id c none d e f = elim (Option-cases (c.tasks id)) [
    | inl absent ↦ (f, inr (refl, absent))
    | inr (row, held) ↦ absurd (ground arith)
  ]
  expect-Post id c (some t) d e f = elim (Option-cases (c.tasks id)) [
    | inl absent ↦ absurd (ground arith)
    | inr (row, held) ↦ ((row, held, ground arith), f)
  ]

  -- A required task is the one of the row, and the contents stay.
  pub required-Post :
      (id : String) (d : s.Db)
      → Post s.contents
          (required s id d)
          (λ t c. Holds (s.contents d) id t × (c ≡ s.contents d))
          (Untouched (s.contents d) id)
  unfolding required
  required-Post id d =
      bind-Post s.contents (get_task s id) (λ found. expect found (task_not_found id)) d
        (λ o c. (o ≡ option_map into_task ((s.contents d).tasks id)) × (c ≡ s.contents d))
        (Failed (s.contents d)) _ _ (get_task-Post id d)
        (λ o d' h. expect-Post id (s.contents d) o d' h.0 h.1) (λ e c h. (h.2, inl (h.0, h.1)))

  written-Post :
      (id : String) (t : Task) (c : Contents) (o : Option TaskRow) (d : s.Db)
      → UpdatesTask c id (from_task t) o (s.contents d)
      → Post s.contents
          (expect (option_map into_task o) (task_not_found id) d)
          (λ t' c'. (t' ≡ t) × (c' ≡ record c { tasks = insert id (from_task t) c.tasks }))
          (Untouched c id)
  written-Post id t c none d h = (h.1, inr (refl, h.0))
  written-Post id t c (some r) d h = (ap into_task h.2 ∙ into_task-from_task t, h.3)

  -- A write replaces the row that is present, and answers the task that it was given.
  pub write-Post :
      (id : String) (t : Task) (d : s.Db)
      → Post s.contents
          (write s id t d)
          (λ t' c.
            (t' ≡ t)
            × (c ≡ record (s.contents d) { tasks = insert id (from_task t) (s.contents d).tasks }))
          (Untouched (s.contents d) id)
  unfolding write
  write-Post id t d =
      bind-Post s.contents (call (s.update_task_row id (from_task t)))
        (λ written. expect (option_map into_task written) (task_not_found id)) d
        (UpdatesTask (s.contents d) id (from_task t)) (Failed (s.contents d)) _ _
        (call-Post s.contents (s.update_task_row id (from_task t)) d _
          (doc.update_task_law id (from_task t) d))
        (λ o d' h. written-Post id t (s.contents d) o d' h) (λ e c h. (h.2, inl (h.0, h.1)))
