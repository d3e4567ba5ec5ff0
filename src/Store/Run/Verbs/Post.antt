-- ===== src/Store/Run/Verbs/Post.antt =====
-- What the verbs of a run do, on each of their branches.
use lazybones.Prelude.{
  String, Option, none, some, ◌≡◌, refl, ◌∙◌, ◌⊎◌, inl, inr, insert, option_map, ap,
}
use lazybones.Store.Error.{StoreError, operation, run_not_found}
use lazybones.Store.Surreal.{Surreal, IsDocumented, Contents, call, UpdatesRun, expect, return}
use lazybones.Store.Run.Model.{Run}
use lazybones.Store.Run.Row.{RunRow, from_run, into_run}
use lazybones.Store.RoundTrip.{into_run-from_run, kept_cursor}
use lazybones.Store.Verbs.Post.{Post, bind-Post, call-Post, Failed}
use lazybones.Store.Run.Verbs.{get_run, required_run, write_run}

-- The run that a row of the contents holds.
abbrev pub HoldsRun : Contents → String → Run → Type 0
HoldsRun c id r = (row : RunRow) × (c.runs id ≡ some row) × (r ≡ into_run row)

-- An error that leaves the contents: of the database, or of a missing run.
abbrev pub UntouchedRun : Contents → String → StoreError → Contents → Type 0
UntouchedRun c id e c' =
    (c' ≡ c) × (((m : String) × (e ≡ operation m)) ⊎ ((e ≡ run_not_found id) × (c.runs id ≡ none)))

-- What is read back of a run that is written.
abbrev pub stored : Run → Run
stored r = record r { hcom_log_cursor = kept_cursor r.hcom_log_cursor }

-- The contents after run `id` was written as `r`.
abbrev pub with_run : Contents → String → Run → Contents
with_run c id r = record c { runs = insert id (from_run r) c.runs }

module _ (s : Surreal) (doc : IsDocumented s) where
  found_run-Post :
      (id : String) (c : Contents) (o : Option RunRow) (d : s.Db)
      → o ≡ c.runs id
      → s.contents d ≡ c
      → Post s.contents
          (expect (option_map into_run o) (run_not_found id) d)
          (λ r c'. HoldsRun c id r × (c' ≡ c))
          (UntouchedRun c id)
  found_run-Post id c none d e f = (f, inr (refl, cc))
  found_run-Post id c (some row) d e f = ((row, cc, refl), f)

  pub required_run-Post :
      (id : String) (d : s.Db)
      → Post s.contents
          (required_run s id d)
          (λ r c. HoldsRun (s.contents d) id r × (c ≡ s.contents d))
          (UntouchedRun (s.contents d) id)
  unfolding required_run get_run
  required_run-Post id d =
      let c = s.contents d in
      bind-Post s.contents (get_run s id) (λ found. expect found (run_not_found id)) d
        (λ o c'.
          ((row : Option RunRow) × (o ≡ option_map into_run row) × (row ≡ c.runs id)) × (c' ≡ c))
        (Failed c) _ _
        (bind-Post s.contents (call (s.select_run id)) (λ row. return (option_map into_run row)) d
          (λ o c'. (o ≡ c.runs id) × (c' ≡ c)) (Failed c) _ _
          (call-Post s.contents (s.select_run id) d _ (doc.select_run_law id d))
          (λ a d' h. ((a, refl, h.0), h.1)) (λ e c' h. h))
        (λ o d' h. rw (h.0).1 (found_run-Post id c (h.0).0 d' (h.0).2 h.1))
        (λ e c' h. (h.2, inl (h.0, h.1)))

  written_run-Post :
      (id : String) (r : Run) (c : Contents) (o : Option RunRow) (d : s.Db)
      → UpdatesRun c id (from_run r) o (s.contents d)
      → Post s.contents
          (expect (option_map into_run o) (run_not_found id) d)
          (λ r' c'. (r' ≡ stored r) × (c' ≡ with_run c id r))
          (UntouchedRun c id)
  written_run-Post id r c none d h = (h.1, inr (refl, h.0))
  written_run-Post id r c (some row) d h = (ap into_run h.2 ∙ into_run-from_run r, h.3)

  pub write_run-Post :
      (id : String) (r : Run) (d : s.Db)
      → Post s.contents
          (write_run s id r d)
          (λ r' c. (r' ≡ stored r) × (c ≡ with_run (s.contents d) id r))
          (UntouchedRun (s.contents d) id)
  unfolding write_run
  write_run-Post id r d =
      bind-Post s.contents (call (s.update_run_row id (from_run r)))
        (λ written. expect (option_map into_run written) (run_not_found id)) d
        (UpdatesRun (s.contents d) id (from_run r)) (Failed (s.contents d)) _ _
        (call-Post s.contents (s.update_run_row id (from_run r)) d _
          (doc.update_run_law id (from_run r) d))
        (λ o d' h. written_run-Post id r (s.contents d) o d' h) (λ e c h. (h.2, inl (h.0, h.1)))
