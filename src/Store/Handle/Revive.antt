-- ===== src/Store/Handle/Revive.antt =====
-- What a revive with guidance leaves, step by step.
use lazybones.Prelude.{
  Bool, true, false, String, Option, none, some, List, [], ◌∷◌, ◌++◌, ◌≡◌, refl, sym, subst, ◌∙◌,
  ap, inl, Outcome, ok, err, option_map, unwrap_or, ℕ, saturating_succ, arith,
}
use lazybones.Store.Error.{StoreError, operation}
use lazybones.Store.Surreal.{
  Surreal, IsDocumented, Contents, ◌>>=◌, call, expect, return, AppendsChat,
}
use lazybones.Store.Chat.{ChatMessage, NewChat, ChatRow, user, as_str, parse, into_message}
use lazybones.Store.Task.Model.{Task}
use lazybones.Store.Task.Transition.{revive}
use lazybones.Store.Verbs.{required, write, bumped, transition_task, bump_retry_count}
use lazybones.Store.Verbs.Post.{
  Post, Post_mono, bind-Post, call-Post, Failed, Untouched, Holds, required-Post, write-Post,
}
use lazybones.Store.Verbs.Moves.{Moved, NotMoved, transition_task-Post}
use lazybones.Store.Handle.{
  Handle, on_db, LiveEvent, transition_event, chat_event, publish, transition, append_chat,
  insert_chat, bump_if, revive_with_guidance,
}
use lazybones.Store.Handle.Guidance.{
  IsGuidance, Spoke, IsNext, Counted, NotRevived, unheard, uncounted, unmoved, Revived,
}

module _ (s : Surreal) (doc : IsDocumented s) where
  -- The tables and the bus.
  abbrev pub both : Handle s → Contents × List LiveEvent
  both (d, bus) = (s.contents d, bus)

  lifted-Post :
      {A : Type 0} (p : Outcome StoreError A × s.Db) (bus : List LiveEvent)
      (Ok : A → Contents → Type 0) (Err : StoreError → Contents → Type 0)
      → Post s.contents p Ok Err
      → Post both (p.0, (p.1, bus)) (λ a c. Ok a c.0 × (c.1 ≡ bus)) (λ e c. Err e c.0 × (c.1 ≡ bus))
  lifted-Post (ok a, d) bus Ok Err h = (h, refl)
  lifted-Post (err e, d) bus Ok Err h = (h, refl)

  -- The message is stored, before it is published.
  abbrev Stored : (id guidance : String) → Contents → ChatMessage → Contents → Type 0
  Stored id guidance c m c' =
      IsGuidance id guidance m
      × ((row : ChatRow) × (m ≡ into_message row) × (c' ≡ record c { chats = c.chats ++ row ∷ [] }))

  made_chat-Post :
      (m : NewChat) (c : Contents) (o : Option ChatRow) (d : s.Db)
      → m.role ≡ as_str user
      → AppendsChat c m o (s.contents d)
      → Post s.contents
          (expect (option_map into_message o) (operation "chat insert returned no row") d)
          (λ msg c'. Stored m.task m.text c msg c')
          (Failed c)
  unfolding into_message as_str parse
  made_chat-Post m c none d u h = ("chat insert returned no row", refl, h)
  made_chat-Post m c (some r) d u (run, task, role, text, at, hcom_id, h) =
      (record { on_task = task; says = text; by_user = rw (role, u) refl }, (r, refl, h))

  insert_chat-Post :
      (run id guidance : String) (d : s.Db)
      → Post s.contents
          (insert_chat s run id user guidance none d)
          (λ msg c. Stored id guidance (s.contents d) msg c)
          (Failed (s.contents d))
  unfolding insert_chat
  insert_chat-Post run id guidance d =
      let m : NewChat = record {
        run = run;
        task = id;
        role = as_str user;
        text = guidance;
        at = s.now d;
        hcom_id = none;
      } in
      bind-Post s.contents (call (s.create_chat m))
        (λ o. expect (option_map into_message o) (operation "chat insert returned no row")) d
        (AppendsChat (s.contents d) m) (Failed (s.contents d)) _ _
        (call-Post s.contents (s.create_chat m) d _ (doc.create_chat_law m d))
        (λ o d' h. made_chat-Post m (s.contents d) o d' refl h) (λ e c h. h)

  saturating_succ-IsNext : (n : ℕ) → IsNext n (saturating_succ n)
  saturating_succ-IsNext n = ground arith

  bump_retry_count-Post :
      (id : String) (d : s.Db)
      → Post s.contents
          (bump_retry_count s id d)
          (λ t c. Counted true id (s.contents d) c)
          (Untouched (s.contents d) id)
  unfolding bump_retry_count bumped
  bump_retry_count-Post id d =
      bind-Post s.contents (required s id) (λ task. write s id (bumped task)) d
        (λ t c. Holds (s.contents d) id t × (c ≡ s.contents d)) (Untouched (s.contents d) id) _ _
        (required-Post s doc id d)
        (λ t d' h.
          Post_mono s.contents (write s id (bumped t) d') _ _ _ _
            (rw h.1 at (write-Post s doc id (bumped t) d'))
            (λ t' c g.
              (t, saturating_succ t.retry_count, h.0, saturating_succ-IsNext t.retry_count, g.1))
            (λ e c g. g))
        (λ e c h. h)

  -- The count, on the handle.
  bumped-Post :
      (bump_count : Bool) (id : String) (h : Handle s)
      → Post both
          (bump_if s bump_count id h)
          (λ u c. Counted bump_count id (s.contents h.0) c.0 × (c.1 ≡ h.1))
          (λ e c. (bump_count ≡ true) × Untouched (s.contents h.0) id e c.0 × (c.1 ≡ h.1))
  bumped-Post false id h = (refl, refl)
  bumped-Post true id (d, bus) =
      bind-Post both (on_db s (bump_retry_count s id)) (λ t. return tt) (d, bus)
        (λ t c. Counted true id (s.contents d) c.0 × (c.1 ≡ bus))
        (λ e c. Untouched (s.contents d) id e c.0 × (c.1 ≡ bus)) _ _
        (lifted-Post (bump_retry_count s id d) bus (λ t c. Counted true id (s.contents d) c)
          (Untouched (s.contents d) id) (bump_retry_count-Post id d))
        (λ t h' k. k) (λ e c k. (refl, k.0, k.1))

  -- What a revive promises, of the tables and the bus before it.
  module _ (id guidance actor : String) (bump_count : Bool) (c0 : Contents)
      (bus : List LiveEvent) where
    abbrev Made : Task → Contents × List LiveEvent → Type 0
    Made t c = Revived id guidance actor bump_count c0 bus t c.0 c.1

    abbrev Broken : StoreError → Contents × List LiveEvent → Type 0
    Broken e c = NotRevived id guidance actor bump_count c0 bus e c.0 c.1

    edge-Post :
        (m : ChatMessage) (spoken : Contents) (h : Handle s)
        → Spoke id guidance c0 bus m spoken h.1
        → Counted bump_count id spoken (s.contents h.0)
        → Post both (transition s id revive actor h) Made Broken
    unfolding transition publish
    edge-Post m spoken (d, bus') g counted =
        bind-Post both (on_db s (transition_task s id revive actor)) _ (d, bus')
          (λ r c. Moved (s.contents d) id revive actor r.0 r.1 c.0 × (c.1 ≡ bus'))
          (λ e c. NotMoved (s.contents d) id revive e c.0 × (c.1 ≡ bus')) _ _
          (lifted-Post (transition_task s id revive actor d) bus'
            (λ r c. Moved (s.contents d) id revive actor r.0 r.1 c)
            (NotMoved (s.contents d) id revive) (transition_task-Post s doc id revive actor d))
          (λ r h' k. record {
            message = m;
            spoken = spoken;
            told = bus';
            spoke = g;
            before = s.contents d;
            counted = counted;
            event = r.1;
            moved = k.0;
            published = ap (λ l. l ++ transition_event r.1 ∷ []) (k.1);
          })
          (λ e c k.
            unmoved m spoken (s.contents d)
              (subst (Spoke id guidance c0 bus m spoken) (sym (k.1)) g) counted (k.0))

    guided-Post :
        (m : ChatMessage) (h : Handle s)
        → Spoke id guidance c0 bus m (s.contents h.0) h.1
        → Post both ((bump_if s bump_count id >>= λ u. transition s id revive actor) h) Made Broken
    guided-Post m h g =
        bind-Post both (bump_if s bump_count id) _ h
          (λ u c. Counted bump_count id (s.contents h.0) c.0 × (c.1 ≡ h.1))
          (λ e c. (bump_count ≡ true) × Untouched (s.contents h.0) id e c.0 × (c.1 ≡ h.1)) _ _
          (bumped-Post bump_count id h)
          (λ u h' k.
            edge-Post m (s.contents h.0) h'
              (subst (Spoke id guidance c0 bus m (s.contents h.0)) (sym (k.1)) g) (k.0))
          (λ e c (bumps, untouched_, same).
            uncounted m (s.contents h.0)
              (subst (Spoke id guidance c0 bus m (s.contents h.0)) (sym same) g) bumps untouched_)

  -- A revive stores and publishes the guidance, as a message of the operator on the task, then counts
  -- the retry, if asked, then moves the task to `ready` and publishes the event of that; nothing else.
  -- One that fails has either left the tables and the bus, where the database failed or the task is
  -- missing, or it has stored and published the guidance, where the count or the move failed after it,
  -- the move also because it is illegal.
  pub revive_with_guidance-Post :
      (id guidance actor : String) (bump_count : Bool) (h : Handle s)
      → Post both
          (revive_with_guidance s id guidance actor bump_count h)
          (λ t c. Revived id guidance actor bump_count (s.contents h.0) h.1 t c.0 c.1)
          (λ e c. NotRevived id guidance actor bump_count (s.contents h.0) h.1 e c.0 c.1)
  unfolding revive_with_guidance publish append_chat
  revive_with_guidance-Post id guidance actor bump_count (d, bus) =
      bind-Post both (on_db s (required s id)) _ (d, bus)
        (λ t c. (c.0 ≡ s.contents d) × (c.1 ≡ bus))
        (λ e c. Untouched (s.contents d) id e c.0 × (c.1 ≡ bus)) _ _
        (Post_mono both (on_db s (required s id) (d, bus)) _ _ _ _
          (lifted-Post (required s id d) bus (λ t c. Holds (s.contents d) id t × (c ≡ s.contents d))
            (Untouched (s.contents d) id) (required-Post s doc id d))
          (λ t c k. (k.0.1, k.1)) (λ e c k. k))
        (λ t (d1, bus1) k.
          let run = unwrap_or t.run_id t.run in
          bind-Post both (on_db s (insert_chat s run id user guidance none)) _ (d1, bus1)
            (λ m c. Stored id guidance (s.contents d1) m c.0 × (c.1 ≡ bus1))
            (λ e c. Failed (s.contents d1) e c.0 × (c.1 ≡ bus1)) _ _
            (lifted-Post (insert_chat s run id user guidance none d1) bus1
              (λ m c. Stored id guidance (s.contents d1) m c) (Failed (s.contents d1))
              (insert_chat-Post run id guidance d1))
            (λ m (d2, bus2) k2.
              let (said, stored) =
                subst (λ c. Stored id guidance c m (s.contents d2)) (k.0) (k2.0) in
              guided-Post id guidance actor bump_count (s.contents d) bus m
                (d2, bus2 ++ chat_event m ∷ [])
                (said, stored, ap (λ l. l ++ chat_event m ∷ []) (k2.1 ∙ k.1)))
            (λ e c k2. unheard (k2.0.2 ∙ k.0, inl (k2.0.0, k2.0.1)) (k2.1 ∙ k.1)))
        (λ e c k. unheard (k.0) (k.1))
