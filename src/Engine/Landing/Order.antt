-- ===== src/Engine/Landing/Order.antt =====
-- In which order a landing works on the repository, and which commit it reports.
use Prim.Native.String.{◌++◌ as ◌<>◌}
use lazybones.Prelude.{
  ap, arith, false, String, ◌≡◌, refl, sym, some, true, List, [], ◌∷◌, Outcome, ok, err,
  if◌then◌else◌, unwrap_or, ◌==◌, subst,
}
use lazybones.Store.Task.Model.{Task}
use lazybones.Engine.Config.{EngineConfig, MergeMode, fast_forward, merge, pr}
use lazybones.Engine.Effective.{EffectiveGit}
use lazybones.Engine.Commands.{Command, Answer, git, GitOut}
use lazybones.Engine.Program.{perform}
use lazybones.Engine.Program.Fallible.{Attempt, ◌>>=◌, ◌>>◌}
use lazybones.Engine.Program.Obeys.{Protocol, Obeys}
use lazybones.Engine.Program.Settles.{Settles, try-Obeys}
use lazybones.Engine.Landing.{
  integrate, land_branch, land_from, land, checkout, head_sha, push, rev_parse, require_ok,
  exits_zero,
}
use lazybones.Engine.Landing.Calls.{
  git-Obeys, require_ok-Obeys, rev_parse-Obeys, push-Obeys, PushesFrom,
}

-- How far a landing is: the base is checked out, the branch is merged, the remote is found to be there,
-- what is to be published has been pushed or has no remote, and last a commit is reported.
pub data Place : Type 0 where
  start on_base integrated has_remote published : Place
  reported : (sha : String) → Place

abbrev IsCall : (repo : String) → (call : List String) → (dir : String) → List String → Type 0
IsCall repo call dir args = (dir ≡ repo) × (args ≡ call)

abbrev IsProbe : (repo remote : String) → (dir : String) → List String → Type 0
IsProbe repo remote = IsCall repo ("remote" ∷ "get-url" ∷ remote ∷ [])

abbrev IsPush : (repo remote refname : String) → (dir : String) → List String → Type 0
IsPush repo remote refname = IsCall repo ("push" ∷ remote ∷ refname ∷ [])

-- For a pull request the branch is pushed, if there is a remote, and read, in the tree of the task.
abbrev Publishes : (dir remote branch : String) → Place → (repo : String) → List String → Type 0
Publishes dir remote branch start = IsProbe dir remote
Publishes dir remote branch has_remote = IsPush dir remote branch
Publishes dir remote branch published = IsCall dir ("rev-parse" ∷ branch ∷ [])
Publishes dir remote branch _ = λ repo args. ⊥

-- The base branch is checked out, then the branch is merged into it, then the base is pushed, if there
-- is a remote, and then its head read, all in the repository.
abbrev Integrates :
    EffectiveGit → (remote branch flag : String) → Place → (dir : String) → List String → Type 0
Integrates eff remote branch flag start = IsCall eff.repo ("checkout" ∷ eff.base_branch ∷ [])
Integrates eff remote branch flag on_base = IsCall eff.repo ("merge" ∷ flag ∷ branch ∷ [])
Integrates eff remote branch flag integrated = IsProbe eff.repo remote
Integrates eff remote branch flag has_remote = IsPush eff.repo remote eff.base_branch
Integrates eff remote branch flag published = IsCall eff.repo ("rev-parse" ∷ "HEAD" ∷ [])
Integrates eff remote branch flag (reported sha) = λ dir args. ⊥

abbrev LandsBy :
    Task
    → EffectiveGit
    → EngineConfig
    → (branch : String) → MergeMode
    → Place
    → (dir : String) → List String
    → Type 0
LandsBy task eff cfg branch pr = Publishes (unwrap_or task.worktree eff.repo) cfg.remote branch
LandsBy task eff cfg branch fast_forward = Integrates eff cfg.remote branch "--ff-only"
LandsBy task eff cfg branch merge = Integrates eff cfg.remote branch "--no-edit"

abbrev AllowsGit : (Place → (dir : String) → List String → Type 0) → Place → Command → Type 0
AllowsGit Allowed place (git dir args) = Allowed place dir args
AllowsGit Allowed place _ = ⊥

-- A call that exits zero takes the landing a step further.
abbrev advance : Place → (call : String) → (stdout : String) → Place
advance place call stdout =
    if call == "rev-parse"
    then reported stdout
    else if call == "checkout"
    then on_base
    else if call == "merge"
    then integrated
    else if call == "push"
    then published
    else place

-- Without a remote there is nothing to push.
abbrev found : Outcome String GitOut → Place
found (ok out) = if out.ok then has_remote else published
found (err e) = published

abbrev moved_by : Place → (call : String) → Outcome String GitOut → Place
moved_by place call (ok out) = if out.ok then advance place call out.stdout else place
moved_by place call (err e) = place

abbrev step_on : Place → (args : List String) → Outcome String GitOut → Place
step_on place (call ∷ args) x = if call == "remote" then found x else moved_by place call x
step_on place [] x = place

abbrev next_place : Place → (c : Command) → Answer c → Place
next_place place (git dir args) x = step_on place args x
next_place place _ x = place

abbrev lands_within : (Place → (dir : String) → List String → Type 0) → Protocol
lands_within Allowed = record { State = Place; Allows = AllowsGit Allowed; after = next_place }

abbrev pub lands_by : Task → EffectiveGit → EngineConfig → (branch : String) → MergeMode → Protocol
lands_by task eff cfg branch mode = lands_within (LandsBy task eff cfg branch mode)

abbrev pub Anywhere : Place → Type 0
Anywhere place = Unit

found-has_remote : (x : Outcome String GitOut) → exits_zero x ≡ true → found x ≡ has_remote
found-has_remote (ok out) h = ap (λ b. if b then has_remote else published) h
found-has_remote (err e) h = ground arith

found-published : (x : Outcome String GitOut) → exits_zero x ≡ false → found x ≡ published
found-published (ok out) h = ap (λ b. if b then has_remote else published) h
found-published (err e) h = refl

-- The place after a call that exits zero.
moved :
    (out : GitOut) (place next : Place) → out.ok ≡ true → (if out.ok then next else place) ≡ next
moved out place next h = ap (λ b. if b then next else place) h

abbrev pub Reported : String → Place → Type 0
Reported sha place = place ≡ reported sha

abbrev Published : Unit {0} → Place → Type 0
Published u place = place ≡ published

-- A push from a place where the remote is probed, and pushed to once it is found.
pushing-Obeys :
    (Allowed : Place → (dir : String) → List String → Type 0) (dir remote refname : String)
    (place : Place)
    → Allowed place dir ("remote" ∷ "get-url" ∷ remote ∷ [])
    → Allowed has_remote dir ("push" ∷ remote ∷ refname ∷ [])
    → Obeys
        (lands_within Allowed)
        (push dir remote refname)
        place
        (Settles (lands_within Allowed) Published Anywhere)
pushing-Obeys Allowed dir remote refname place probes pushes =
    push-Obeys (lands_within Allowed) Anywhere dir remote refname Published place probes
      (λ x h.
        subst (PushesFrom (lands_within Allowed) Anywhere dir remote refname Published)
          (sym (found-has_remote x h))
          (pushes, (λ y. tt), (λ out good. moved out has_remote published good)))
      (λ x h. found-published x h)

module _ (task : Task) (eff : EffectiveGit) (cfg : EngineConfig) (branch : String) where
  pr-Obeys :
      Obeys
        (lands_by task eff cfg branch pr)
        (land_branch task eff cfg branch pr)
        start
        (Settles (lands_by task eff cfg branch pr) Reported Anywhere)
  unfolding head_sha
  pr-Obeys =
      let p = lands_by task eff cfg branch pr in
      let dir : String = unwrap_or task.worktree eff.repo in
      try-Obeys p (push dir cfg.remote branch) _ start Published _ Anywhere
        (pushing-Obeys (Publishes dir cfg.remote branch) dir cfg.remote branch start (refl, refl)
          (refl, refl))
        (λ _ place e.
          subst (λ t. Obeys p (rev_parse dir branch) t (Settles p Reported Anywhere)) (sym e)
            (rev_parse-Obeys p Anywhere dir branch _ published (refl, refl) (λ x. tt)
              (λ out h. moved out published (reported out.stdout) h)))

  -- The rest of a merge, by what is left to do.
  module _ (flag : String) where
    abbrev p : Protocol
    p = lands_within (Integrates eff cfg.remote branch flag)

    last-Obeys :
        (place : Place)
        → place ≡ published
        → Obeys p (rev_parse eff.repo "HEAD") place (Settles p Reported Anywhere)
    last-Obeys place e =
        subst (λ t. Obeys p (rev_parse eff.repo "HEAD") t (Settles p Reported Anywhere)) (sym e)
          (rev_parse-Obeys p Anywhere eff.repo "HEAD" _ published (refl, refl) (λ x. tt)
            (λ out h. moved out published (reported out.stdout) h))

    pushed-Obeys :
        (place : Place)
        → place ≡ integrated
        → Obeys p
            (push eff.repo cfg.remote eff.base_branch >> rev_parse eff.repo "HEAD")
            place
            (Settles p Reported Anywhere)
    pushed-Obeys place e =
        subst
          (λ t.
            Obeys p (push eff.repo cfg.remote eff.base_branch >> rev_parse eff.repo "HEAD") t
              (Settles p Reported Anywhere))
          (sym e)
          (try-Obeys p (push eff.repo cfg.remote eff.base_branch) _ integrated Published _ Anywhere
            (pushing-Obeys (Integrates eff cfg.remote branch flag) eff.repo cfg.remote
              eff.base_branch integrated (refl, refl) (refl, refl))
            (λ _ t h. last-Obeys t h))

    merge-Obeys :
        (out : GitOut) (failed : String)
        → Obeys p
            (require_ok failed out
              >> (push eff.repo cfg.remote eff.base_branch >> rev_parse eff.repo "HEAD"))
            (step_on on_base ("merge" ∷ flag ∷ branch ∷ []) (ok out))
            (Settles p Reported Anywhere)
    merge-Obeys out failed =
        try-Obeys p (require_ok failed out) _ _ (λ _ t. t ≡ integrated) _ Anywhere
          (require_ok-Obeys p Anywhere failed out _ _ tt (moved out on_base integrated))
          (λ _ t h. pushed-Obeys t h)

    abbrev merged : Attempt String
    merged = do
      out ← perform (git eff.repo ("merge" ∷ flag ∷ branch ∷ []))
      require_ok ("git merge of " <> branch <> " into " <> eff.base_branch <> " failed: ") out
      push eff.repo cfg.remote eff.base_branch
      rev_parse eff.repo "HEAD"

    merged-Obeys : Obeys p merged on_base (Settles p Reported Anywhere)
    merged-Obeys =
        git-Obeys p Anywhere eff.repo ("merge" ∷ flag ∷ branch ∷ []) _ Reported on_base (refl, refl)
          (λ e. tt) (λ out. merge-Obeys out _)

    integrate-Obeys : Obeys p (integrate eff cfg branch flag) start (Settles p Reported Anywhere)
    unfolding checkout
    integrate-Obeys =
        try-Obeys p (checkout eff.repo eff.base_branch) _ start (λ _ t. t ≡ on_base) _ Anywhere
          (git-Obeys p Anywhere eff.repo ("checkout" ∷ eff.base_branch ∷ []) _ (λ _ t. t ≡ on_base)
            start (refl, refl) (λ e. tt)
            (λ out. require_ok-Obeys p Anywhere _ out _ _ tt (moved out start on_base)))
          (λ _ t e.
            subst (λ t'. Obeys p merged t' (Settles p Reported Anywhere)) (sym e) merged-Obeys)

  by_mode :
      (mode : MergeMode)
      → Obeys
          (lands_by task eff cfg branch mode)
          (land_branch task eff cfg branch mode)
          start
          (Settles (lands_by task eff cfg branch mode) Reported Anywhere)
  by_mode pr = pr-Obeys
  by_mode fast_forward = integrate-Obeys "--ff-only"
  by_mode merge = integrate-Obeys "--no-edit"

-- Whatever `git` answers: a landing as a pull request probes the remote, pushes the branch of the task
-- if the remote is there, and then reads the head of the branch, in the tree of the task. Any other
-- landing checks the base branch out, merges the branch into it with the flag of its mode, probes the
-- remote, pushes the base if the remote is there, and then reads the head, in the repository; the
-- branch itself is not pushed. Each step is taken only after the one before it exited zero, but for
-- the probe, whose failure skips the push. A landing that succeeds has taken all of them and answers
-- the commit that it read last.
pub land-Obeys :
    (task : Task) (eff : EffectiveGit) (cfg : EngineConfig) (branch : String)
    → task.branch ≡ some branch
    → Obeys
        (lands_by task eff cfg branch eff.landing)
        (land task eff cfg)
        start
        (Settles (lands_by task eff cfg branch eff.landing) Reported Anywhere)
unfolding land
land-Obeys task eff cfg branch e =
    let p = lands_by task eff cfg branch eff.landing in
    subst (λ b. Obeys p (land_from task eff cfg b) start (Settles p Reported Anywhere)) (sym e)
      (by_mode task eff cfg branch eff.landing)
