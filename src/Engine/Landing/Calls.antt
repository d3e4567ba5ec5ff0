-- ===== src/Engine/Landing/Calls.antt =====
-- The rules for the calls of `git` that a landing makes.
use lazybones.Prelude.{
  String, ◌≡◌, refl, Bool, true, false, List, [], ◌∷◌, Outcome, ok, err, by_test,
}
use lazybones.Engine.Commands.{Command, git, GitOut}
use lazybones.Engine.Program.{perform}
use lazybones.Engine.Program.Fallible.{Attempt, or_fail, succeed, ◌>>=◌}
use lazybones.Engine.Program.Obeys.{Protocol, Obeys}
use lazybones.Engine.Program.Settles.{Settles}
use lazybones.Engine.Landing.{require_ok, rev_parse, push_to, push, exits_zero}

module _ (p : Protocol) (Bad : p.State → Type 0) where
  abbrev AfterGit :
      {A : Type 0}
      → (GitOut → Attempt A)
      → (A → p.State → Type 0)
      → (Outcome String GitOut → p.State)
      → Type 0
  AfterGit f Good next = (out : GitOut) → Obeys p (f out) (next (ok out)) (Settles p Good Bad)

  called-Obeys :
      {A : Type 0} (f : GitOut → Attempt A) (Good : A → p.State → Type 0)
      (next : Outcome String GitOut → p.State)
      → ((e : String) → Bad (next (err e)))
      → AfterGit f Good next
      → (x : Outcome String GitOut) → Obeys p (or_fail f x) (next x) (Settles p Good Bad)
  called-Obeys f Good next bad k (ok out) = k out
  called-Obeys f Good next bad k (err e) = bad e

  -- One call, and what comes after it.
  pub git-Obeys :
      {A : Type 0} (repo : String) (args : List String) (f : GitOut → Attempt A)
      (Good : A → p.State → Type 0) (s : p.State)
      → p.Allows s (git repo args)
      → ((e : String) → Bad (p.after s (git repo args) (err e)))
      → ((out : GitOut) → Obeys p (f out) (p.after s (git repo args) (ok out)) (Settles p Good Bad))
      → Obeys p (perform (git repo args) >>= f) s (Settles p Good Bad)
  git-Obeys repo args f Good s allowed bad k =
      (allowed, called-Obeys f Good (p.after s (git repo args)) bad k)

  pub require_ok-Obeys :
      (failed : String) (out : GitOut) (s : p.State) (Good : Unit {0} → p.State → Type 0)
      → Bad s
      → (out.ok ≡ true → Good tt s)
      → Obeys p (require_ok failed out) s (Settles p Good Bad)
  require_ok-Obeys failed out s Good bad good =
      by_test (λ m. Obeys p m s (Settles p Good Bad)) out.ok good (λ _. bad)

  -- A commit that is named, where the call is allowed and its answers lead to good states.
  pub rev_parse-Obeys :
      (repo refname : String) (Good : String → p.State → Type 0) (s : p.State)
      → p.Allows s (git repo ("rev-parse" ∷ refname ∷ []))
      → ((x : Outcome String GitOut) → Bad (p.after s (git repo ("rev-parse" ∷ refname ∷ [])) x))
      → ((out : GitOut)
          → out.ok ≡ true
          → Good out.stdout (p.after s (git repo ("rev-parse" ∷ refname ∷ [])) (ok out)))
      → Obeys p (rev_parse repo refname) s (Settles p Good Bad)
  unfolding rev_parse
  rev_parse-Obeys repo refname Good s allowed bad good =
      git-Obeys repo ("rev-parse" ∷ refname ∷ []) _ Good s allowed (λ e. bad (err e))
        (λ out.
          by_test
            (λ (m : Attempt (Unit {0})).
              Obeys p (m >>= λ _. succeed out.stdout)
                (p.after s (git repo ("rev-parse" ∷ refname ∷ [])) (ok out)) (Settles p Good Bad))
            out.ok (good out) (λ _. bad (ok out)))

  -- A push: the remote is probed, and pushed to if it is there.
  abbrev pub get_url : (repo remote : String) → Command
  get_url repo remote = git repo ("remote" ∷ "get-url" ∷ remote ∷ [])

  abbrev pub push_call : (repo remote refname : String) → Command
  push_call repo remote refname = git repo ("push" ∷ remote ∷ refname ∷ [])

  abbrev pub PushesFrom :
      (repo remote refname : String) (Good : Unit {0} → p.State → Type 0) → p.State → Type 0
  PushesFrom repo remote refname Good t =
      p.Allows t (push_call repo remote refname)
      × ((y : Outcome String GitOut) → Bad (p.after t (push_call repo remote refname) y))
      × ((out : GitOut)
          → out.ok ≡ true
          → Good tt (p.after t (push_call repo remote refname) (ok out)))

  push_to-Obeys :
      (repo remote refname : String) (Good : Unit {0} → p.State → Type 0) (s : p.State) (b : Bool)
      → (b ≡ true → PushesFrom repo remote refname Good s)
      → (b ≡ false → Good tt s)
      → Obeys p (push_to repo remote refname b) s (Settles p Good Bad)
  push_to-Obeys repo remote refname Good s false calls good = good refl
  push_to-Obeys repo remote refname Good s true calls good =
      let (allowed, bad, pushed) = calls refl in
      git-Obeys repo ("push" ∷ remote ∷ refname ∷ []) _ Good s allowed (λ e. bad (err e))
        (λ out. require_ok-Obeys _ out _ Good (bad (ok out)) (pushed out))

  -- The rule for a push, by what the probe answers.
  pub push-Obeys :
      (repo remote refname : String) (Good : Unit {0} → p.State → Type 0) (s : p.State)
      → p.Allows s (get_url repo remote)
      → ((x : Outcome String GitOut)
          → exits_zero x ≡ true
          → PushesFrom repo remote refname Good (p.after s (get_url repo remote) x))
      → ((x : Outcome String GitOut)
          → exits_zero x ≡ false
          → Good tt (p.after s (get_url repo remote) x))
      → Obeys p (push repo remote refname) s (Settles p Good Bad)
  unfolding push
  push-Obeys repo remote refname Good s allowed calls good =
      (allowed, λ x. push_to-Obeys repo remote refname Good _ (exits_zero x) (calls x) (good x))
