-- ===== src/Engine/Gate/Passes.antt =====
-- A gate that is green: every command of it was run in the worktree, in order, and exited zero.
use lazybones.Prelude.{
  String, ◌≡◌, refl, sym, subst, ◌∙◌, true, List, [], ◌∷◌, ◌++◌, Outcome, ok, by_test, append-empty,
  append_assoc,
}
use lazybones.Engine.Commands.{sh, Output}
use lazybones.Engine.Program.Obeys.{Protocol, Obeys}
use lazybones.Engine.Program.Settles.{answer-Obeys}
use lazybones.Engine.Gate.{GateOutcome, green, run}

-- Under a protocol that counts the commands that exited zero.
module _ (p : Protocol) (worktree : String) (Ran : List String → p.State → Type 0)
    (runs : (cmd : String) (done : List String) (s : p.State)
      → Ran done s
      → p.Allows s (sh worktree cmd)
        × ((out : Output)
            → out.success ≡ true
            → Ran (done ++ cmd ∷ []) (p.after s (sh worktree cmd) (ok out)))) where
  -- The commands that have been run at the end, where the gate is green.
  abbrev pub Passed : (all : List String) → Outcome String GateOutcome → p.State → Type 0
  Passed all (ok green) s = Ran all s
  Passed all _ s = Unit

  from-Obeys :
      (all commands done : List String) (s : p.State)
      → done ++ commands ≡ all
      → Ran done s
      → Obeys p (run worktree commands) s (Passed all)
  unfolding run
  from-Obeys all [] done s e h = subst (λ xs. Ran xs s) (sym (append-empty done) ∙ e) h
  from-Obeys all (cmd ∷ commands) done s e h =
      let call = runs cmd done s h in
      let next = p.after s (sh worktree cmd) in
      (
        call.0,
        answer-Obeys p (Passed all) _ next (λ m. tt)
            (λ out.
              by_test (λ m. Obeys p m (next (ok out)) (Passed all)) out.success
                (λ good.
                  from-Obeys all commands (done ++ cmd ∷ []) (next (ok out))
                    (append_assoc done (cmd ∷ []) commands ∙ e) (call.1 out good))
                (λ _. tt)),
      )

  pub run-Obeys :
      (commands : List String) (s : p.State)
      → Ran [] s
      → Obeys p (run worktree commands) s (Passed commands)
  run-Obeys commands s h = from-Obeys commands commands [] s refl h
