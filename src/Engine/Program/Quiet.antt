-- ===== src/Engine/Program/Quiet.antt =====
-- Programs whose commands a protocol always allows, and after which nothing more has been seen.
use lazybones.Prelude.{◌≡◌, refl, ◌∙◌}
use lazybones.Engine.Commands.{Command, Answer}
use lazybones.Engine.Program.{Program}
use lazybones.Engine.Program.Obeys.{Protocol, Obeys}
use lazybones.Engine.Program.Within.{Within, Within-Obeys}

module _ (p : Protocol) where
  open p use {State, Allows, after}

  abbrev pub Quiet : Command → Type 0
  Quiet c = (s : State) → Allows s c × ((x : Answer c) → after s c x ≡ s)

  pub Quiet-Obeys :
      {A : Type 0} (m : Program A) (s : State) → Within Quiet m → Obeys p m s (λ _ t. t ≡ s)
  Quiet-Obeys m s w =
      Within-Obeys Quiet p (λ t. t ≡ s) (λ t c e quiet. ((quiet t).0, λ x. (quiet t).1 x ∙ e)) m s
        refl w
