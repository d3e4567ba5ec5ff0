-- ===== src/Engine/Program/Fallible.antt =====
-- Programs that return a `Result`, with `?` as a bind.
use lazybones.Prelude.{String, Outcome, ok, err}
use lazybones.Engine.Program.{Program, return, ◌>>=◌ as ◌then◌}

abbrev pub Attempt : Type 0 → Type 0
Attempt A = Program (Outcome String A)

abbrev pub or_fail : {A B : Type 0} → (A → Attempt B) → Outcome String A → Attempt B
or_fail f (ok a) = f a
or_fail f (err e) = return (err e)

infixl 5 ◌>>=◌ ◌>>◌
abbrev pub ◌>>=◌ : {A B : Type 0} → Attempt A → (A → Attempt B) → Attempt B
m >>= f = m then or_fail f

abbrev pub ◌>>◌ : {A B : Type 0} → Attempt A → Attempt B → Attempt B
m >> n = m >>= λ _. n

abbrev pub succeed : {A : Type 0} → A → Attempt A
succeed a = return (ok a)

-- `anyhow::bail!`
abbrev pub bail : {A : Type 0} → String → Attempt A
bail e = return (err e)
