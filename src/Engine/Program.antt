-- ===== src/Engine/Program.antt =====
-- crates/lazybones-engine: a piece of the scheduler as a program that asks commands of the world
-- and goes on with the answers, which can be any.
pub mod Obeys
pub mod Fallible
pub mod Within
pub mod Settles
pub mod Quiet
use lazybones.Prelude.{List, [], ◌∷◌}
use lazybones.Engine.Commands.{Command, Answer}

pub data Program (A : Type 0) : Type 0 where
  return : A → Program A
  ask : (c : Command) → (Answer c → Program A) → Program A

abbrev pub perform : (c : Command) → Program (Answer c)
perform c = ask c return

infixl 5 ◌>>=◌ ◌>>◌
abbrev pub ◌>>=◌ : {A B : Type 0} → Program A → (A → Program B) → Program B
return a >>= f = f a
ask c k >>= f = ask c (λ x. k x >>= f)

abbrev pub ◌>>◌ : {A B : Type 0} → Program A → Program B → Program B
p >> q = p >>= λ _. q

-- Nothing more to ask.
abbrev pub stop : Program (Unit {0})
stop = return tt

-- A `for` loop.
abbrev pub for_each : {A : Type 0} → List A → (A → Program (Unit {0})) → Program (Unit {0})
for_each [] body = stop
for_each (x ∷ xs) body = body x >> for_each xs body

-- A `for` loop over a state.
abbrev pub fold : {A S : Type 0} → (S → A → Program S) → S → List A → Program S
fold body s [] = return s
fold body s (x ∷ xs) = body s x >>= λ s'. fold body s' xs

-- The world: a state, and how it answers.
abbrev pub World : Type 0 → Type 0
World W = (c : Command) → W → Answer c × W

abbrev pub run : {A W : Type 0} → World W → Program A → W → A × W
run world (return a) w = (a, w)
run world (ask c k) w = let (x, w') = world c w in run world (k x) w'
