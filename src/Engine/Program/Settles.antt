-- ===== src/Engine/Program/Settles.antt =====
-- Protocols and programs that may fail: what holds after a success, and after an error.
use lazybones.Prelude.{String, Outcome, ok, err}
use lazybones.Engine.Program.Fallible.{Attempt, or_fail, ◌>>=◌}
use lazybones.Engine.Program.Obeys.{Protocol, Obeys, Obeys_mono, bind-Obeys}

module _ (p : Protocol) where
  open p use {State}

  abbrev pub Settles :
      {A : Type 0} → (A → State → Type 0) → (State → Type 0) → Outcome String A → State → Type 0
  Settles Good Bad (ok a) s = Good a s
  Settles Good Bad (err e) s = Bad s

  -- What comes after an answer, in the state that the answer leads to.
  pub answer-Obeys :
      {A B : Type 0} (Then : Outcome String B → State → Type 0) (f : A → Attempt B)
      (next : Outcome String A → State)
      → ((e : String) → Then (err e) (next (err e)))
      → ((a : A) → Obeys p (f a) (next (ok a)) Then)
      → (x : Outcome String A) → Obeys p (or_fail f x) (next x) Then
  answer-Obeys Then f next bad good (ok a) = good a
  answer-Obeys Then f next bad good (err e) = bad e

  or_fail-Obeys :
      {A B : Type 0} (f : A → Attempt B) (Good : A → State → Type 0) (Good' : B → State → Type 0)
      (Bad : State → Type 0)
      → ((a : A) (s : State) → Good a s → Obeys p (f a) s (Settles Good' Bad))
      → (a : Outcome String A) (s : State) → Settles Good Bad a s
      → Obeys p (or_fail f a) s (Settles Good' Bad)
  or_fail-Obeys f Good Good' Bad k (ok a) s h = k a s h
  or_fail-Obeys f Good Good' Bad k (err e) s h = h

  -- The rule for a bind.
  pub try-Obeys :
      {A B : Type 0} (m : Attempt A) (f : A → Attempt B) (s : State) (Good : A → State → Type 0)
      (Good' : B → State → Type 0) (Bad : State → Type 0)
      → Obeys p m s (Settles Good Bad)
      → ((a : A) (s' : State) → Good a s' → Obeys p (f a) s' (Settles Good' Bad))
      → Obeys p (m >>= f) s (Settles Good' Bad)
  try-Obeys m f s Good Good' Bad h k =
      bind-Obeys p m (or_fail f) s (Settles Good Bad) (Settles Good' Bad) h
        (or_fail-Obeys f Good Good' Bad k)

  kept-Settles :
      {A : Type 0} (Inv : State → Type 0) (a : Outcome String A) (s : State)
      → Inv s
      → Settles (λ _ s'. Inv s') Inv a s
  kept-Settles Inv (ok a) s h = h
  kept-Settles Inv (err e) s h = h

  -- A program that keeps an invariant keeps it in both cases.
  pub settle-Obeys :
      {A : Type 0} (m : Attempt A) (s : State) (Inv : State → Type 0)
      → Obeys p m s (λ _ s'. Inv s')
      → Obeys p m s (Settles (λ _ s'. Inv s') Inv)
  settle-Obeys m s Inv h =
      Obeys_mono p m s (λ _ s'. Inv s') (Settles (λ _ s'. Inv s') Inv) h (kept-Settles Inv)
