-- ===== src/Engine/Program/Within.antt =====
-- The commands that a program asks, whatever the world answers.
use lazybones.Prelude.{String, Outcome, ok, err, List, [], ◌∷◌}
use lazybones.Engine.Commands.{Command, Answer}
use lazybones.Engine.Program.{Program, return, ask, ◌>>=◌, for_each, fold}
use lazybones.Engine.Program.Fallible.{Attempt, or_fail, ◌>>=◌ as ◌try◌}
use lazybones.Engine.Program.Obeys.{Protocol, Obeys}

module _ (K : Command → Type 0) where
  abbrev pub Within : {A : Type 0} → Program A → Type 0
  Within (return a) = Unit
  Within (ask c k) = K c × ((x : Answer c) → Within (k x))

  pub bind-Within :
      {A B : Type 0} (m : Program A) (f : A → Program B)
      → Within m
      → ((a : A) → Within (f a))
      → Within (m >>= f)
  bind-Within (return a) f h k = k a
  bind-Within (ask c g) f h k = (h.0, λ x. bind-Within (g x) f (h.1 x) k)

  pub or_fail-Within :
      {A B : Type 0} (f : A → Attempt B)
      → ((a : A) → Within (f a))
      → (a : Outcome String A) → Within (or_fail f a)
  or_fail-Within f k (ok a) = k a
  or_fail-Within f k (err e) = tt

  -- The rule for a bind of programs that may fail.
  pub try-Within :
      {A B : Type 0} (m : Attempt A) (f : A → Attempt B)
      → Within m
      → ((a : A) → Within (f a))
      → Within (m try f)
  try-Within m f h k = bind-Within m (or_fail f) h (or_fail-Within f k)

  pub for_each-Within :
      {A : Type 0} (xs : List A) (body : A → Program (Unit {0}))
      → ((a : A) → Within (body a))
      → Within (for_each xs body)
  for_each-Within [] body k = tt
  for_each-Within (x ∷ xs) body k =
      bind-Within (body x) (λ _. for_each xs body) (k x) (λ _. for_each-Within xs body k)

  pub fold-Within :
      {A S : Type 0} (body : S → A → Program S) (xs : List A) (s : S)
      → ((t : S) (a : A) → Within (body t a))
      → Within (fold body s xs)
  fold-Within body [] s k = tt
  fold-Within body (x ∷ xs) s k =
      bind-Within (body s x) (λ t. fold body t xs) (k s x) (λ t. fold-Within body xs t k)

  -- A program of commands that are allowed and keep an invariant follows the protocol.
  pub Within-Obeys :
      (p : Protocol) (Inv : p.State → Type 0)
      → ((s : p.State) (c : Command)
          → Inv s
          → K c
          → p.Allows s c × ((x : Answer c) → Inv (p.after s c x)))
      → {A : Type 0} (m : Program A) (s : p.State) → Inv s
      → Within m
      → Obeys p m s (λ _ s'. Inv s')
  Within-Obeys p Inv keep (return a) s h w = h
  Within-Obeys p Inv keep (ask c k) s h w =
      let (allowed, kept) = keep s c h w.0 in
      (allowed, λ x. Within-Obeys p Inv keep (k x) (p.after s c x) (kept x) (w.1 x))

-- A wider class of commands.
pub Within-mono :
    (K K' : Command → Type 0)
    → ((c : Command) → K c → K' c)
    → {A : Type 0} (m : Program A) → Within K m
    → Within K' m
Within-mono K K' wide (return a) w = tt
Within-mono K K' wide (ask c k) w = (wide c w.0, λ x. Within-mono K K' wide (k x) (w.1 x))
