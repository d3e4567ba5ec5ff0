-- ===== src/Engine/Program/Obeys.antt =====
-- Protocols that a program follows whatever the world answers.
use mathlib.Core.List.{Mem, mem-cons_self, mem-cons_of_mem}
use lazybones.Prelude.{List, [], ◌∷◌}
use lazybones.Engine.Commands.{Command, Answer}
use lazybones.Engine.Program.{Program, return, ask, ◌>>=◌, for_each, fold, World, run}

-- What has been seen so far, which commands may be asked after it, and how an answer moves it.
pub record Protocol : Type 1 where
  pub State : Type 0
  pub Allows : State → Command → Type 0
  pub after : State → (c : Command) → Answer c → State

module _ (p : Protocol) where
  open p use {State, Allows, after}

  -- The program asks only what is allowed, and ends in a state and with a value as `Then` says.
  abbrev pub Obeys : {A : Type 0} → Program A → State → (A → State → Type 0) → Type 0
  Obeys (return a) s Then = Then a s
  Obeys (ask c k) s Then = Allows s c × ((x : Answer c) → Obeys (k x) (after s c x) Then)

  pub Obeys_mono :
      {A : Type 0} (m : Program A) (s : State) (Then Then' : A → State → Type 0)
      → Obeys m s Then
      → ((a : A) (s' : State) → Then a s' → Then' a s')
      → Obeys m s Then'
  Obeys_mono (return a) s Then Then' h k = k a s h
  Obeys_mono (ask c f) s Then Then' h k =
      (h.0, λ x. Obeys_mono (f x) (after s c x) Then Then' (h.1 x) k)

  -- The rule for a bind.
  pub bind-Obeys :
      {A B : Type 0} (m : Program A) (f : A → Program B) (s : State) (Mid : A → State → Type 0)
      (Then : B → State → Type 0)
      → Obeys m s Mid
      → ((a : A) (s' : State) → Mid a s' → Obeys (f a) s' Then)
      → Obeys (m >>= f) s Then
  bind-Obeys (return a) f s Mid Then h k = k a s h
  bind-Obeys (ask c g) f s Mid Then h k =
      (h.0, λ x. bind-Obeys (g x) f (after s c x) Mid Then (h.1 x) k)

  -- The rule for a loop over a state, with an invariant.
  pub fold-Obeys :
      {A S : Type 0} (body : S → A → Program S) (Inv : S → State → Type 0)
      → ((a : A) (t : S) (s : State) → Inv t s → Obeys (body t a) s Inv)
      → (xs : List A) (t : S) (s : State) → Inv t s
      → Obeys (fold body t xs) s Inv
  fold-Obeys body Inv step [] t s h = h
  fold-Obeys body Inv step (x ∷ xs) t s h =
      bind-Obeys (body t x) (λ t'. fold body t' xs) s Inv Inv (step x t s h)
        (λ t' s' h'. fold-Obeys body Inv step xs t' s' h')

  -- The rule for a loop that keeps an invariant of what has been seen.
  pub for_each-Obeys :
      {A : Type 0} (body : A → Program (Unit {0})) (Inv : State → Type 0)
      → ((a : A) (s : State) → Inv s → Obeys (body a) s (λ _ s'. Inv s'))
      → (xs : List A) (s : State) → Inv s
      → Obeys (for_each xs body) s (λ _ s'. Inv s')
  for_each-Obeys body Inv step [] s h = h
  for_each-Obeys body Inv step (x ∷ xs) s h =
      bind-Obeys (body x) (λ _. for_each xs body) s (λ _ s'. Inv s') (λ _ s'. Inv s') (step x s h)
        (λ _ s' h'. for_each-Obeys body Inv step xs s' h')

  -- The same, for a loop whose body relies on where its elements come from.
  pub for_members-Obeys :
      {A : Type 0} (body : A → Program (Unit {0})) (Inv : State → Type 0) (xs : List A)
      → ((a : A) (s : State) → Mem a xs → Inv s → Obeys (body a) s (λ _ s'. Inv s'))
      → (s : State) → Inv s
      → Obeys (for_each xs body) s (λ _ s'. Inv s')
  for_members-Obeys body Inv [] step s h = h
  for_members-Obeys body Inv (x ∷ xs) step s h =
      bind-Obeys (body x) (λ _. for_each xs body) s (λ _ s'. Inv s') (λ _ s'. Inv s')
        (step x s mem-cons_self h)
        (λ _ s' h'. for_members-Obeys body Inv xs (λ a t m. step a t (mem-cons_of_mem x m)) s' h')

  -- What has been seen at the end of a run.
  abbrev pub seen_by : {A W : Type 0} → World W → Program A → W → State → State
  seen_by world (return a) w s = s
  seen_by world (ask c k) w s = let (x, w') = world c w in seen_by world (k x) w' (after s c x)

  -- A program that follows a protocol ends in every world as the protocol says.
  pub Obeys-run :
      {A W : Type 0} (world : World W) (m : Program A) (w : W) (s : State)
      (Then : A → State → Type 0)
      → Obeys m s Then
      → Then ((run world m w).0) (seen_by world m w s)
  Obeys-run world (return a) w s Then h = h
  Obeys-run world (ask c k) w s Then h =
      let (x, w') = world c w in Obeys-run world (k x) w' (after s c x) Then (h.1 x)
