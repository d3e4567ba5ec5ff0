-- ===== src/Engine/Tick/Room.antt =====
-- The room for agents that the running and gating tasks leave, and what keeps it.
use lazybones.Prelude.{
  ℕ, suc, ◌+◌, ◌-◌, ◌≤◌, String, ◌≡◌, refl, sym, subst, inl, inr, false, Option, none, some, List,
  Outcome, ok, arith, length, nat_eq,
}
use lazybones.Store.Error.{StoreError}
use lazybones.Store.Task.Status.{Status}
use lazybones.Store.Task.Model.{Task}
use lazybones.Engine.Config.{EngineConfig}
use lazybones.Engine.Commands.{Command, Answer, hcom_spawn, list_tasks}
use lazybones.Engine.Program.{Program}
use lazybones.Engine.Program.Obeys.{Protocol, Obeys}
use lazybones.Engine.Program.Within.{Within, Within-Obeys}
use lazybones.Engine.Block.Footprint.{IsBlocking}
use lazybones.Engine.Worktree.Footprint.{HasTreeWork}

-- The numbers of running and gating tasks as first answered, and the agents started since.
pub record Slots : Type 0 where
  pub running : Option ℕ
  pub gating : Option ℕ
  pub started : ℕ

abbrev pub nothing_known : Slots
nothing_known = record { running = none; gating = none; started = 0 }

-- There is room for `n` more agents.
abbrev pub HasRoom : EngineConfig → ℕ → Slots → Type 0
HasRoom cfg n s =
    (running gating : ℕ) × (s.running ≡ some running)
    × (s.gating ≡ some gating)
    × (running + gating + s.started + n ≤ cfg.concurrency)

abbrev MayStart : EngineConfig → Slots → Command → Type 0
MayStart cfg s (hcom_spawn tool tag dir prompt launch) = HasRoom cfg 1 s
MayStart cfg s _ = Unit

abbrev first : Option ℕ → ℕ → Option ℕ
first none n = some n
first (some m) n = some m

abbrev pub counted : Slots → Status → Outcome StoreError (List Task) → Slots
counted s Status.running (ok tasks) = record s { running = first s.running (length tasks) }
counted s Status.gating (ok tasks) = record s { gating = first s.gating (length tasks) }
counted s _ _ = s

abbrev count_start : Slots → (c : Command) → Answer c → Slots
count_start s (hcom_spawn tool tag dir prompt launch) x = record s { started = suc s.started }
count_start s (list_tasks status) x = counted s status x
count_start s _ x = s

-- An agent is started, whether its start succeeds or not, only where the running and gating tasks
-- and the agents started before leave room for it.
abbrev pub starts_within : EngineConfig → Protocol
starts_within cfg = record { State = Slots; Allows = MayStart cfg; after = count_start }

-- A command that starts no agent and counts no tasks.
abbrev pub IsQuiet : EngineConfig → Command → Type 0
IsQuiet cfg c = (s : Slots) → MayStart cfg s c × ((x : Answer c) → count_start s c x ≡ s)

pub slots_within :
    (slots r g : ℕ) → nat_eq (slots - (r + g)) 0 ≡ false → r + g + 0 + (slots - (r + g)) ≤ slots
slots_within slots r g h = ground arith

module _ (cfg : EngineConfig) where
  abbrev pub p : Protocol
  p = starts_within cfg

  -- Quiet programs keep the room.
  pub quiet-Obeys :
      {A : Type 0} (n : ℕ) (m : Program A) (s : Slots)
      → HasRoom cfg n s
      → Within (IsQuiet cfg) m
      → Obeys p m s (λ _ t. HasRoom cfg n t)
  quiet-Obeys n m s h w =
      Within-Obeys (IsQuiet cfg) p (HasRoom cfg n)
        (λ t c room quiet. ((quiet t).0, λ x. subst (HasRoom cfg n) (sym ((quiet t).1 x)) room)) m s
        h w

  pub tree-IsQuiet : HasTreeWork (IsQuiet cfg)
  tree-IsQuiet = record {
    has_git = λ r a s. (tt, λ x. refl);
    has_is_dir = λ path s. (tt, λ x. refl);
    has_exists = λ path s. (tt, λ x. refl);
    has_create = λ path s. (tt, λ x. refl);
    has_write = λ path c s. (tt, λ x. refl);
    has_trust = λ path s. (tt, λ x. refl);
  }

  pub blocking-IsQuiet : (id : String) (c : Command) → IsBlocking id c → IsQuiet cfg c
  blocking-IsQuiet id c (inl (entry, e)) = subst (IsQuiet cfg) (sym e) (λ s. (tt, λ x. refl))
  blocking-IsQuiet id c (inr (inl (reason, actor, e))) =
      subst (IsQuiet cfg) (sym e) (λ s. (tt, λ x. refl))
  blocking-IsQuiet id c (inr (inr (guide, actor, e))) =
      subst (IsQuiet cfg) (sym e) (λ s. (tt, λ x. refl))

  pub fewer : (n : ℕ) (s : Slots) → HasRoom cfg (suc n) s → HasRoom cfg n s
  fewer n s (r, g, er, eg, h) = (r, g, er, eg, omega arith)

  pub room_for_one : (n : ℕ) (s : Slots) → HasRoom cfg (suc n) s → HasRoom cfg 1 s
  room_for_one n s (r, g, er, eg, h) = (r, g, er, eg, omega arith)

  pub one_less :
      (n : ℕ) (s : Slots)
      → HasRoom cfg (suc n) s
      → HasRoom cfg n (record s { started = suc s.started })
  one_less n s (r, g, er, eg, h) = (r, g, er, eg, omega arith)
