-- ===== src/Engine/Fair.antt =====
-- crates/lazybones-engine/src/scheduler/tick.rs: the order in which ready tasks are claimed. The
-- while loop runs on fuel: it is out of tasks after one round more than the longest bucket.
pub mod Rounds
pub mod Grouping
pub mod Order
pub mod Places
pub mod Turns
use lazybones.Prelude.{
  ℕ, zero, suc, ◌+◌, Bool, true, false, String, Option, none, some, List, [], ◌∷◌, ◌++◌, Map,
  empty_map, insert, if◌then◌else◌, is_some, unwrap_or, length, get_elem?, option_map,
}
use lazybones.Store.Task.Model.{Task}

-- The keys in the order of their first task, and the tasks of each key.
pub record Buckets : Type 0 where
  pub order : List String
  pub buckets : Map (List Task)

abbrev pub no_buckets : Buckets
no_buckets = record { order = []; buckets = empty_map }

-- The run of a task; all tasks without one share a key.
abbrev pub run_key : Task → String
run_key t = unwrap_or t.run_id ""

abbrev pub bucket_of : Map (List Task) → String → List Task
bucket_of m key = unwrap_or (m key) []

-- One pass of the loop over the ready tasks.
unfoldable pub push_task : Buckets → Task → Buckets
push_task b task =
    let key = run_key task in
    record {
      order = if is_some (b.buckets key) then b.order else b.order ++ key ∷ [];
      buckets = insert key (bucket_of b.buckets key ++ task ∷ []) b.buckets;
    }

unfoldable pub group_from : Buckets → List Task → Buckets
unfolding push_task
group_from b [] = b
group_from b (task ∷ ready) = group_from (push_task b task) ready

abbrev pub push_some : Option Task → List Task → List Task
push_some none rest = rest
push_some (some t) rest = t ∷ rest

-- One round: the task at an index of each bucket that has one.
unfoldable pub round : Map (List Task) → List String → ℕ → List Task
round m [] idx = []
round m (key ∷ order) idx = push_some (get_elem? (bucket_of m key) idx) (round m order idx)

abbrev pub after_round : List Task → Option (List Task) → Option (List Task)
after_round [] rest = some []
after_round (t ∷ ts) rest = option_map (λ later. (t ∷ ts) ++ later) rest

-- Rounds until one is empty.
unfoldable pub rounds : (fuel : ℕ) → Buckets → ℕ → Option (List Task)
unfolding round
rounds zero b idx = none
rounds (suc fuel) b idx = after_round (round b.buckets b.order idx) (rounds fuel b (suc idx))

unfoldable pub fair_order : List Task → Option (List Task)
unfolding group_from rounds
fair_order ready = rounds (suc (length ready)) (group_from no_buckets ready) 0
