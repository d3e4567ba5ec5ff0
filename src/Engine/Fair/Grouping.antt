-- ===== src/Engine/Fair/Grouping.antt =====
-- What the buckets hold.
use lazybones.Prelude.{
  ℕ, ◌+◌, ◌≡◌, Bool, String, List, [], ◌∷◌, ◌++◌, Map, insert, arith, if◌then◌else◌, is_some, ◌==◌,
  eq_iff,
}
use lazybones.Store.Task.Model.{Task}
use lazybones.Engine.Fair.{Buckets, run_key, bucket_of, push_task}
use lazybones.Engine.Fair.Rounds.{count, count-append}

-- How often a key stands in the order.
unfoldable pub occurs : String → List String → ℕ
occurs key [] = 0
occurs key (k ∷ order) = (if k == key then 1 else 0) + occurs key order

-- The keys of the buckets stand in the order, each one once.
abbrev pub IsOrdered : Buckets → Type 0
IsOrdered b = (key : String) → occurs key b.order ≡ (if is_some (b.buckets key) then 1 else 0)

occurs-append :
    (key : String) (order : List String) (k : String)
    → occurs key (order ++ k ∷ []) ≡ occurs key order + (if k == key then 1 else 0)
unfolding occurs
occurs-append key [] k = omega arith
occurs-append key (k' ∷ order) k = omega (arith, occurs-append key order k)

pub push_task-IsOrdered : (b : Buckets) (t : Task) → IsOrdered b → IsOrdered (push_task b t)
unfolding push_task
push_task-IsOrdered b t h key =
    ground
      (arith, h key, h (run_key t), occurs-append key b.order (run_key t), eq_iff (run_key t) key)

-- The tasks of the buckets of an order that pass a test.
unfoldable pub total : (Task → Bool) → Map (List Task) → List String → ℕ
total p m [] = 0
total p m (key ∷ order) = count p (bucket_of m key) + total p m order

pub total-append :
    (p : Task → Bool) (m : Map (List Task)) (order : List String) (key : String)
    → total p m (order ++ key ∷ []) ≡ total p m order + count p (bucket_of m key)
unfolding total
total-append p m [] key = omega arith
total-append p m (k ∷ order) key = omega (arith, total-append p m order key)

pub one-count : (p : Task → Bool) (t : Task) → count p (t ∷ []) ≡ (if p t then 1 else 0)
unfolding count
one-count p t = ground arith

pub total-insert :
    (p : Task → Bool) (m : Map (List Task)) (order : List String) (key : String) (t : Task)
    → total p (insert key (bucket_of m key ++ t ∷ []) m) order
      ≡ total p m order + (if p t then occurs key order else 0)
unfolding total occurs
total-insert p m [] key t = ground arith
total-insert p m (k ∷ order) key t = ground (
  arith,
  total-insert p m order key t,
  count-append p (bucket_of m key) (t ∷ []),
  one-count p t,
  eq_iff key k,
  eq_iff k key,
)
