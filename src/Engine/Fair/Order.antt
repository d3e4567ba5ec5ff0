-- ===== src/Engine/Fair/Order.antt =====
-- The fair order is a permutation of the ready tasks.
use lazybones.Prelude.{
  ℕ, suc, ◌+◌, ◌≤◌, ◌≡◌, refl, Bool, String, some, List, [], ◌∷◌, ◌++◌, Map, insert, arith,
  if◌then◌else◌, is_some, length, eq_iff, Bool-cases, length-append, inl, inr,
}
use lazybones.Store.Task.Model.{Task}
use lazybones.Engine.Fair.{
  Buckets, no_buckets, run_key, bucket_of, push_task, group_from, fair_order,
}
use lazybones.Engine.Fair.Rounds.{
  count, count_from-zero, total_from, Short, rounds-count, rounds-some,
}
use lazybones.Engine.Fair.Grouping.{
  IsOrdered, occurs, push_task-IsOrdered, total, total-append, total-insert, one-count,
}

total_from-zero :
    (p : Task → Bool) (m : Map (List Task)) (order : List String)
    → total_from p m order 0 ≡ total p m order
unfolding total_from total
total_from-zero p m [] = refl
total_from-zero p m (key ∷ order) =
    omega (arith, total_from-zero p m order, count_from-zero p (bucket_of m key))

-- A push puts one task into the buckets.
push_task-total :
    (p : Task → Bool) (b : Buckets) (t : Task)
    → IsOrdered b
    → let b' = push_task b t in
      total p b'.buckets b'.order ≡ total p b.buckets b.order + (if p t then 1 else 0)
unfolding push_task
push_task-total p b t h = elim (Bool-cases (is_some (b.buckets (run_key t)))) [
  | inl held ↦ ground (arith, h (run_key t), total-insert p b.buckets b.order (run_key t) t)
  | inr new ↦ ground (
    arith,
    h (run_key t),
    total-insert p b.buckets b.order (run_key t) t,
    total-append p (insert (run_key t) (bucket_of b.buckets (run_key t) ++ t ∷ []) b.buckets)
        b.order (run_key t),
    one-count p t,
    eq_iff (run_key t) (run_key t),
  )
]

group_from-total :
    (p : Task → Bool) (b : Buckets) (ready : List Task)
    → IsOrdered b
    → let b' = group_from b ready in
      total p b'.buckets b'.order ≡ total p b.buckets b.order + count p ready
unfolding group_from count
group_from-total p b [] h = omega arith
group_from-total p b (t ∷ ready) h = omega (
  arith,
  group_from-total p (push_task b t) ready (push_task-IsOrdered b t h),
  push_task-total p b t h,
)

-- Each bucket is at most so long.
abbrev IsShort : Buckets → ℕ → Type 0
IsShort b n = (key : String) → length (bucket_of b.buckets key) ≤ n

push_task-IsShort : (b : Buckets) (t : Task) (n : ℕ) → IsShort b n → IsShort (push_task b t) (suc n)
unfolding push_task
push_task-IsShort b t n h key = ground (
  arith,
  h key,
  h (run_key t),
  length-append (bucket_of b.buckets (run_key t)) (t ∷ []),
  eq_iff (run_key t) key,
)

group_from-IsShort :
    (b : Buckets) (ready : List Task) (n : ℕ)
    → IsShort b n
    → IsShort (group_from b ready) (n + length ready)
unfolding group_from
group_from-IsShort b [] n h key = omega (arith, h key)
group_from-IsShort b (t ∷ ready) n h key =
    omega (arith, group_from-IsShort (push_task b t) ready (suc n) (push_task-IsShort b t n h) key)

IsShort-Short : (b : Buckets) (n : ℕ) (order : List String) → IsShort b n → Short b.buckets order n
IsShort-Short b n [] h = tt
IsShort-Short b n (key ∷ order) h = (h key, IsShort-Short b n order h)

-- The fair order is found, and it has each ready task as often as the list of them has it: of the
-- tasks that pass any test, the same number.
pub fair_order-count :
    (ready : List Task) (p : Task → Bool)
    → (out : List Task) × (fair_order ready ≡ some out) × (count p out ≡ count p ready)
unfolding fair_order total occurs
fair_order-count ready p =
    let b = group_from no_buckets ready in
    let n = length ready in
    let short = group_from-IsShort no_buckets ready 0 (λ key. omega arith) in
    let (out, e) =
      rounds-some b n (suc n) 0 (IsShort-Short b n b.order (λ key. omega (arith, short key)))
        (omega arith) (omega arith) in
    (
      out,
      e,
      omega (
        arith,
        rounds-count p (suc n) b 0 out e,
        total_from-zero p b.buckets b.order,
        group_from-total p no_buckets ready (λ key. refl),
      ),
    )
