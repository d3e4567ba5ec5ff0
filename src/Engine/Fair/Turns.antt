-- ===== src/Engine/Fair/Turns.antt =====
-- No run starves another: how early a task stands in the fair order.
use lazybones.Prelude.{
  append_assoc, append-empty, if◌then◌else◌, ℕ, zero, suc, ◌+◌, ◌*◌, ◌≤◌, ◌≡◌, refl, ◌∙◌, ap, sym,
  true, String, Option, none, some, List, [], ◌∷◌, ◌++◌, Map, arith, is_some, length, get_elem?,
  keep, ◌==◌, eq_iff, unwrap_or, contains, Bool-cases, inl, inr, subst, ◌||◌,
}
use lazybones.Store.Task.Model.{Task}
use lazybones.Engine.Fair.Rounds.{some_injective}
use lazybones.Engine.Fair.Places.{
  Before, slots_suc, slots_one, zero_plus, plus_zero, shift_left, past, past-length, get_elem?-past,
  get_elem?-append_left, get_elem?-earlier,
}
use lazybones.Engine.Fair.{
  Buckets, no_buckets, run_key, bucket_of, push_task, group_from, round, push_some, after_round,
  rounds, fair_order,
}

-- The tasks of a run, in their order.
abbrev pub of_run : String → List Task → List Task
of_run key ready = keep (λ t. run_key t == key) ready

push_task-bucket :
    (b : Buckets) (t : Task) (key : String)
    → bucket_of (push_task b t).buckets key ≡ bucket_of b.buckets key ++ of_run key (t ∷ [])
unfolding push_task
push_task-bucket b t key =
    ground (arith, eq_iff (run_key t) key, append-empty (bucket_of b.buckets key))

of_run-cons :
    (key : String) (t : Task) (ts : List Task)
    → of_run key (t ∷ ts) ≡ of_run key (t ∷ []) ++ of_run key ts
of_run-cons key t ts = ground arith

group_from-bucket :
    (b : Buckets) (ready : List Task) (key : String)
    → bucket_of (group_from b ready).buckets key ≡ bucket_of b.buckets key ++ of_run key ready
unfolding group_from
group_from-bucket b [] key = sym (append-empty (bucket_of b.buckets key))
group_from-bucket b (t ∷ ready) key =
    group_from-bucket (push_task b t) ready key
    ∙ (ap (λ l. l ++ of_run key ready) (push_task-bucket b t key)
        ∙ (append_assoc (bucket_of b.buckets key) (of_run key (t ∷ [])) (of_run key ready)
            ∙ ap (λ l. bucket_of b.buckets key ++ l) (sym (of_run-cons key t ready))))

push_some-le : (o : Option Task) (ts : List Task) → length (push_some o ts) ≤ suc (length ts)
push_some-le none ts = omega arith
push_some-le (some t) ts = omega arith

round-length_le :
    (m : Map (List Task)) (order : List String) (idx : ℕ)
    → length (round m order idx) ≤ length order
unfolding round
round-length_le m [] idx = omega arith
round-length_le m (key ∷ order) idx = omega (
  arith,
  round-length_le m order idx,
  push_some-le (get_elem? (bucket_of m key) idx) (round m order idx),
)

Before-push_some :
    (o : Option Task) (ts : List Task) (n : ℕ) (t : Task)
    → Before ts n t
    → Before (push_some o ts) (suc n) t
Before-push_some none ts n t (j, lt, e) = (j, omega arith, e)
Before-push_some (some u) ts n t (j, lt, e) = (suc j, omega arith, e)

round-Before :
    (m : Map (List Task)) (order : List String) (idx : ℕ) (key : String) (t : Task)
    → contains order key ≡ true
    → get_elem? (bucket_of m key) idx ≡ some t
    → Before (round m order idx) (length order) t
unfolding round
round-Before m [] idx key t h e = absurd (cc)
round-Before m (k ∷ order) idx key t h e = elim (Bool-cases (k == key)) [
  | inl same ↦ (0, omega arith, ground (arith, eq_iff k key))
  | inr other ↦
      Before-push_some (get_elem? (bucket_of m k) idx) (round m order idx) (length order) t
        (round-Before m order idx key t (ground arith) e)
]

after_round-Before :
    (row : List Task) (later : Option (List Task)) (out : List Task) (n : ℕ) (t : Task)
    → after_round row later ≡ some out
    → Before row n t
    → Before out n t
after_round-Before [] later out n t h (j, lt, e) = absurd (cc)
after_round-Before (u ∷ row) none out n t h b = absurd (cc)
after_round-Before (u ∷ row) (some rest) out n t h (j, lt, e) = (
  j,
  lt,
  subst (λ o. get_elem? o j ≡ some t) (some_injective h)
      (get_elem?-append_left (u ∷ row) rest j t e),
)

after_round-later :
    (row : List Task) (later : Option (List Task)) (out : List Task) (m n : ℕ) (t u : Task)
    → after_round row later ≡ some out
    → length row ≤ m
    → Before row m u
    → ((rest : List Task) → later ≡ some rest → Before rest n t)
    → Before out (m + n) t
after_round-later [] later out m n t u h le (j, lt, e) k = absurd (cc)
after_round-later (v ∷ row) none out m n t u h le b k = absurd (cc)
after_round-later (v ∷ row) (some rest) out m n t u h le b k =
    let (j, lt, e) = k rest refl in
    (
      past (v ∷ row) j,
      omega (arith, past-length (v ∷ row) j),
      subst (λ o. get_elem? o (past (v ∷ row) j) ≡ some t) (some_injective h)
          (get_elem?-past (v ∷ row) rest j ∙ e),
    )

rounds-Before :
    (fuel : ℕ) (b : Buckets) (idx d : ℕ) (out : List Task) (key : String) (t : Task)
    → rounds fuel b idx ≡ some out
    → contains b.order key ≡ true
    → get_elem? (bucket_of b.buckets key) (d + idx) ≡ some t
    → Before out (suc d * length b.order) t
unfolding rounds
rounds-Before zero b idx d out key t h c e = absurd (cc)
rounds-Before (suc fuel) b idx zero out key t h c e =
    subst (λ n. Before out n t) (sym (slots_one (length b.order)))
      (after_round-Before (round b.buckets b.order idx) (rounds fuel b (suc idx)) out
        (length b.order) t h
        (round-Before b.buckets b.order idx key t c
          (subst (λ k. get_elem? (bucket_of b.buckets key) k ≡ some t) (zero_plus idx) e)))
rounds-Before (suc fuel) b idx (suc d) out key t h c e =
    let (u, here) = get_elem?-earlier (bucket_of b.buckets key) idx d t e in
    subst (λ n. Before out n t) (sym (slots_suc (suc d) (length b.order)))
      (after_round-later (round b.buckets b.order idx) (rounds fuel b (suc idx)) out
        (length b.order) (suc d * length b.order) t u h (round-length_le b.buckets b.order idx)
        (round-Before b.buckets b.order idx key u c here)
        (λ rest r.
          rounds-Before fuel b (suc idx) d rest key t r c
            (subst (λ k. get_elem? (bucket_of b.buckets key) k ≡ some t) (shift_left d idx) e)))

-- The order has the keys of the buckets.
abbrev pub HasKeys : Buckets → Type 0
HasKeys b = (key : String) → contains b.order key ≡ is_some (b.buckets key)

contains-snoc :
    (order : List String) (k key : String)
    → contains (order ++ k ∷ []) key ≡ (contains order key || k == key)
contains-snoc [] k key = ground arith
contains-snoc (x ∷ order) k key = ground (arith, contains-snoc order k key)

push_task-HasKeys : (b : Buckets) (t : Task) → HasKeys b → HasKeys (push_task b t)
unfolding push_task
push_task-HasKeys b t h key =
    ground
      (arith, h key, h (run_key t), contains-snoc b.order (run_key t) key, eq_iff (run_key t) key)

group_from-HasKeys : (b : Buckets) (ready : List Task) → HasKeys b → HasKeys (group_from b ready)
unfolding group_from
group_from-HasKeys b [] h = h
group_from-HasKeys b (t ∷ ready) h =
    group_from-HasKeys (push_task b t) ready (push_task-HasKeys b t h)

bucket_of-some :
    (o : Option (List Task)) (i : ℕ) (t : Task)
    → get_elem? (unwrap_or o []) i ≡ some t
    → is_some o ≡ true
bucket_of-some none i t h = absurd (cc)
bucket_of-some (some ts) i t h = refl

-- The runs of a list of tasks that are not among those seen, each one once, after those seen.
unfoldable pub runs_after : List String → List Task → List String
runs_after seen [] = seen
runs_after seen (t ∷ ts) =
    runs_after (if contains seen (run_key t) then seen else seen ++ run_key t ∷ []) ts

abbrev pub runs_of : List Task → List String
runs_of ready = runs_after [] ready

order-runs_after :
    (b : Buckets) (ready : List Task)
    → HasKeys b
    → (group_from b ready).order ≡ runs_after b.order ready
unfolding group_from runs_after push_task
order-runs_after b [] h = refl
order-runs_after b (t ∷ ready) h =
    order-runs_after (push_task b t) ready (push_task-HasKeys b t h)
    ∙ ap (λ c. runs_after (if c then b.order else b.order ++ run_key t ∷ []) ready)
        (sym (h (run_key t)))

-- The task that is number `i` of its run, from 0, among the ready tasks, stands among the first
-- (i + 1) * n of the fair order, for n runs with a ready task: no run starves another.
pub fair_order-Before :
    (ready out : List Task) (key : String) (i : ℕ) (t : Task)
    → fair_order ready ≡ some out
    → get_elem? (of_run key ready) i ≡ some t
    → Before out (suc i * length (runs_of ready)) t
unfolding fair_order
fair_order-Before ready out key i t h e =
    let b = group_from no_buckets ready in
    let held =
      subst (λ l. get_elem? l i ≡ some t) (sym (group_from-bucket no_buckets ready key)) e in
    subst (λ o. Before out (suc i * length o) t) (order-runs_after no_buckets ready (λ k. refl))
      (rounds-Before (suc (length ready)) b 0 i out key t h
        (group_from-HasKeys no_buckets ready (λ k. refl) key
          ∙ bucket_of-some (b.buckets key) i t held)
        (subst (λ k. get_elem? (bucket_of b.buckets key) k ≡ some t) (plus_zero i) held))
