-- ===== src/Engine/Fair/Rounds.antt =====
-- What the rounds take from the buckets, and when they end.
use lazybones.Prelude.{
  ℕ, zero, suc, ◌+◌, ◌≤◌, ◌<◌, ◌≡◌, refl, ◌∙◌, ap, Bool, String, Option, none, some, List, [], ◌∷◌,
  ◌++◌, Map, arith, if◌then◌else◌, length, get_elem?, All, sym, ◌-◌,
}
use lazybones.Store.Task.Model.{Task}
use lazybones.Engine.Fair.{Buckets, bucket_of, push_some, round, after_round, rounds}

-- How many tasks of a list pass a test.
unfoldable pub count : (Task → Bool) → List Task → ℕ
count p [] = 0
count p (t ∷ ts) = (if p t then 1 else 0) + count p ts

pub count-append :
    (p : Task → Bool) (ts us : List Task) → count p (ts ++ us) ≡ count p ts + count p us
unfolding count
count-append p [] us = omega arith
count-append p (t ∷ ts) us = omega (arith, count-append p ts us)

-- The tasks of a list that pass, from an index on.
unfoldable pub count_from : (Task → Bool) → ℕ → List Task → ℕ
unfolding count
count_from p idx [] = 0
count_from p zero ts = count p ts
count_from p (suc idx) (t ∷ ts) = count_from p idx ts

abbrev pub count_some : (Task → Bool) → Option Task → ℕ
count_some p none = 0
count_some p (some t) = if p t then 1 else 0

pub count_from-zero : (p : Task → Bool) (ts : List Task) → count_from p 0 ts ≡ count p ts
unfolding count_from count
count_from-zero p [] = refl
count_from-zero p (t ∷ ts) = refl

count_from-suc :
    (p : Task → Bool) (idx : ℕ) (ts : List Task)
    → count_from p idx ts ≡ count_some p (get_elem? ts idx) + count_from p (suc idx) ts
unfolding count_from count
count_from-suc p idx [] = refl
count_from-suc p zero (t ∷ ts) = ground (arith, count_from-zero p ts)
count_from-suc p (suc idx) (t ∷ ts) = count_from-suc p idx ts

-- The tasks of all buckets that pass, from an index on.
unfoldable pub total_from : (Task → Bool) → Map (List Task) → List String → ℕ → ℕ
total_from p m [] idx = 0
total_from p m (key ∷ order) idx = count_from p idx (bucket_of m key) + total_from p m order idx

count-push_some :
    (p : Task → Bool) (o : Option Task) (ts : List Task)
    → count p (push_some o ts) ≡ count_some p o + count p ts
unfolding count
count-push_some p none ts = omega arith
count-push_some p (some t) ts = omega arith

round-count :
    (p : Task → Bool) (m : Map (List Task)) (order : List String) (idx : ℕ)
    → total_from p m order idx ≡ count p (round m order idx) + total_from p m order (suc idx)
unfolding total_from round count
round-count p m [] idx = omega arith
round-count p m (key ∷ order) idx = omega (
  arith,
  round-count p m order idx,
  count_from-suc p idx (bucket_of m key),
  count-push_some p (get_elem? (bucket_of m key) idx) (round m order idx),
)

get_elem?-none-count_from :
    (p : Task → Bool) (ts : List Task) (idx : ℕ) → get_elem? ts idx ≡ none → count_from p idx ts ≡ 0
unfolding count_from count
get_elem?-none-count_from p [] idx h = refl
get_elem?-none-count_from p (t ∷ ts) zero h = absurd (cc)
get_elem?-none-count_from p (t ∷ ts) (suc idx) h = get_elem?-none-count_from p ts idx h

push_some-empty : (o : Option Task) (ts : List Task) → push_some o ts ≡ [] → (o ≡ none) × (ts ≡ [])
push_some-empty none ts h = (refl, h)
push_some-empty (some t) ts h = absurd (cc)

-- An empty round has nothing left of any bucket.
round-empty :
    (p : Task → Bool) (m : Map (List Task)) (order : List String) (idx : ℕ)
    → round m order idx ≡ []
    → total_from p m order idx ≡ 0
unfolding total_from round
round-empty p m [] idx h = refl
round-empty p m (key ∷ order) idx h =
    let (gone, rest) = push_some-empty (get_elem? (bucket_of m key) idx) (round m order idx) h in
    omega (
      arith,
      get_elem?-none-count_from p (bucket_of m key) idx gone,
      round-empty p m order idx rest,
    )

pub some_injective : {A : Type 0} {a b : A} → ◌≡◌ {A = Option A} (some a) (some b) → a ≡ b
some_injective h = cc

after_round-count :
    (p : Task → Bool) (b : Buckets) (idx : ℕ) (row : List Task) (later : Option (List Task))
    (out : List Task)
    → row ≡ round b.buckets b.order idx
    → ((rest : List Task)
        → later ≡ some rest
        → count p rest ≡ total_from p b.buckets b.order (suc idx))
    → after_round row later ≡ some out
    → count p out ≡ total_from p b.buckets b.order idx
unfolding count
after_round-count p b idx [] later out r k h =
    ap (count p) (sym (some_injective h)) ∙ sym (round-empty p b.buckets b.order idx (sym r))
after_round-count p b idx (t ∷ ts) none out r k h = absurd (cc)
after_round-count p b idx (t ∷ ts) (some rest) out r k h =
    ap (count p) (sym (some_injective h))
    ∙ (count-append p (t ∷ ts) rest
        ∙ omega (arith, k rest refl, round-count p b.buckets b.order idx, ap (count p) r))

-- The rounds take each task of the buckets once.
pub rounds-count :
    (p : Task → Bool) (fuel : ℕ) (b : Buckets) (idx : ℕ) (out : List Task)
    → rounds fuel b idx ≡ some out
    → count p out ≡ total_from p b.buckets b.order idx
unfolding rounds
rounds-count p zero b idx out h = absurd (cc)
rounds-count p (suc fuel) b idx out h =
    after_round-count p b idx (round b.buckets b.order idx) (rounds fuel b (suc idx)) out refl
      (λ rest e. rounds-count p fuel b (suc idx) rest e) h

-- Each bucket has at most so many tasks.
abbrev pub Short : Map (List Task) → List String → ℕ → Type 0
Short m order n = All (λ key. length (bucket_of m key) ≤ n) order

get_elem?-beyond :
    {A : Type 0} (xs : List A) (n idx : ℕ) → length xs ≤ n → n ≤ idx → get_elem? xs idx ≡ none
get_elem?-beyond [] n idx h k = refl
get_elem?-beyond (x ∷ xs) n zero h k = absurd (omega arith)
get_elem?-beyond (x ∷ xs) n (suc idx) h k =
    get_elem?-beyond xs (n - 1) idx (omega arith) (omega arith)

round-beyond :
    (m : Map (List Task)) (order : List String) (n idx : ℕ)
    → Short m order n
    → n ≤ idx
    → round m order idx ≡ []
unfolding round
round-beyond m [] n idx h k = refl
round-beyond m (key ∷ order) n idx h k =
    rw (get_elem?-beyond (bucket_of m key) n idx h.0 k, round-beyond m order n idx h.1 k)

after_round-some :
    (row : List Task) (later : Option (List Task)) (rest : List Task)
    → later ≡ some rest
    → (out : List Task) × (after_round row later ≡ some out)
after_round-some [] later rest h = ([], refl)
after_round-some (t ∷ ts) later rest h = ((t ∷ ts) ++ rest, rw h)

-- With more fuel than the rest of the longest bucket the rounds end.
pub rounds-some :
    (b : Buckets) (n fuel idx : ℕ)
    → Short b.buckets b.order n
    → n < fuel + idx
    → 1 ≤ fuel
    → (out : List Task) × (rounds fuel b idx ≡ some out)
unfolding rounds
rounds-some b n zero idx h k l = absurd (omega arith)
rounds-some b n (suc zero) idx h k l =
    ([], rw (round-beyond b.buckets b.order n idx h (omega arith)))
rounds-some b n (suc (suc fuel)) idx h k l =
    let (rest, e) = rounds-some b n (suc fuel) (suc idx) h (omega arith) (omega arith) in
    after_round-some (round b.buckets b.order idx) (rounds (suc fuel) b (suc idx)) rest e
