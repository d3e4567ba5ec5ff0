-- ===== src/Engine/Fair/Places.antt =====
-- Positions in lists of tasks, and the slots of rounds.
use lazybones.Prelude.{
  ℕ, zero, suc, ◌+◌, ◌*◌, ◌<◌, ◌≡◌, refl, some, List, [], ◌∷◌, ◌++◌, arith, length, get_elem?,
  subst,
}
use lazybones.Store.Task.Model.{Task}

-- A task at a position of a list that is below a bound.
abbrev pub Before : List Task → ℕ → Task → Type 0
Before ts n t = (j : ℕ) × (j < n) × (get_elem? ts j ≡ some t)

-- The slots of the first so many rounds.
pub slots_suc : (d n : ℕ) → suc d * n ≡ n + d * n
slots_suc d n = omega arith

pub slots_one : (n : ℕ) → suc zero * n ≡ n
slots_one n = omega arith

pub zero_plus : (n : ℕ) → zero + n ≡ n
zero_plus n = omega arith

pub plus_zero : (n : ℕ) → n ≡ n + 0
plus_zero n = omega arith

pub shift_left : (d i : ℕ) → suc d + i ≡ d + suc i
shift_left d i = omega arith

-- A position of the second list, in the whole.
abbrev pub past : List Task → ℕ → ℕ
past [] j = j
past (x ∷ xs) j = suc (past xs j)

pub past-length : (xs : List Task) (j : ℕ) → past xs j ≡ length xs + j
past-length [] j = omega arith
past-length (x ∷ xs) j = omega (arith, past-length xs j)

pub get_elem?-past : (xs ys : List Task) (j : ℕ) → get_elem? (xs ++ ys) (past xs j) ≡ get_elem? ys j
get_elem?-past [] ys j = refl
get_elem?-past (x ∷ xs) ys j = get_elem?-past xs ys j

pub get_elem?-append_left :
    (xs ys : List Task) (j : ℕ) (t : Task)
    → get_elem? xs j ≡ some t
    → get_elem? (xs ++ ys) j ≡ some t
get_elem?-append_left [] ys j t h = absurd (cc)
get_elem?-append_left (x ∷ xs) ys zero t h = h
get_elem?-append_left (x ∷ xs) ys (suc j) t h = get_elem?-append_left xs ys j t h

pub shift : (d i : ℕ) → suc d + suc i ≡ suc (suc d + i)
shift d i = omega arith

-- An element further on means one here.
pub get_elem?-earlier :
    (xs : List Task) (i d : ℕ) (t : Task)
    → get_elem? xs (suc d + i) ≡ some t
    → (u : Task) × (get_elem? xs i ≡ some u)
get_elem?-earlier [] i d t h = absurd (cc)
get_elem?-earlier (x ∷ xs) zero d t h = (x, refl)
get_elem?-earlier (x ∷ xs) (suc i) d t h =
    get_elem?-earlier xs i d t (subst (λ k. get_elem? (x ∷ xs) k ≡ some t) (shift d i) h)
