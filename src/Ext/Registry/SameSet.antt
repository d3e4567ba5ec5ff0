-- ===== src/Ext/Registry/SameSet.antt =====
-- crates/lazybones-ext/src/registry.rs, same_set: lists that are the same once sorted and deduplicated
-- hold the same texts.
use lazybones.Prelude.{
  ◌≡◌, refl, sym, ◌∙◌, true, ◌||◌, String, List, [], ◌∷◌, contains, ◌==◌, eq_iff, arith,
}
use lazybones.Ext.Registry.{insert_text, sort, dedup_from, dedup, texts_eq, same_set}

contains-insert_text :
    (x : String) (ys : List String) (s : String)
    → contains (insert_text x ys) s ≡ (x == s || contains ys s)
contains-insert_text x [] s = refl
contains-insert_text x (y ∷ ys) s = ground (arith, contains-insert_text x ys s)

contains-sort : (xs : List String) (s : String) → contains (sort xs) s ≡ contains xs s
contains-sort [] s = refl
contains-sort (x ∷ xs) s = ground (arith, contains-insert_text x (sort xs) s, contains-sort xs s)

contains-dedup_from :
    (x : String) (ys : List String) (s : String)
    → (x == s || contains (dedup_from x ys) s) ≡ (x == s || contains ys s)
contains-dedup_from x [] s = refl
contains-dedup_from x (y ∷ ys) s = ground (arith, eq_iff x y, contains-dedup_from y ys s)

contains-dedup : (xs : List String) (s : String) → contains (dedup xs) s ≡ contains xs s
contains-dedup [] s = refl
contains-dedup (x ∷ xs) s = contains-dedup_from x xs s

contains-texts_eq :
    (xs ys : List String) (s : String) → texts_eq xs ys ≡ true → contains xs s ≡ contains ys s
contains-texts_eq [] [] s h = refl
contains-texts_eq (x ∷ xs) (y ∷ ys) s h = ground (arith, eq_iff x y, contains-texts_eq xs ys s)
contains-texts_eq [] (y ∷ ys) s h = ground arith
contains-texts_eq (x ∷ xs) [] s h = ground arith

pub contains-same_set :
    (xs ys : List String) (s : String) → same_set xs ys ≡ true → contains xs s ≡ contains ys s
unfolding same_set
contains-same_set xs ys s h =
    sym (contains-sort xs s)
    ∙ sym (contains-dedup (sort xs) s)
    ∙ contains-texts_eq (dedup (sort xs)) (dedup (sort ys)) s h
    ∙ contains-dedup (sort ys) s
    ∙ contains-sort ys s
