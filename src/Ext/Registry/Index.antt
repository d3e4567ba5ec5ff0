-- ===== src/Ext/Registry/Index.antt =====
-- The index of the registry agrees with its records, whatever is installed, removed or changed.
use lazybones.Prelude.{
  ℕ, ◌≡◌, refl, inl, inr, Bool, true, false, not, ◌&&◌, ◌||◌, String, Option, none, some, List, [],
  ◌∷◌, ◌++◌, ok, is_some, Map, insert, contains, keep, ◌==◌, eq_iff, arith, Bool-cases,
  Option-cases, bind-Passes, ok_injective, subst,
}
use lazybones.Ext.Capability.{Capability}
use lazybones.Ext.Manifest.{Readers, is_empty}
use lazybones.Ext.Registry.Checks.{checked_record-ok}
use lazybones.Ext.Registry.{
  ExtensionRecord, InstallRequest, Registry, new, exports, entries, index_under, unindex_one,
  unindex_under, add, install, checked_record, set_enabled, set_grants, remove_extension,
}

contains-append :
    (xs ys : List String) (s : String) → contains (xs ++ ys) s ≡ (contains xs s || contains ys s)
contains-append [] ys s = refl
contains-append (x ∷ xs) ys s = ground (arith, contains-append xs ys s)

contains-keep_other :
    (id j : String) (ids : List String)
    → contains (keep (λ other. not (other == id)) ids) j ≡ (contains ids j && not (j == id))
contains-keep_other id j [] = refl
contains-keep_other id j (x ∷ ids) =
    ground (arith, contains-keep_other id j ids, eq_iff x id, eq_iff x j, eq_iff j id)

contains-is_empty : (ids : List String) (j : String) → is_empty ids ≡ true → contains ids j ≡ false
contains-is_empty [] j h = refl
contains-is_empty (x ∷ ids) j h = absurd (cc)

index_under-contains :
    (es : List String) (id : String) (m : Map (List String)) (e j : String)
    → contains (entries (index_under es id m) e) j
      ≡ (contains (entries m e) j || (contains es e && id == j))
unfolding index_under
index_under-contains [] id m e j = ground arith
index_under-contains (e' ∷ es) id m e j = ground (
  arith,
  index_under-contains es id (insert e' (entries m e' ++ (id ∷ [])) m) e j,
  contains-append (entries m e') (id ∷ []) j,
  eq_iff e' e,
)

unindex_one-contains :
    (e' id : String) (m : Map (List String)) (e j : String)
    → contains (entries (unindex_one e' id m) e) j
      ≡ (contains (entries m e) j && not (e' == e && j == id))
unindex_one-contains e' id m e j = elim (Option-cases (m e')) [
  | inl absent ↦ ground (arith, eq_iff e' e)
  | inr (ids, held) ↦ ground (
    arith,
    eq_iff e' e,
    contains-keep_other id j ids,
    contains-is_empty (keep (λ other. not (other == id)) ids) j,
  )
]

unindex_under-contains :
    (es : List String) (id : String) (m : Map (List String)) (e j : String)
    → contains (entries (unindex_under es id m) e) j
      ≡ (contains (entries m e) j && not (contains es e && j == id))
unfolding unindex_under
unindex_under-contains [] id m e j = ground arith
unindex_under-contains (e' ∷ es) id m e j = ground (
  arith,
  unindex_under-contains es id (unindex_one e' id m) e j,
  unindex_one-contains e' id m e j,
)

-- Whether the record that may stand under an id exports an interface.
abbrev pub does_export : Option ExtensionRecord → String → Bool
does_export none e = false
does_export (some r) e = contains (exports r) e

-- An id is indexed under an interface exactly if it is installed and exports it.
abbrev pub IsIndexed : Registry → Type 0
IsIndexed g = (e id : String) → contains (entries g.by_export e) id ≡ does_export (g.by_id id) e

-- An empty registry is indexed.
pub new-IsIndexed : IsIndexed new
unfolding new
new-IsIndexed e id = refl

pub add-IsIndexed :
    (r : ExtensionRecord) (g : Registry)
    → is_some (g.by_id r.id) ≡ false
    → IsIndexed g
    → IsIndexed (add r g)
unfolding add
add-IsIndexed r g absent h e id = ground (
  arith,
  index_under-contains (exports r) r.id g.by_export e id,
  h e id,
  h e r.id,
  eq_iff r.id id,
)

remove_extension-IsIndexed :
    (g : Registry) (id : String) → IsIndexed g → IsIndexed (remove_extension g id).1
unfolding remove_extension
remove_extension-IsIndexed g id h e j = elim (Option-cases (g.by_id id)) [
  | inl absent ↦ ground (arith, h e j)
  | inr (r, held) ↦ ground (
    arith,
    unindex_under-contains (exports r) id g.by_export e j,
    h e j,
    h e id,
    eq_iff id j,
    eq_iff j id,
  )
]

set_enabled-IsIndexed :
    (g : Registry) (id : String) (b : Bool) → IsIndexed g → IsIndexed (set_enabled g id b).1
unfolding set_enabled
set_enabled-IsIndexed g id b h e j = elim (Option-cases (g.by_id id)) [
  | inl absent ↦ ground (arith, h e j)
  | inr (r, held) ↦ ground (arith, h e j, h e id, eq_iff id j)
]

set_grants-IsIndexed :
    (g : Registry) (id : String) (caps : List Capability)
    → IsIndexed g
    → IsIndexed (set_grants g id caps).1
unfolding set_grants
set_grants-IsIndexed g id caps h e j = elim (Option-cases (g.by_id id)) [
  | inl absent ↦ ground (arith, h e j)
  | inr (r, held) ↦ ground (arith, h e j, h e id, eq_iff id j)
]

-- A change of the registry by one of its operations.
pub data Change (g : Registry) : Registry → Type 0 where
  installs :
      (readers : Readers) (sha256_hex : List ℕ → String) (req : InstallRequest) {g' : Registry}
      → install readers sha256_hex g req ≡ ok g'
      → Change g g'
  removes : (id : String) → Change g (remove_extension g id).1
  enables : (id : String) (b : Bool) → Change g (set_enabled g id b).1
  grants : (id : String) (caps : List Capability) → Change g (set_grants g id caps).1

pub data Changes : Registry → Type 0 where
  empty : Changes new
  next : {g g' : Registry} → Changes g → Change g g' → Changes g'

install-IsIndexed :
    (readers : Readers) (sha256_hex : List ℕ → String) (g : Registry) (req : InstallRequest)
    (g' : Registry)
    → install readers sha256_hex g req ≡ ok g'
    → IsIndexed g
    → IsIndexed g'
unfolding install
install-IsIndexed readers sha256_hex g req g' i h = elim (Bool-cases (is_some (g.by_id req.id))) [
  | inl taken ↦ absurd (ground arith)
  | inr free ↦
      let (r, checked, added) =
        bind-Passes (checked_record readers sha256_hex req) (λ r. ok (add r g)) (rw free at i) in
      let same = (checked_record-ok readers sha256_hex req r checked).same_id in
      subst IsIndexed (ok_injective added) (add-IsIndexed r g (rw same free) h)
]

Change-IsIndexed : {g g' : Registry} → Change g g' → IsIndexed g → IsIndexed g'
Change-IsIndexed {g} (installs readers sha256_hex req {g' = g'} i) h =
    install-IsIndexed readers sha256_hex g req g' i h
Change-IsIndexed {g} (removes id) h = remove_extension-IsIndexed g id h
Change-IsIndexed {g} (enables id b) h = set_enabled-IsIndexed g id b h
Change-IsIndexed {g} (grants id caps) h = set_grants-IsIndexed g id caps h

-- After any installs, removals and changes of the flags and grants, an id is indexed under an
-- interface exactly if it is installed with a manifest that exports it.
pub Changes-IsIndexed : (g : Registry) → Changes g → IsIndexed g
Changes-IsIndexed g empty = new-IsIndexed
Changes-IsIndexed g (next c ch) = Change-IsIndexed ch (Changes-IsIndexed _ c)
