-- ===== src/Ext/Registry/Dispatch.antt =====
-- Which extensions the dispatch of an interface gets, and what an install lets into the registry.
use lazybones.Prelude.{
  ℕ, ◌≡◌, refl, ◌∙◌, ap, ◌⊎◌, inl, inr, Bool, true, false, ◌&&◌, String, Option, none, some, List,
  [], ◌∷◌, ok, is_some, contains, any, ◌==◌, eq_iff, arith, Bool-cases, Option-cases, text_eq_self,
  bind-Passes, ok_injective, subst, All,
}
use lazybones.Ext.Capability.{validate_grant_iff, IsGrantable}
use lazybones.Ext.Manifest.{Readers}
use lazybones.Ext.Registry.{
  ExtensionRecord, InstallRequest, Registry, new, entries, enabled_among, find_by_export, add,
  install, checked_record, set_enabled, set_grants, remove_extension,
}
use lazybones.Ext.Registry.Checks.{WasChecked, checked_record-ok}
use lazybones.Ext.Registry.Index.{
  does_export, Change, Changes, empty, next, installs, removes, enables, grants, Changes-IsIndexed,
}

-- A record stands under its own id.
abbrev pub is_own : Option ExtensionRecord → String → Bool
is_own none id = true
is_own (some r) id = r.id == id

abbrev pub HasOwnIds : Registry → Type 0
HasOwnIds g = (id : String) → is_own (g.by_id id) id ≡ true

add-HasOwnIds : (r : ExtensionRecord) (g : Registry) → HasOwnIds g → HasOwnIds (add r g)
unfolding add
add-HasOwnIds r g h id = ground (arith, h id, eq_iff r.id id)

Change-HasOwnIds : {g g' : Registry} → Change g g' → HasOwnIds g → HasOwnIds g'
unfolding install remove_extension set_enabled set_grants
Change-HasOwnIds {g} (installs readers sha256_hex req {g' = g'} i) h j =
    elim (Bool-cases (is_some (g.by_id req.id))) [
      | inl taken ↦ absurd (ground arith)
      | inr free ↦
          let (r, checked, added) =
            bind-Passes (checked_record readers sha256_hex req) (λ r. ok (add r g))
              (rw free at i) in
          subst (λ x. is_own (x.by_id j) j ≡ true) (ok_injective added) (add-HasOwnIds r g h j)
    ]
Change-HasOwnIds {g} (removes id) h j = elim (Option-cases (g.by_id id)) [
  | inl absent ↦ ground (arith, h j)
  | inr (r, held) ↦ ground (arith, h j, eq_iff id j)
]
Change-HasOwnIds {g} (enables id b) h j = elim (Option-cases (g.by_id id)) [
  | inl absent ↦ ground (arith, h j)
  | inr (r, held) ↦ ground (arith, h j, h id, eq_iff id j)
]
Change-HasOwnIds {g} (grants id caps) h j = elim (Option-cases (g.by_id id)) [
  | inl absent ↦ ground (arith, h j)
  | inr (r, held) ↦ ground (arith, h j, h id, eq_iff id j)
]

Changes-HasOwnIds : (g : Registry) → Changes g → HasOwnIds g
unfolding new
Changes-HasOwnIds g empty = λ id. refl
Changes-HasOwnIds g (next c ch) = Change-HasOwnIds ch (Changes-HasOwnIds _ c)

-- Whether the record that may stand under an id is enabled.
abbrev pub is_enabled : Option ExtensionRecord → Bool
is_enabled none = false
is_enabled (some r) = r.enabled

-- Whether a record of an id is among those of a dispatch.
abbrev pub dispatches : List ExtensionRecord → String → Bool
dispatches rs id = any (λ r. r.id == id) rs

dispatches-enabled_among :
    (g : Registry) (ids : List String) (id : String)
    → HasOwnIds g
    → dispatches (enabled_among g.by_id ids) id ≡ (contains ids id && is_enabled (g.by_id id))
unfolding enabled_among
dispatches-enabled_among g [] id h = refl
dispatches-enabled_among g (x ∷ ids) id h = elim (Option-cases (g.by_id x)) [
  | inl absent ↦ ground (arith, dispatches-enabled_among g ids id h, eq_iff x id)
  | inr (r, held) ↦
      ground (
        arith,
        dispatches-enabled_among g ids id h,
        h x,
        eq_iff x id,
        eq_iff r.id x,
        eq_iff r.id id,
      )
]

-- After any installs, removals and changes of the flags and grants, the dispatch of an interface
-- gets the record of an id exactly if the id is installed, enabled and exports the interface.
pub find_by_export-dispatches :
    (g : Registry) (interface id : String)
    → Changes g
    → dispatches (find_by_export g interface) id
      ≡ (does_export (g.by_id id) interface && is_enabled (g.by_id id))
unfolding find_by_export
find_by_export-dispatches g interface id c =
    dispatches-enabled_among g (entries g.by_export interface) id (Changes-HasOwnIds g c)
    ∙ ap (λ b. b && is_enabled (g.by_id id)) (Changes-IsIndexed g c interface id)

-- What an install that succeeded has put into the registry: under the id of the request, which was
-- free, a record that passed the checks, with no grant beyond what its manifest requested.
pub record Installed (readers : Readers) (sha256_hex : List ℕ → String) (g : Registry)
    (req : InstallRequest) (g' : Registry) : Type 0 where
  pub was_free : g.by_id req.id ≡ none
  pub made : ExtensionRecord
  pub held : g'.by_id req.id ≡ some made
  pub checked : WasChecked readers sha256_hex req made
  pub policy : All (IsGrantable checked.requested) made.granted_caps
  pub others : (id : String) → (req.id ≡ id) ⊎ (g'.by_id id ≡ g.by_id id)

added_Installed :
    (readers : Readers) (sha256_hex : List ℕ → String) (g : Registry) (req : InstallRequest)
    (r : ExtensionRecord)
    → g.by_id req.id ≡ none
    → WasChecked readers sha256_hex req r
    → Installed readers sha256_hex g req (add r g)
unfolding add
added_Installed readers sha256_hex g req r free w = record {
  was_free = free;
  made = r;
  held = ground (arith, w.same_id, text_eq_self req.id);
  checked = w;
  policy = (validate_grant_iff w.requested r.granted_caps).0 (w.granted);
  others = λ id. ground (arith, w.same_id, eq_iff req.id id);
}

-- An install that succeeds keeps every other record, and puts under its id, which was free, a
-- record with the manifest embedded in the bytes, their digest, which is the claimed one if one was
-- claimed, and grants that the policy allows. A claimed record has the name, the version and the world
-- of that manifest, and requests the same capabilities up to order and repetition.
pub install-Installed :
    (readers : Readers) (sha256_hex : List ℕ → String) (g : Registry) (req : InstallRequest)
    (g' : Registry)
    → install readers sha256_hex g req ≡ ok g'
    → Installed readers sha256_hex g req g'
unfolding install
install-Installed readers sha256_hex g req g' i = elim (Option-cases (g.by_id req.id)) [
  | inr (old, taken) ↦ absurd (ground arith)
  | inl free ↦
      let (r, checked, added) =
        bind-Passes (checked_record readers sha256_hex req) (λ r. ok (add r g)) (rw free at i) in
      subst (Installed readers sha256_hex g req) (ok_injective added) (
        added_Installed readers sha256_hex g req r free
          (checked_record-ok readers sha256_hex req r checked))
]
