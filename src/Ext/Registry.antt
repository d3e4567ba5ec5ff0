-- ===== src/Ext/Registry.antt =====
-- crates/lazybones-ext/src/registry.rs: the installed extensions, indexed by exported interface. The
-- digest of the bytes is an argument, as the readers of the manifest are.
pub mod SameSet
pub mod Checks
pub mod Index
pub mod Dispatch
use lazybones.Prelude.{
  ℕ, ◌≡◌, refl, Bool, true, false, not, ◌&&◌, ◌||◌, String, Option, none, some, List, [], ◌∷◌, ◌++◌,
  map, Outcome, ok, err, if◌then◌else◌, is_some, is_none, unwrap_or, Map, empty_map, insert, remove,
  contains, keep, all, ◌==◌, map_err, ◌>>=◌, ◌>>◌,
}
use Prim.Native.String.{compare}
use text.Mathlib.Text.{is_le}
use lazybones.Ext.Capability
use lazybones.Ext.Capability.{Capability, GrantError, validate_grant, is_always_granted, has_cap}
use lazybones.Ext.Manifest
use lazybones.Ext.Manifest.{
  Manifest, ManifestError, Readers, from_component, requested_caps, parse_caps, is_empty,
}

pub record RecordClaims : Type 0 where
  pub name : String
  pub version : String
  pub wit_world : String
  pub requested_caps : List String

pub data ExtensionSource : Type 0 where
  upload : ExtensionSource
  url registry : String → ExtensionSource

pub record InstallRequest : Type 0 where
  pub id : String
  pub component : List ℕ
  pub granted_caps : List String
  pub source : ExtensionSource
  pub expected_sha256 : Option String
  pub enabled : Bool
  pub created_at : String
  pub claims : Option RecordClaims

pub record ExtensionRecord : Type 0 where
  pub id : String
  pub manifest : Manifest
  pub granted_caps : List Capability
  pub wasm_sha256 : String
  pub source : ExtensionSource
  pub enabled : Bool
  pub created_at : String

pub record Registry : Type 0 where
  pub by_id : Map ExtensionRecord
  -- exported interface name → the ids of the extensions that export it
  pub by_export : Map (List String)

unfoldable pub new : Registry
new = record { by_id = empty_map; by_export = empty_map }

-- What the embedded manifest and the record say differently; the message of the error lists them.
pub data Conflict : Type 0 where
  of_name of_version of_wit_world : (embedded record_ : String) → Conflict
  of_requested_caps : (embedded record_ : List String) → Conflict

pub data RegistryError : Type 0 where
  bad_manifest : ManifestError → RegistryError
  sha256_mismatch : (claimed actual : String) → RegistryError
  re_review_required : (conflicts : List Conflict) → RegistryError
  bad_grant : GrantError → RegistryError
  already_registered : String → RegistryError

-- `sort_unstable` and `dedup`: the sort of a total order has one result.
abbrev text_le : String → String → Bool
text_le a b = is_le (compare a b)

abbrev pub insert_text : String → List String → List String
insert_text x [] = x ∷ []
insert_text x (y ∷ ys) = let rest = insert_text x ys in if text_le x y then x ∷ y ∷ ys else y ∷ rest

abbrev pub sort : List String → List String
sort [] = []
sort (x ∷ xs) = insert_text x (sort xs)

abbrev pub dedup_from : String → List String → List String
dedup_from x [] = []
dedup_from x (y ∷ ys) = let rest = dedup_from y ys in if x == y then rest else y ∷ rest

abbrev pub dedup : List String → List String
dedup [] = []
dedup (x ∷ xs) = x ∷ dedup_from x xs

abbrev pub texts_eq : List String → List String → Bool
texts_eq [] [] = true
texts_eq (x ∷ xs) (y ∷ ys) = x == y && texts_eq xs ys
texts_eq _ _ = false

unfoldable pub same_set : List String → List String → Bool
same_set a b = texts_eq (dedup (sort a)) (dedup (sort b))

abbrev pub conflict : Bool → Conflict → List Conflict
conflict same found = if same then [] else found ∷ []

-- What the embedded manifest and the record say differently, in the order of the checks.
unfoldable pub conflicts : Manifest → RecordClaims → List Conflict
unfolding same_set
conflicts m r =
    conflict (m.name == r.name) (of_name m.name r.name)
    ++ (conflict (m.version == r.version) (of_version m.version r.version)
        ++ (conflict (m.wit_world == r.wit_world) (of_wit_world m.wit_world r.wit_world)
            ++ conflict (same_set m.capabilities r.requested_caps)
                (of_requested_caps m.capabilities r.requested_caps)))

unfoldable pub reconcile : Manifest → RecordClaims → Outcome RegistryError (Unit {0})
unfolding conflicts
reconcile m r =
    let found = conflicts m r in if is_empty found then ok tt else err (re_review_required found)

abbrev pub entries : Map (List String) → String → List String
entries index e = unwrap_or (index e) []

-- The loops that index and unindex an id under its exports.
unfoldable pub index_under : List String → String → Map (List String) → Map (List String)
index_under [] id index = index
index_under (e ∷ es) id index = index_under es id (insert e (entries index e ++ (id ∷ [])) index)

abbrev pub unindex_one : String → String → Map (List String) → Map (List String)
unindex_one e id index = elim (index e) [
  | none ↦ index
  | some ids ↦
      let kept = keep (λ other. not (other == id)) ids in
      if is_empty kept then remove e index else insert e kept index
]

unfoldable pub unindex_under : List String → String → Map (List String) → Map (List String)
unindex_under [] id index = index
unindex_under (e ∷ es) id index = unindex_under es id (unindex_one e id index)

abbrev pub exports : ExtensionRecord → List String
exports r = r.manifest.extension_points

unfoldable pub has_capability : ExtensionRecord → Capability → Bool
unfolding is_always_granted
has_capability r cap = is_always_granted cap || has_cap r.granted_caps cap

unfoldable pub check_sha256 : Option String → String → Outcome RegistryError (Unit {0})
check_sha256 none actual = ok tt
check_sha256 (some claimed) actual =
    if claimed == actual then ok tt else err (sha256_mismatch claimed actual)

unfoldable pub reconcile_with : Manifest → Option RecordClaims → Outcome RegistryError (Unit {0})
unfolding reconcile
reconcile_with m none = ok tt
reconcile_with m (some r) = reconcile m r

-- The checks of an install, with the record that they make.
unfoldable pub checked_record :
    Readers
    → (sha256_hex : List ℕ → String) → InstallRequest
    → Outcome RegistryError ExtensionRecord
checked_record readers sha256_hex req = do
  manifest ← map_err bad_manifest (from_component readers req.component)
  let actual = sha256_hex req.component
  check_sha256 req.expected_sha256 actual
  reconcile_with manifest req.claims
  requested ← map_err bad_manifest (requested_caps manifest)
  granted ← map_err bad_manifest (parse_caps req.granted_caps)
  map_err bad_grant (validate_grant requested granted)
  ok (record {
    id = req.id;
    manifest = manifest;
    granted_caps = granted;
    wasm_sha256 = actual;
    source = req.source;
    enabled = req.enabled;
    created_at = req.created_at;
  })

-- The record stands under its id, and its id under each of its exports.
unfoldable pub add : ExtensionRecord → Registry → Registry
unfolding index_under
add r g = record {
  by_id = insert r.id r g.by_id;
  by_export = index_under (exports r) r.id g.by_export;
}

unfoldable pub install :
    Readers
    → (sha256_hex : List ℕ → String) → Registry
    → InstallRequest
    → Outcome RegistryError Registry
install readers sha256_hex g req =
    if is_some (g.by_id req.id)
    then err (already_registered req.id)
    else checked_record readers sha256_hex req >>= λ r. ok (add r g)

unfoldable pub get : Registry → String → Option ExtensionRecord
get g id = g.by_id id

abbrev pub enabled_of : Option ExtensionRecord → List ExtensionRecord → List ExtensionRecord
enabled_of none rest = rest
enabled_of (some r) rest = if r.enabled then r ∷ rest else rest

-- The enabled records of a list of ids, in its order.
unfoldable pub enabled_among : Map ExtensionRecord → List String → List ExtensionRecord
enabled_among by_id [] = []
enabled_among by_id (id ∷ ids) = enabled_of (by_id id) (enabled_among by_id ids)

unfoldable pub find_by_export : Registry → String → List ExtensionRecord
unfolding enabled_among
find_by_export g interface = enabled_among g.by_id (entries g.by_export interface)

unfoldable pub set_enabled : Registry → String → Bool → Bool × Registry
set_enabled g id enabled = elim (g.by_id id) [
  | some r ↦ (true, record g { by_id = insert id (record r { enabled = enabled }) g.by_id })
  | none ↦ (false, g)
]

unfoldable pub set_grants : Registry → String → List Capability → Bool × Registry
set_grants g id granted = elim (g.by_id id) [
  | some r ↦ (true, record g { by_id = insert id (record r { granted_caps = granted }) g.by_id })
  | none ↦ (false, g)
]

unfoldable pub remove_extension : Registry → String → Option ExtensionRecord × Registry
unfolding unindex_under
remove_extension g id = elim (g.by_id id) [
  | none ↦ (none, g)
  | some r ↦ (
    some r,
    record { by_id = remove id g.by_id; by_export = unindex_under (exports r) id g.by_export },
  )
]
