-- ===== src/Ext/Manifest.antt =====
-- crates/lazybones-ext/src/manifest.rs: the manifest in a component's custom section. The reader of
-- WASM sections, the decoder of UTF-8 and the parser of TOML are packages: arguments of the definitions that call them.
use lazybones.Prelude.{
  ℕ, Bool, true, false, not, String, Option, none, some, List, [], ◌∷◌, Outcome, ok, err,
  if◌then◌else◌, is_blank, map_err, ◌>>=◌, ◌>>◌,
}
use Prim.Native.String.{◌++◌ as ◌<>◌}
use lazybones.Ext.Capability
use lazybones.Ext.Capability.{Capability, CapabilityError, is_available}

pub data ManifestError : Type 0 where
  missing scan parse_failed invalid : String → ManifestError
  capability : CapabilityError → ManifestError

abbrev pub manifest_section : String
manifest_section = "lazybones.ext.toml"

pub record FrontendManifest : Type 0 where
  pub entry : String
  pub exposed_module : String
  pub sdk_range : Option String
  pub slots : List String

pub record Manifest : Type 0 where
  pub name : String
  pub version : String
  pub wit_world : String
  pub extension_points : List String
  pub capabilities : List String
  pub frontend : Option FrontendManifest

-- Capabilities from their wire strings; the first unknown one is the error.
unfoldable pub parse_caps : List String → Outcome ManifestError (List Capability)
unfolding Capability.parse
parse_caps [] = ok []
parse_caps (s ∷ texts) = do
  c ← map_err capability (Capability.parse s)
  cs ← parse_caps texts
  ok (c ∷ cs)

unfoldable pub requested_caps : Manifest → Outcome ManifestError (List Capability)
unfolding parse_caps
requested_caps m = parse_caps m.capabilities

-- The loop over the requested capabilities.
unfoldable pub check_available : List Capability → Outcome ManifestError (Unit {0})
unfolding is_available Capability.as_str
check_available [] = ok tt
check_available (c ∷ cs) =
    let rest = check_available cs in
    if not (is_available c)
    then err (
        invalid
          ("capability `" <> Capability.as_str c <> "` is deferred and cannot be requested in v1"))
    else rest

abbrev pub is_empty {ℓ} : {A : Type ℓ} → List A → Bool
is_empty [] = true
is_empty (x ∷ xs) = false

unfoldable pub validate : Manifest → Outcome ManifestError (Unit {0})
unfolding requested_caps check_available
validate m =
    if is_blank m.name
    then err (invalid "name must not be empty")
    else if is_blank m.version
    then err (invalid "version must not be empty")
    else if is_blank m.wit_world
    then err (invalid "wit-world must not be empty")
    else if is_empty m.extension_points
    then err (invalid "manifest declares no extension-points")
    else requested_caps m >>= check_available

-- What the crate `wasmparser` gives of a component (its first custom section of the name), and the
-- decoder of UTF-8 and crate `toml` of the bytes of a manifest.
pub record Readers : Type 0 where
  pub extract : (component : List ℕ) → Outcome String (Option (List ℕ))
  pub from_utf8 : List ℕ → Outcome String String
  pub read_toml : String → Outcome String Manifest

unfoldable pub parse : Readers → (toml_str : String) → Outcome ManifestError Manifest
unfolding validate
parse readers toml_str = do m ← map_err parse_failed (readers.read_toml toml_str); validate m; ok m

abbrev pub ok_or : {E A : Type 0} → E → Option A → Outcome E A
ok_or e none = err e
ok_or e (some a) = ok a

unfoldable pub from_component : Readers → (component : List ℕ) → Outcome ManifestError Manifest
unfolding parse
from_component readers component = do
  section ← map_err scan (readers.extract component)
  raw ← ok_or (missing manifest_section) section
  text ← map_err parse_failed (readers.from_utf8 raw)
  parse readers text
