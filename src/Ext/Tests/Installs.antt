-- ===== src/Ext/Tests/Installs.antt =====
-- Installs of two extensions.
use lazybones.Prelude.{
  ℕ, ◌≡◌, ◌&&◌, refl, true, false, String, none, some, List, [], ◌∷◌, ok, contains,
}
use lazybones.Ext.Capability
use lazybones.Ext.Capability.{Capability, validate_grant, is_available, is_always_granted}
use lazybones.Ext.Manifest.{Manifest, Readers, from_component}
use lazybones.Ext.Registry.{
  ExtensionRecord, upload, InstallRequest, Registry, new, install, set_enabled, entries,
  find_by_export, checked_record, check_sha256, reconcile_with, add,
}
use lazybones.Ext.Registry.Index.{
  Changes, empty, next, installs, enables, does_export, Changes-IsIndexed,
}
use lazybones.Ext.Registry.Dispatch.{
  dispatches, is_enabled, find_by_export-dispatches, Installed, install-Installed,
}

abbrev notes_manifest : Manifest
notes_manifest = record {
  name = "notes";
  version = "1.0.0";
  wit_world = "task-hook";
  extension_points = "on-done" ∷ [];
  capabilities = "store-read" ∷ [];
  frontend = none;
}

-- Readers that find the manifest of the notes in every component, and a digest by the length.
abbrev readers : Readers
readers = record {
  extract = λ bytes. ok (some bytes);
  from_utf8 = λ bytes. ok "notes";
  read_toml = λ text. ok notes_manifest;
}

abbrev digest : List ℕ → String
digest bytes = "d1"

abbrev request : InstallRequest
request = record {
  id = "x1";
  component = 0 ∷ 97 ∷ [];
  granted_caps = "log" ∷ "store-read" ∷ [];
  source = upload;
  expected_sha256 = some "d1";
  enabled = true;
  created_at = "2026-01-01T00:00:00Z";
  claims = none;
}

abbrev installed_record : ExtensionRecord
installed_record = record {
  id = "x1";
  manifest = notes_manifest;
  granted_caps = Capability.log ∷ Capability.store_read ∷ [];
  wasm_sha256 = "d1";
  source = upload;
  enabled = true;
  created_at = "2026-01-01T00:00:00Z";
}

request_installs : install readers digest new request ≡ ok (add installed_record new)
unfolding install checked_record new add from_component check_sha256 reconcile_with validate_grant
    Capability.cap_eq
request_installs = refl

install-Installed_example : Installed readers digest new request (add installed_record new)
install-Installed_example =
    install-Installed readers digest new request (add installed_record new) request_installs

abbrev disabled : Registry
disabled = (set_enabled (add installed_record new) "x1" false).1

disabled-Changes : Changes disabled
disabled-Changes =
    next (next empty (installs readers digest request request_installs)) (enables "x1" false)

Changes-IsIndexed_example :
    contains (entries disabled.by_export "on-done") "x1"
    ≡ does_export (disabled.by_id "x1") "on-done"
Changes-IsIndexed_example = Changes-IsIndexed disabled disabled-Changes "on-done" "x1"

find_by_export-dispatches_example :
    dispatches (find_by_export disabled "on-done") "x1"
    ≡ (does_export (disabled.by_id "x1") "on-done" && is_enabled (disabled.by_id "x1"))
find_by_export-dispatches_example =
    find_by_export-dispatches disabled "on-done" "x1" disabled-Changes
