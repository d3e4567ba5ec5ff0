-- ===== src/Ext/Registry/Checks.antt =====
-- What an install has checked of the record that it makes.
use lazybones.Prelude.{
  ℕ, ◌≡◌, refl, String, List, ok, bind-Passes, map_err-eq-ok, ok_injective, subst, map_err, Option,
  none, some, contains, eq_iff, arith,
}
use lazybones.Ext.Capability.{Capability, validate_grant}
use lazybones.Ext.Manifest.{Manifest, Readers, from_component, requested_caps, parse_caps}
use lazybones.Ext.Registry.SameSet.{contains-same_set}
use lazybones.Ext.Registry.{
  ExtensionRecord, InstallRequest, RecordClaims, reconcile, conflicts, checked_record, check_sha256,
  reconcile_with, bad_manifest, bad_grant,
}

-- The digest is the one that was claimed, if one was.
abbrev Claims : (claimed : Option String) → (actual : String) → Type 0
Claims none actual = Unit
Claims (some claimed) actual = claimed ≡ actual

-- The record that was claimed, if one was, names what the manifest names, and the same capabilities.
abbrev Agrees : Manifest → Option RecordClaims → Type 0
Agrees m none = Unit
Agrees m (some r) =
    (m.name ≡ r.name)
    × (m.version ≡ r.version)
    × (m.wit_world ≡ r.wit_world)
    × ((cap : String) → contains m.capabilities cap ≡ contains r.requested_caps cap)

-- The record has the embedded manifest, the digest of the bytes and the granted capabilities.
pub record WasChecked (readers : Readers) (sha256_hex : List ℕ → String) (req : InstallRequest)
    (r : ExtensionRecord) : Type 0 where
  pub same_id : r.id ≡ req.id
  pub embedded : from_component readers req.component ≡ ok r.manifest
  pub digest : r.wasm_sha256 ≡ sha256_hex req.component
  pub digest_claimed : Claims req.expected_sha256 (sha256_hex req.component)
  pub reconciled : Agrees r.manifest req.claims
  pub requested : List Capability
  pub requested_read : requested_caps r.manifest ≡ ok requested
  pub granted_read : parse_caps req.granted_caps ≡ ok r.granted_caps
  pub granted : validate_grant requested r.granted_caps ≡ ok tt
  pub same_enabled : r.enabled ≡ req.enabled

claimed-Claims :
    (claimed : Option String) (actual : String)
    → check_sha256 claimed actual ≡ ok tt
    → Claims claimed actual
unfolding check_sha256
claimed-Claims none actual h = tt
claimed-Claims (some claimed) actual h = ground (arith, eq_iff claimed actual)

reconciled-Agrees :
    (m : Manifest) (claims : Option RecordClaims)
    → reconcile_with m claims ≡ ok tt
    → Agrees m claims
unfolding reconcile_with reconcile conflicts
reconciled-Agrees m none h = tt
reconciled-Agrees m (some r) h = (
  ground (arith, eq_iff m.name r.name),
  ground (arith, eq_iff m.version r.version),
  ground (arith, eq_iff m.wit_world r.wit_world),
  λ cap. contains-same_set m.capabilities r.requested_caps cap (ground arith),
)

pub checked_record-ok :
    (readers : Readers) (sha256_hex : List ℕ → String) (req : InstallRequest) (r : ExtensionRecord)
    → checked_record readers sha256_hex req ≡ ok r
    → WasChecked readers sha256_hex req r
unfolding checked_record
checked_record-ok readers sha256_hex req r h =
    let (m, hm, h1) =
      bind-Passes (map_err bad_manifest (from_component readers req.component)) _ h in
    let (u1, hs, h2) =
      bind-Passes (check_sha256 req.expected_sha256 (sha256_hex req.component)) _ h1 in
    let (u2, hr, h3) = bind-Passes (reconcile_with m req.claims) _ h2 in
    let (requested, hq, h4) = bind-Passes (map_err bad_manifest (requested_caps m)) _ h3 in
    let (caps, hg, h5) = bind-Passes (map_err bad_manifest (parse_caps req.granted_caps)) _ h4 in
    let (u3, hv, h6) = bind-Passes (map_err bad_grant (validate_grant requested caps)) _ h5 in
    let e = ok_injective h6 in
    subst (WasChecked readers sha256_hex req) e (record {
      same_id = refl;
      embedded = map_err-eq-ok bad_manifest _ hm;
      digest = refl;
      digest_claimed = claimed-Claims _ _ hs;
      reconciled = reconciled-Agrees m req.claims hr;
      requested = requested;
      requested_read = map_err-eq-ok bad_manifest _ hq;
      granted_read = map_err-eq-ok bad_manifest _ hg;
      granted = map_err-eq-ok bad_grant _ hv;
      same_enabled = refl;
    })
