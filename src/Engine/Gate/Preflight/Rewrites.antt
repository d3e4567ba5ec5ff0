-- ===== src/Engine/Gate/Preflight/Rewrites.antt =====
-- What the fitting of a gate makes of it, and what it reads.
use lazybones.Prelude.{
  ℕ, zero, suc, String, ◌≡◌, refl, ◌≢◌, ◌⊎◌, inl, inr, Bool, true, false, not, ◌||◌, Option, none,
  some, List, [], ◌∷◌, by_test, join_path, if◌then◌else◌, any,
}
use lazybones.Engine.Commands.{Command, Answer, read_to_string, read_dir, is_file, DirEntry}
use lazybones.Engine.Program.{Program, return, ◌>>=◌}
use lazybones.Engine.Program.Obeys.{Protocol, Obeys, bind-Obeys}
use lazybones.Engine.Program.Within.{Within, bind-Within, Within-Obeys, fold-Within}
use lazybones.Engine.Gate.Preflight.{
  Preflight, fits, fixed, unfixable, uses_cargo_workspace, is_cargo_workspace, visit, visit_all,
  collect_crates, member_crates, rewritten, fix, check, is_noise, crate_scan_depth,
}

-- A read of the file system.
abbrev pub IsRead : Command → Type 0
IsRead c = (path : String) × ((c ≡ read_to_string path) ⊎ (c ≡ read_dir path) ⊎ (c ≡ is_file path))

-- The commands are those of the gate, or those of the gate rewritten for some crates.
abbrev pub Fits : (gate commands : List String) → Type 0
Fits gate commands =
    (commands ≡ gate)
    ⊎ ((crates : List String) × (crates ≢ []) × (commands ≡ rewritten crates gate))

abbrev pub Fitted : (gate : List String) → Preflight → Type 0
Fitted gate fits = Unit
Fitted gate (fixed commands note) =
    (crates : List String) × (crates ≢ []) × (commands ≡ rewritten crates gate)
Fitted gate (unfixable reason) = Unit

abbrev Descends : ((dir rel : String) → List String → Program (List String)) → Type 0
Descends descend = (dir rel : String) (out : List String) → Within IsRead (descend dir rel out)

visit-Within :
    (descend : (dir rel : String) → List String → Program (List String))
    → Descends descend
    → (dir rel : String) (out : List String) (entry : DirEntry)
    → Within IsRead (visit descend dir rel out entry)
visit-Within descend h dir rel out entry =
    by_test (Within IsRead) (not entry.is_dir || is_noise entry.name) (λ _. tt)
      (λ _. (
        (join_path (join_path dir entry.name) "Cargo.toml", inr (inr refl)),
        λ has. by_test (Within IsRead) has (λ _. tt) (λ _. h _ _ out),
      ))

visit_all-Within :
    (descend : (dir rel : String) → List String → Program (List String))
    → Descends descend
    → (dir rel : String) (out : List String) (entries : Option (List DirEntry))
    → Within IsRead (visit_all descend dir rel out entries)
visit_all-Within descend h dir rel out none = tt
visit_all-Within descend h dir rel out (some entries) =
    fold-Within IsRead (visit descend dir rel) entries out
      (λ o e. visit-Within descend h dir rel o e)

collect-Within : (levels : ℕ) → Descends (collect_crates levels)
unfolding collect_crates
collect-Within zero dir rel out = tt
collect-Within (suc levels) dir rel out = (
  (dir, inr (inl refl)),
  λ entries. visit_all-Within (collect_crates levels) (collect-Within levels) dir rel out entries,
)

member_crates-Within : (repo : String) → Within IsRead (member_crates repo)
unfolding member_crates
member_crates-Within repo =
    bind-Within IsRead (collect_crates crate_scan_depth repo "" []) _
      (collect-Within crate_scan_depth repo "" []) (λ found. tt)

is_cargo_workspace-Within : (repo : String) → Within IsRead (is_cargo_workspace repo)
unfolding is_cargo_workspace
is_cargo_workspace-Within repo = ((join_path repo "Cargo.toml", inl refl), λ text. tt)

fix-Fitted : (repo : String) (gate crates : List String) → Fitted gate (fix repo gate crates)
unfolding fix
fix-Fitted repo gate [] = tt
fix-Fitted repo gate (krate ∷ crates) = (krate ∷ crates, (λ e. absurd (cc)), refl)

-- Under a protocol that the reads of the file system leave as it is.
module _ (p : Protocol) (s : p.State)
    (reads : (t : p.State) (c : Command)
      → t ≡ s
      → IsRead c
      → p.Allows t c × ((x : Answer c) → p.after t c x ≡ s)) where
  abbrev pub AsIs : {A : Type 0} → (A → Type 0) → A → p.State → Type 0
  AsIs Q a t = (t ≡ s) × Q a

  fixed-Obeys :
      (repo : String) (gate : List String) (t : p.State)
      → t ≡ s
      → Obeys p
          (member_crates repo >>= λ crates. return (fix repo gate crates))
          t
          (AsIs (Fitted gate))
  fixed-Obeys repo gate t e =
      bind-Obeys p (member_crates repo) _ t (λ _ t'. t' ≡ s) (AsIs (Fitted gate))
        (Within-Obeys IsRead p (λ t'. t' ≡ s) reads (member_crates repo) t e
          (member_crates-Within repo))
        (λ crates t' e'. (e', fix-Fitted repo gate crates))

  checked-Obeys :
      (repo : String) (gate : List String) (workspace : Bool) (t : p.State)
      → t ≡ s
      → Obeys p
          (if workspace
            then return fits
            else member_crates repo >>= λ crates. return (fix repo gate crates))
          t
          (AsIs (Fitted gate))
  checked-Obeys repo gate true t e = (e, tt)
  checked-Obeys repo gate false t e = fixed-Obeys repo gate t e

  pub check-Obeys :
      (repo : String) (gate : List String) → Obeys p (check repo gate) s (AsIs (Fitted gate))
  unfolding check
  check-Obeys repo gate =
      by_test (λ m. Obeys p m s (AsIs (Fitted gate))) (not (any uses_cargo_workspace gate))
        (λ _. (refl, tt))
        (λ _.
          bind-Obeys p (is_cargo_workspace repo) _ s (λ _ t. t ≡ s) (AsIs (Fitted gate))
            (Within-Obeys IsRead p (λ t. t ≡ s) reads (is_cargo_workspace repo) s refl
              (is_cargo_workspace-Within repo))
            (checked-Obeys repo gate))
