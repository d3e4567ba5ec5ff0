-- ===== src/Engine/Gate/Preflight.antt =====
-- crates/lazybones-engine/src/scheduler/gate_preflight.rs: a gate for a workspace of Cargo, fitted to
-- a repository that is none.
pub mod Rewrites
use Prim.Native.Char.{code}
use Prim.Native.String.{◌++◌ as ◌<>◌}
use lazybones.Prelude.{
  ℕ, zero, suc, String, Bool, true, false, not, ◌&&◌, ◌||◌, Option, none, some, List, [], ◌∷◌, ◌++◌,
  if◌then◌else◌, any, contains, length, ltb, nat_eq, codes, has_prefix, trim_start, lines,
  split_whitespace, join, join_path, decimal, map, ◌==◌,
}
use lazybones.Engine.Commands.{read_to_string, read_dir, is_file, DirEntry}
use lazybones.Engine.Program.{Program, perform, return, fold, ◌>>=◌}

pub data Preflight : Type 0 where
  fits : Preflight
  fixed : (gate : List String) (note : String) → Preflight
  unfixable : (reason : String) → Preflight

abbrev pub crate_scan_depth : ℕ
crate_scan_depth = 2

unfoldable pub uses_cargo_workspace : (cmd : String) → Bool
uses_cargo_workspace cmd =
    let toks = split_whitespace cmd in contains toks "cargo" && contains toks "--workspace"

abbrev is_workspace_header : String → Bool
is_workspace_header untrimmed =
    let line = trim_start untrimmed in
    line == "[workspace]" || has_prefix line "[workspace]" || has_prefix line "[workspace."

unfoldable pub declares_workspace : (manifest : String) → Bool
declares_workspace manifest = any is_workspace_header (lines manifest)

abbrev pub declares : Option String → Bool
unfolding declares_workspace
declares none = false
declares (some text) = declares_workspace text

unfoldable pub is_cargo_workspace : (repo : String) → Program Bool
is_cargo_workspace repo = do
  text ← perform (read_to_string (join_path repo "Cargo.toml"))
  return (declares text)

-- The order of texts, by their code points, and `[String]::sort`.
abbrev precedes : List ℕ → List ℕ → Bool
precedes [] ys = true
precedes (x ∷ xs) [] = false
precedes (x ∷ xs) (y ∷ ys) = ltb x y || (nat_eq x y && precedes xs ys)

abbrev insert_text : String → List String → List String
insert_text x [] = x ∷ []
insert_text x (y ∷ ys) =
    let rest = insert_text x ys in if precedes (codes x) (codes y) then x ∷ y ∷ ys else y ∷ rest

abbrev pub sort : List String → List String
sort [] = []
sort (x ∷ xs) = insert_text x (sort xs)

-- `str::replace` of a backslash by a slash.
abbrev with_slashes : String → String
with_slashes String.[] = String.[]
with_slashes (String.◌∷◌ c s) =
    if nat_eq (code c) 0x5c then "/" <> with_slashes s else String.◌∷◌ c (with_slashes s)

-- The names of directories that are not searched.
abbrev pub is_noise : (name : String) → Bool
is_noise name = has_prefix name "." || name == "target" || name == "node_modules"

-- One entry of the directory, whose path below the root is `rel`; a crate is not descended into.
abbrev visit :
    (descend : (dir rel : String) → List String → Program (List String))
    → (dir rel : String) → (out : List String) → DirEntry
    → Program (List String)
visit descend dir rel out entry = if not entry.is_dir || is_noise entry.name then return out else do
  has_manifest ← perform (is_file (join_path (join_path dir entry.name) "Cargo.toml"))
  if has_manifest
      then return (out ++ with_slashes (join_path rel entry.name) ∷ [])
      else descend (join_path dir entry.name) (join_path rel entry.name) out

abbrev visit_all :
    (descend : (dir rel : String) → List String → Program (List String))
    → (dir rel : String) → (out : List String) → Option (List DirEntry)
    → Program (List String)
visit_all descend dir rel out none = return out
visit_all descend dir rel out (some entries) = fold (visit descend dir rel) out entries

-- The levels are those that are left to search.
unfoldable pub collect_crates :
    (levels : ℕ) → (dir rel : String) → (out : List String) → Program (List String)
collect_crates zero dir rel out = return out
collect_crates (suc levels) dir rel out = do
  entries ← perform (read_dir dir)
  visit_all (collect_crates levels) dir rel out entries

unfoldable pub member_crates : (repo : String) → Program (List String)
unfolding collect_crates
member_crates repo = do found ← collect_crates crate_scan_depth repo "" []; return (sort found)

-- The words of a command for one crate, by whether the word before was `cargo` and whether the path
-- of the manifest stands already.
abbrev pub rewrite_words :
    (krate : String) → (after_cargo inserted : Bool) → List String → List String
rewrite_words krate after_cargo inserted [] = []
rewrite_words krate after_cargo inserted (tok ∷ toks) =
    let skipped = rewrite_words krate false inserted toks in
    let with_path = rewrite_words krate (tok == "cargo") true toks in
    let plain = rewrite_words krate (tok == "cargo") inserted toks in
    if tok == "--workspace"
    then skipped
    else if not inserted && after_cargo
    then tok ∷ "--manifest-path" ∷ (krate <> "/Cargo.toml") ∷ with_path
    else tok ∷ plain

unfoldable pub rewrite_for_crate : (cmd krate : String) → String
rewrite_for_crate cmd krate = join " " (rewrite_words krate false false (split_whitespace cmd))

-- The commands in place of each command.
unfoldable pub rewritten : (crates gate : List String) → List String
unfolding uses_cargo_workspace rewrite_for_crate
rewritten crates [] = []
rewritten crates (cmd ∷ gate) =
    let rest = rewritten crates gate in
    if uses_cargo_workspace cmd then map (rewrite_for_crate cmd) crates ++ rest else cmd ∷ rest

abbrev pub fix : (repo : String) → (gate crates : List String) → Preflight
unfolding rewritten
fix repo gate [] = unfixable (
    "gate uses `cargo … --workspace` but " <> repo <> " is not a cargo workspace "
    <> "(no root `Cargo.toml` with a `[workspace]` table) and no member "
    <> "crates were found to target instead")
fix repo gate (krate ∷ crates) = fixed (rewritten (krate ∷ crates) gate) (
    repo
    <> " is not a cargo workspace; rewrote the `--workspace` gate to run "
    <> "per-crate against "
    <> decimal (length (krate ∷ crates))
    <> " discovered crate(s): "
    <> join ", " (krate ∷ crates))

unfoldable pub check : (repo : String) → (gate : List String) → Program Preflight
unfolding uses_cargo_workspace is_cargo_workspace member_crates
check repo gate = if not (any uses_cargo_workspace gate) then return fits else do
  workspace ← is_cargo_workspace repo
  if workspace then return fits else do crates ← member_crates repo; return (fix repo gate crates)
