-- ===== src/Engine/FollowUp.antt =====
-- crates/lazybones-engine/src/scheduler/follow_up.rs: which reasons of a block need an operator, and
-- the note for them.
use Prim.Native.String.{◌++◌ as ◌<>◌}
use lazybones.Prelude.{
  String, Option, none, some, List, [], ◌∷◌, if◌then◌else◌, unwrap_or, has_any, has_part,
}
use lazybones.Store.Task.Model.{Task}
use lazybones.Engine.Commands.{NewFollowUpEntry, file_follow_up}
use lazybones.Engine.Program.{Program, perform, stop, ◌>>◌}

-- The wall that a reason names.
pub record Wall : Type 0 where
  pub kind : String
  pub title : String
  pub detail : String

abbrev consent_detail : String → String
consent_detail reason =
    "A headless agent parked on an interactive prompt nobody can answer — "
    <> "Claude Code's one-time *Bypass Permissions* consent screen, its "
    <> "per-folder *\"Yes, I trust this folder\"* trust dialog, or a write "
    <> "into the protected `.claude/` directory (e.g. an auto-memory note).\n\n"
    <> "**Block reason:** " <> reason <> "\n\n"
    <> "**Auto-memory / `.claude/` write (the usual mid-run cause):** lazybones "
    <> "spawns agents with `CLAUDE_CODE_DISABLE_AUTO_MEMORY=1` so they don't "
    <> "try to write the host's memory (a protected-path write no allow-list "
    <> "can pre-approve). If you see this, the daemon predates that fix — "
    <> "update and restart it; no host change is needed.\n\n"
    <> "**Folder trust (fresh worktree):** lazybones auto-seeds the launch "
    <> "dir's trust flag, controlled by `auto_trust_agent_folder` (on by "
    <> "default; settable per task). If off, turn it back on — or set "
    <> "`\"hasTrustDialogAccepted\": true` for the dir under `projects` in "
    <> "`~/.claude.json`.\n\n"
    <> "**Bypass-permissions consent (one-time per host):** run `claude` "
    <> "interactively and choose *Yes, I accept*, or set "
    <> "`bypassPermissionsModeAccepted: true` in `~/.claude.json`.\n\n"
    <> "After the relevant fix, resolve this follow-up and retry the task."

abbrev credential_detail : String → String
credential_detail reason =
    "The agent blocked because it lacks a credential it needs to finish.\n\n"
    <> "**Block reason:** " <> reason <> "\n\n**Fix:** provide the secret (e.g. via the "
    <> "secrets store / env), then resolve this follow-up and retry the task."

abbrev gate_config_detail : String → String
gate_config_detail reason =
    "The green-build gate is misconfigured for this repo, so it fails "
    <> "before testing any code — and no retry or code fix can clear it.\n\n"
    <> "**Block reason:** " <> reason <> "\n\n"
    <> "This usually means the default `cargo … --workspace` gate is pointed "
    <> "at a repo whose crates are independent (no root `Cargo.toml` with a "
    <> "`[workspace]` table). lazybones auto-rewrites that to per-crate "
    <> "`cargo … --manifest-path <crate>/Cargo.toml` commands when it can "
    <> "find member crates; this fired because it couldn't (or the gate isn't "
    <> "a cargo gate at all).\n\n"
    <> "**Fix:** set a gate that fits this repo via `PATCH /workflows/:id` "
    <> "(the workspace `gate` field), then resolve this follow-up and retry."

abbrev spawn_detail : String → String
spawn_detail reason =
    "The orchestrator could not launch an agent for this task.\n\n" <> "**Block reason:** "
    <> reason <> "\n\n**Fix:** check `hcom list` and the daemon "
    <> "log on the host, resolve the underlying cause, then resolve this "
    <> "follow-up and retry the task."

abbrev worktree_detail : String → String
worktree_detail reason =
    "Could not create or reuse the git worktree for this task.\n\n" <> "**Block reason:** "
    <> reason <> "\n\n**Fix:** check the repo path, disk space, "
    <> "and `git worktree list` on the host; clear the conflict, then resolve "
    <> "this follow-up and retry."

-- The words of each kind, looked for in this order in the text in lower case.
abbrev pub consent_words : List String
consent_words =
    "screen settled" ∷ "launch_blocked" ∷ "bypass permissions" ∷ "trust this folder"
    ∷ "trust dialog" ∷ "permission prompt" ∷ "memory-note" ∷ ".claude/" ∷ "consent" ∷ []

abbrev pub credential_words : List String
credential_words = "credential" ∷ "api key" ∷ "api_key" ∷ "token" ∷ "auth" ∷ "login" ∷ "secret" ∷ []

abbrev pub gate_words : List String
gate_words =
    "gate misconfigured" ∷ "not a cargo workspace" ∷ "could not find `cargo.toml`"
    ∷ "could not find cargo.toml" ∷ []

abbrev pub worktree_words : List String
worktree_words = "provisioning failed" ∷ "worktree" ∷ []

unfoldable pub classify : (to_lowercase : String → String) → (reason : String) → Option Wall
classify to_lowercase reason =
    let lower = to_lowercase reason in
    if has_any lower consent_words
    then some (record {
      kind = "consent";
      title = "Agent stuck on a permission/trust prompt";
      detail = consent_detail reason;
    })
    else if has_any lower credential_words
    then some (record {
      kind = "credential";
      title = "Agent is missing a credential";
      detail = credential_detail reason;
    })
    else if has_any lower gate_words
    then some (record {
      kind = "gate-config";
      title = "Gate command can't run against this repo";
      detail = gate_config_detail reason;
    })
    else if has_part lower "spawn failed"
    then some
        (record { kind = "spawn"; title = "Agent failed to spawn"; detail = spawn_detail reason })
    else if has_any lower worktree_words
    then some (record {
      kind = "worktree";
      title = "Worktree provisioning failed";
      detail = worktree_detail reason;
    })
    else none

-- One note for a task and a kind.
unfoldable pub entry_for : Task → (actor : String) → Wall → NewFollowUpEntry
entry_for task actor wall = record {
  run = unwrap_or task.run_id task.run;
  task = some task.id;
  dedup_key = wall.kind <> ":" <> task.id;
  kind = wall.kind;
  title = wall.title;
  detail = wall.detail;
  actor = actor;
}

abbrev pub file_wall : Task → (actor : String) → Option Wall → Program (Unit {0})
file_wall task actor none = stop
file_wall task actor (some wall) = perform (file_follow_up (entry_for task actor wall)) >> stop

unfoldable pub file_if_actionable :
    (to_lowercase : String → String) → Task → (reason actor : String) → Program (Unit {0})
file_if_actionable to_lowercase task reason actor =
    file_wall task actor (classify to_lowercase reason)
