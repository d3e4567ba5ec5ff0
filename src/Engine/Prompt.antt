-- ===== src/Engine/Prompt.antt =====
-- crates/lazybones-engine/src/scheduler/prompt.rs: the prompt of an agent, from the spec of the task
-- and what the operator said.
use Prim.Native.String.{◌++◌ as ◌<>◌}
use lazybones.Prelude.{String, List, [], ◌∷◌, trim}
use lazybones.Store.Task.Model.{Task}
use lazybones.Store.Chat.{ChatMessage, ChatRole, user, agent}

abbrev who : ChatRole → String
who user = "operator"
who agent = "you"

abbrev pub transcript : List ChatMessage → String
transcript [] = ""
transcript (m ∷ history) = "[" <> who m.role <> "] " <> trim m.text <> "\n" <> transcript history

unfoldable pub conversation_section : (history : List ChatMessage) → String
conversation_section history =
    "=== OPERATOR CONVERSATION ===\n"
    <> "This task was attempted before and the operator has been in touch. Read the\n"
    <> "exchange below (oldest first), address the operator's latest guidance,\n"
    <> "leave your work uncommitted (the engine commits + pushes), then re-signal\n"
    <> "DONE/BLOCKED on the thread as above.\n\n"
    <> transcript history

abbrev charter : Task → (worktree branch : String) → String
charter task worktree branch =
    "You are working in `" <> worktree <> "` on branch `" <> branch
    <> "`. Implement the task below.\n" <> "\n"
    <> "Make your changes in the worktree and leave them UNCOMMITTED. Do NOT run\n"
    <> "`git commit` or `git push` — the engine commits your work as a single\n"
    <> "commit for this task and pushes it once the build gate passes. Committing\n"
    <> "yourself would blur this task's commit with the next one on a shared branch.\n" <> "\n"
    <> "When the implementation is complete:\n"
    <> "1. Signal completion exactly once on the hcom thread named `" <> task.id <> "`:\n"
    <> "`hcom send @all --thread " <> task.id <> " -- DONE`\n" <> "(or `hcom send @all --thread "
    <> task.id <> " -- BLOCKED: <reason>` if you cannot finish).\n" <> "2. Then stop.\n" <> "\n"
    <> "If the operator messages you on the thread `" <> task.id <> "`, reply to them on that\n"
    <> "same thread (`hcom send @all --thread " <> task.id <> " -- <your reply>`), act on their\n"
    <> "guidance, and signal DONE/BLOCKED again when you reach a new conclusion.\n" <> "\n"
    <> "Do not touch files outside this worktree. In particular, do NOT write\n"
    <> "memory notes or edit anything under `~/.claude` or any `.claude/` metadata\n"
    <> "directory — if you would normally save a memory, skip it silently and keep\n"
    <> "working. Never stop to ask for permission; if an action would require\n"
    <> "approval, skip it and continue.\n" <> "\n" <> "=== TASK: " <> task.title <> " ===\n"
    <> task.spec <> "\n"

-- The remote is not named in it.
unfoldable pub compose :
    Task → (worktree branch remote : String) → (history : List ChatMessage) → String
unfolding conversation_section
compose task worktree branch remote [] = charter task worktree branch
compose task worktree branch remote (m ∷ history) =
    charter task worktree branch <> "\n" <> conversation_section (m ∷ history) <> "\n"
