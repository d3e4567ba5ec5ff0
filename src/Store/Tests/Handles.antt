-- ===== src/Store/Tests/Handles.antt =====
-- Status changes through the handle.
use lazybones.Prelude.{true, []}
use lazybones.Store.Task.Transition.{gate}
use lazybones.Store.Verbs.Moves.{Moved, NotMoved, WasReset, NotReset}
use lazybones.Store.Handle.{transition, reset, revive_with_guidance}
use lazybones.Store.Handle.Publishes.{
  HandlePost, Told, Silent, transition-HandlePost, reset-HandlePost,
}
use lazybones.Store.Verbs.Post.{Post}
use lazybones.Store.Handle.Guidance.{Revived, NotRevived}
use lazybones.Store.Handle.Revive.{both, revive_with_guidance-Post}
use lazybones.Store.Tests.Memory.{memory, memory-IsDocumented}
use lazybones.Store.Tests.Tasks.{one_task}

transition-HandlePost_example :
    HandlePost memory.contents
      (transition memory "fix" gate "loop" (one_task, []))
      (Told [] (λ t event c. Moved one_task "fix" gate "loop" t event c))
      (Silent [] (NotMoved one_task "fix" gate))
transition-HandlePost_example =
    transition-HandlePost memory memory-IsDocumented "fix" gate "loop" one_task []

reset-HandlePost_example :
    HandlePost memory.contents
      (reset memory "fix" "admin" (one_task, []))
      (Told [] (λ t event c. WasReset one_task "fix" "admin" t event c))
      (Silent [] (NotReset one_task "fix"))
reset-HandlePost_example = reset-HandlePost memory memory-IsDocumented "fix" "admin" one_task []

revive_with_guidance-Post_example :
    Post
      (both memory memory-IsDocumented)
      (revive_with_guidance memory "fix" "Try again." "admin" true (one_task, []))
      (λ t c. Revived "fix" "Try again." "admin" true one_task [] t c.0 c.1)
      (λ e c. NotRevived "fix" "Try again." "admin" true one_task [] e c.0 c.1)
revive_with_guidance-Post_example =
    revive_with_guidance-Post memory memory-IsDocumented "fix" "Try again." "admin" true
      (one_task, [])
