-- ===== src/Task.antt =====
-- The task nodes of kernel/src/sched/sched.c: their counts, how one is found, and what becomes of a node and
-- its children when its last thread is gone. A node is a number; `none` is a failed BUG_ON, a panic, or a
-- use of the head of a list as a node. Sessions and groups are left out.
pub mod Orphans
mod Tests
use k_os.Base.{
  ℕ, zero, suc, Bool, true, false, Option, none, some, List, [], ◌∷◌, ◌==◌, if◌then◌else◌,
}
use k_os.Base.Word.{add32, sub32}

-- TASK_RUNNING, TASK_EXITING and TASK_EXITED
pub data ExitState : Type 0 where
  task_running : ExitState
  task_exiting : ExitState
  task_exited : ExitState

-- `task_node_t`, its lists from their heads on
pub record TaskNode : Type 0 where
  pub pid : ℕ
  pub refs : ℕ
  pub parent : ℕ
  pub exit_state : ExitState
  pub exit_code : ℕ
  pub exit_cause : ℕ
  pub threads : List ℕ
  pub children : List ℕ
  pub zombies : List ℕ

-- All nodes, the list of them, `init_node`, and the threads that are marked to die.
pub record Tasks : Type 0 where
  pub node : ℕ → TaskNode
  pub tasks : List ℕ
  pub init_node : ℕ
  pub should_die : List ℕ

-- A node, written back.
unfoldable pub put_node : Tasks → ℕ → TaskNode → Tasks
put_node s n x = record s { node = λ m. if m == n then x else s.node m }

-- `task_node_get`
unfoldable pub task_node_get : Tasks → ℕ → Option Tasks
task_node_get s n =
    if (s.node n).refs == 0
    then none
    else some (put_node s n (record (s.node n) { refs = add32 (s.node n).refs 1 }))

-- `task_node_put`, where `task_node_destroy` is a panic.
unfoldable pub task_node_put : Tasks → ℕ → Option Tasks
task_node_put s n =
    if (s.node n).refs == 0
    then none
    else if (s.node n).refs == 1
    then none
    else some (put_node s n (record (s.node n) { refs = sub32 (s.node n).refs 1 }))

-- The loop of `task_node_find`.
unfoldable pub find_pid : List ℕ → Tasks → ℕ → Option ℕ
find_pid [] s pid = none
find_pid (n ∷ ns) s pid =
    let rest = find_pid ns s pid in if (s.node n).pid == pid then some n else rest

-- `task_node_find`: without such a node, `task_node_get` is called with the head of the list.
unfoldable pub task_node_find : Tasks → ℕ → Option (ℕ × Tasks)
task_node_find s pid = elim (find_pid s.tasks s pid) [
  | none ↦ none
  | some n ↦ elim (task_node_get s n) [ none ↦ none | some s' ↦ some (n, s') ]
]

-- Whether a node is not exiting.
unfoldable pub is_running : ExitState → Bool
is_running task_running = true
is_running _ = false

-- `thread_mark_die` of threads in a row.
unfoldable pub mark_all : List ℕ → List ℕ → List ℕ
mark_all [] marked = marked
mark_all (t ∷ ts) marked = mark_all ts (t ∷ marked)

-- `task_node_exit` of a node, with its lock free: the first call marks its threads.
unfoldable pub task_node_exit : Tasks → ℕ → ℕ → ℕ → Tasks
task_node_exit s n code cause =
    let x : TaskNode = record (s.node n) { exit_code = code; exit_cause = cause } in
    if is_running x.exit_state
    then record (put_node s n (record x { exit_state = task_exiting })) {
      should_die = mark_all x.threads s.should_die;
    }
    else put_node s n x

-- `list_add(&child->zombie_list, &node->zombies)`
unfoldable pub add_zombie : Tasks → ℕ → ℕ → Tasks
add_zombie s child n = put_node s n (record (s.node n) { zombies = child ∷ (s.node n).zombies })

-- A child of the loop of `task_node_zombify`; the state that is read is the node's.
unfoldable pub reparent : ExitState → Tasks → ℕ → Tasks
reparent task_exited s child = add_zombie s child s.init_node
reparent _ s child = put_node s child (record (s.node child) { parent = s.init_node })

-- The loop of `task_node_zombify`.
unfoldable pub reparent_all : ℕ → List ℕ → Tasks → Tasks
reparent_all n [] s = s
reparent_all n (child ∷ rest) s = reparent_all n rest (reparent (s.node n).exit_state s child)

-- `task_node_zombify`
unfoldable pub task_node_zombify : Tasks → ℕ → Option Tasks
task_node_zombify s n =
    let s₁ = put_node s n (record (s.node n) { exit_state = task_exited }) in
    if (s.node n).pid == 1
    then none
    else let parent = (s₁.node n).parent in
      let s₂ = if is_running (s₁.node parent).exit_state then add_zombie s₁ n parent else s₁ in
      some (reparent_all n (s₂.node n).children s₂)
