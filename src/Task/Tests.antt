-- ===== src/Task/Tests.antt =====
-- The task nodes of kernel/src/sched/sched.c on a small family.
use k_os.Base.{ℕ, ◌≡◌, refl, Option, none, some, List, [], ◌∷◌, ◌==◌, if◌then◌else◌}
use k_os.Task.{
  ExitState, task_running, task_exited, Tasks, put_node, find_pid, task_node_find, is_running,
  mark_all, task_node_exit, add_zombie, reparent, reparent_all, task_node_zombify,
}
use k_os.Task.Orphans.{pushed, reparent_all-pushed}

-- The first process 1, its child 2, and the child 3 of that, which runs.
abbrev family : ExitState → Tasks
family st = record {
  node = λ n. record {
    pid = n;
    refs = 1;
    parent = if n == 3 then 2 else 1;
    exit_state = if n == 2 then st else task_running;
    exit_code = 0;
    exit_cause = 0;
    threads = n ∷ [];
    children = if n == 1 then 2 ∷ [] else if n == 2 then 3 ∷ [] else [];
    zombies = [];
  };
  tasks = 3 ∷ 2 ∷ 1 ∷ [];
  init_node = 1;
  should_die = [];
}

reparent_all-pushed_example :
    (((reparent_all 2 (3 ∷ []) (family task_exited)).node 1).zombies ≡ pushed (3 ∷ []) [])
    × ((m : ℕ)
        → (((reparent_all 2 (3 ∷ []) (family task_exited)).node m).parent
            ≡ ((family task_exited).node m).parent)
          × (((reparent_all 2 (3 ∷ []) (family task_exited)).node m).exit_state
              ≡ ((family task_exited).node m).exit_state))
reparent_all-pushed_example = reparent_all-pushed (3 ∷ []) 2 (family task_exited) refl

-- The zombies of the first process.
zombies_of_init : Option Tasks → List ℕ
zombies_of_init none = []
zombies_of_init (some s) = (s.node s.init_node).zombies

-- The end of 2 makes a zombie of 3, which runs.
running_zombie : zombies_of_init (task_node_zombify (family task_running) 2) ≡ 3 ∷ 2 ∷ []
unfolding zombies_of_init task_node_zombify put_node is_running add_zombie reparent_all reparent
running_zombie = refl

-- A process that is not there.
nobody_there : task_node_find (family task_running) 9 ≡ none
unfolding task_node_find find_pid
nobody_there = refl

-- The second exit marks no thread again.
marked_once :
    (task_node_exit (task_node_exit (family task_running) 2 0 0) 2 0 0).should_die ≡ 2 ∷ []
unfolding task_node_exit is_running put_node mark_all
marked_once = refl
