-- ===== src/Task/Orphans.antt =====
-- What `task_node_zombify` of kernel/src/sched/sched.c does with the children of a node.
use k_os.Base.{
  ℕ, ◌≡◌, refl, ◌∙◌, sym, ap, subst, eq_or_ne, true, false, List, [], ◌∷◌, ◌==◌, ==_refl, inl, inr,
  arith,
}
use k_os.Task.{ExitState, task_exited, Tasks, put_node, add_zombie, reparent, reparent_all}

-- The zombies behind children in a row.
abbrev pub pushed : List ℕ → List ℕ → List ℕ
pushed [] zs = zs
pushed (c ∷ cs) zs = pushed cs (c ∷ zs)

add_zombie_same :
    (s : Tasks) (child n m : ℕ)
    → (((add_zombie s child n).node m).parent ≡ (s.node m).parent)
      × (((add_zombie s child n).node m).exit_state ≡ (s.node m).exit_state)
unfolding add_zombie put_node
add_zombie_same s child n m = elim (eq_or_ne m n) [
  | inl e ↦
      let here : (m == n) ≡ true = ground arith in
      rw here
        (ap (λ (k : ℕ). (s.node k).parent) (sym e), ap (λ (k : ℕ). (s.node k).exit_state) (sym e))
  | inr ne ↦ let there : (m == n) ≡ false = ground arith in rw there (refl, refl)
]

add_zombie_head :
    (s : Tasks) (child n : ℕ) → ((add_zombie s child n).node n).zombies ≡ child ∷ (s.node n).zombies
unfolding add_zombie put_node
add_zombie_head s child n = rw (==_refl n) refl

-- What the loop leaves of the nodes.
abbrev IsOrphaned : ℕ → List ℕ → List ℕ → Tasks → Tasks → Type 0
IsOrphaned n cs zs s s' =
    ((s'.node s.init_node).zombies ≡ pushed cs zs)
    × ((m : ℕ)
        → ((s'.node m).parent ≡ (s.node m).parent)
          × ((s'.node m).exit_state ≡ (s.node m).exit_state))

-- The loop at the end of a node that has exited: each child, whether it still runs or not, goes to the
-- zombies of the first process, and no parent and no state changes.
pub reparent_all-pushed :
    (cs : List ℕ) (n : ℕ) (s : Tasks)
    → (s.node n).exit_state ≡ task_exited
    → (((reparent_all n cs s).node s.init_node).zombies ≡ pushed cs (s.node s.init_node).zombies)
      × ((m : ℕ)
          → (((reparent_all n cs s).node m).parent ≡ (s.node m).parent)
            × (((reparent_all n cs s).node m).exit_state ≡ (s.node m).exit_state))
unfolding reparent_all reparent add_zombie put_node
reparent_all-pushed [] n s e = (refl, λ m. (refl, refl))
reparent_all-pushed (c ∷ cs) n s e =
    let s₁ : Tasks = add_zombie s c s.init_node in
    let step : reparent (s.node n).exit_state s c ≡ s₁ = ap (λ (x : ExitState). reparent x s c) e in
    let kept = add_zombie_same s c s.init_node in
    let (zs, same) = reparent_all-pushed cs n s₁ ((kept n).1 ∙ e) in
    subst
      (λ (t : Tasks). IsOrphaned n cs (c ∷ (s.node s.init_node).zombies) s (reparent_all n cs t))
      (sym step)
      (
        zs ∙ ap (pushed cs) (add_zombie_head s c s.init_node),
        λ m. ((same m).0 ∙ (kept m).0, (same m).1 ∙ (kept m).1),
      )
