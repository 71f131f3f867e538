-- ===== src/Sandbox/Cgroup/Delegated.antt =====
-- internal/sandbox/cgroup.go: when a cgroup is used.
use runboxd.Base.{
  ◌≡◌, refl, inl, inr, Bool, true, false, none, some, [], ◌∷◌, arith, if◌then◌else◌, Bool-cases,
  ◌∙◌,
}
use runboxd.Base.Text.{Text, is_empty}
use runboxd.Sandbox.Cgroup.{
  Calls, Host, Reason, make_leaf, write_pid, enable_subtree, CgroupState, Detected, detected,
  undetected, detect_own_cgroup, cgroup_controllers_available, delegate, setup_mount,
  seat_self_in_leaf, enable_subtree_control, setup_delegated_cgroup,
}

-- A cgroup with its controllers, in which the daemon sits in a leaf and the subtree is enabled, in this
-- order.
pub record IsDelegated (c : Calls) (h : Host) (s : CgroupState) : Type 0 where
  pub controllers : cgroup_controllers_available c (h.read_controllers s.mount) ≡ true
  pub leaf_made : h.leaf_made ≡ true
  pub pid_written : h.pid_written ≡ true
  pub subtree_written : h.subtree_written ≡ true
  pub calls : s.calls ≡ make_leaf s.mount ∷ write_pid s.mount ∷ enable_subtree s.mount ∷ []

delegate-IsDelegated :
    (c : Calls) (h : Host) (mount : Text)
    → cgroup_controllers_available c (h.read_controllers mount) ≡ true
    → (delegate h mount).reason ≡ none
    → ((delegate h mount).mount ≡ mount) × IsDelegated c h (delegate h mount)
unfolding delegate seat_self_in_leaf enable_subtree_control
delegate-IsDelegated c h mount listed done =
    let leaf : h.leaf_made ≡ true = ground arith in
    let pid : h.pid_written ≡ true = ground arith in
    let subtree : h.subtree_written ≡ true = ground arith in
    rw (leaf, pid, subtree)
      (
        refl,
        record {
          controllers = listed;
          leaf_made = refl;
          pid_written = refl;
          subtree_written = refl;
          calls = refl;
        },
      )

delegate-mount :
    (h : Host) (mount : Text) (r : Reason)
    → (delegate h mount).reason ≡ some r
    → (delegate h mount).mount ≡ []
unfolding delegate seat_self_in_leaf enable_subtree_control
delegate-mount h mount r failed = ground arith

setup_mount-IsDelegated :
    (c : Calls) (h : Host) (d : Detected)
    → (setup_mount c h d).reason ≡ none
    → (mount : Text) × (d ≡ detected mount)
      × ((setup_mount c h d).mount ≡ mount)
      × IsDelegated c h (setup_mount c h d)
unfolding setup_mount
setup_mount-IsDelegated c h (undetected reason) done = absurd (cc)
setup_mount-IsDelegated c h (detected mount) done =
    elim (Bool-cases (cgroup_controllers_available c (h.read_controllers mount))) [
      | inl listed ↦
          let (same, delegated) =
            delegate-IsDelegated c h mount listed (rw (listed, setup_mount) at done) in
          rw listed (mount, refl, same, delegated)
      | inr unlisted ↦ absurd (ground (arith, unlisted))
    ]

setup_mount-mount :
    (c : Calls) (h : Host) (d : Detected) (r : Reason)
    → (setup_mount c h d).reason ≡ some r
    → (setup_mount c h d).mount ≡ []
unfolding setup_mount
setup_mount-mount c h (undetected reason) r failed = refl
setup_mount-mount c h (detected mount) r failed = ground (arith, delegate-mount h mount r)

detected-first :
    (b : Bool) (d : Detected) (o m : Text)
    → b ≡ false
    → (if b then d else detected o) ≡ detected m
    → m ≡ o
detected-first b d o m e h = ground arith

-- Where `setupDelegatedCgroup` gives no reason against it, the cgroup it names lists the controllers
-- memory, pids and cpu, the daemon sits in a leaf of it and its subtree is enabled, in this order, and it
-- is the one that the configuration names, if it names one. Where it gives a reason, it names no cgroup.
pub setup_delegated_cgroup_lem :
    (c : Calls) (h : Host) (override : Text)
    → ((setup_delegated_cgroup c h override).reason ≡ none
        → IsDelegated c h (setup_delegated_cgroup c h override)
          × (is_empty override ≡ false → (setup_delegated_cgroup c h override).mount ≡ override))
      × ((r : Reason)
          → (setup_delegated_cgroup c h override).reason ≡ some r
          → (setup_delegated_cgroup c h override).mount ≡ [])
unfolding setup_delegated_cgroup
setup_delegated_cgroup_lem c h override =
    let d = if is_empty override then detect_own_cgroup c h.self_cgroup else detected override in
    (
      λ done.
          let (mount, found, same, delegated) = setup_mount-IsDelegated c h d done in
          (
            delegated,
            λ named.
                same
                ∙ detected-first (is_empty override) (detect_own_cgroup c h.self_cgroup) override
                    mount named found,
          ),
      λ r failed. setup_mount-mount c h d r failed,
    )
