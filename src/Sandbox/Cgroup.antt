-- ===== src/Sandbox/Cgroup.antt =====
-- internal/sandbox/cgroup.go: whether the limits of nsjail can be those of a cgroup, and the writes
-- that prepare one. `join` is `filepath.Join` and `fields` is `strings.Fields`.
pub mod Delegated
use runboxd.Base.{
  Bool, true, false, not, ◌&&◌, Option, none, some, List, [], ◌∷◌, ◌++◌, if◌then◌else◌,
}
use runboxd.Base.Text.{Text, text, text_eq, is_empty, cut_prefix, split, trim_space, member}

pub record Calls : Type 0 where
  pub join : Text → Text → Text
  pub fields : Text → List Text

-- The files as they are read, and which writes succeed.
pub record Host : Type 0 where
  pub self_cgroup : Option Text
  pub read_controllers : (dir : Text) → Option Text
  pub leaf_made : Bool
  pub pid_written : Bool
  pub subtree_written : Bool

pub data Reason : Type 0 where
  cannot_read_self no_entry : Reason
  no_controllers cannot_seat cannot_enable : Text → Reason

pub data CgroupCall : Type 0 where
  make_leaf write_pid enable_subtree : (mount : Text) → CgroupCall

pub record CgroupState : Type 0 where
  pub mount : Text
  pub reason : Option Reason
  pub calls : List CgroupCall

unfoldable pub cgroup_v2_root : Text
cgroup_v2_root = text "/sys/fs/cgroup"

-- The first line that starts with "0::".
unfoldable pub own_line : Calls → List Text → Option Text
own_line c [] = none
own_line c (line ∷ lines) = elim (cut_prefix line (text "0::")) [
  | some rel ↦ some (c.join cgroup_v2_root rel)
  | none ↦ own_line c lines
]

pub data Detected : Type 0 where
  detected : Text → Detected
  undetected : Reason → Detected

abbrev or_no_entry : Option Text → Detected
or_no_entry none = undetected no_entry
or_no_entry (some mount) = detected mount

unfoldable pub detect_own_cgroup : Calls → Option Text → Detected
detect_own_cgroup c none = undetected cannot_read_self
detect_own_cgroup c (some data_) = or_no_entry (own_line c (split (trim_space data_) 10))

unfoldable pub has_controllers : List Text → Bool
has_controllers controllers =
    member (text "memory") controllers
    && (member (text "pids") controllers && member (text "cpu") controllers)

unfoldable pub cgroup_controllers_available : Calls → Option Text → Bool
cgroup_controllers_available c none = false
cgroup_controllers_available c (some listed) = has_controllers (c.fields listed)

abbrev unusable : Reason → List CgroupCall → CgroupState
unusable reason calls = record { mount = []; reason = some reason; calls = calls }

-- The calls of `seatSelfInLeaf` and of `enableSubtreeControl`, and whether all of them worked.
unfoldable pub seat_self_in_leaf : Host → Text → List CgroupCall × Bool
seat_self_in_leaf h mount =
    if h.leaf_made
    then (make_leaf mount ∷ write_pid mount ∷ [], h.pid_written)
    else (make_leaf mount ∷ [], false)

unfoldable pub enable_subtree_control : Host → Text → List CgroupCall × Bool
enable_subtree_control h mount = (enable_subtree mount ∷ [], h.subtree_written)

-- From `seatSelfInLeaf` on.
unfoldable pub delegate : Host → Text → CgroupState
delegate h mount =
    let seated = seat_self_in_leaf h mount in
    let enabled = enable_subtree_control h mount in
    if not seated.1
    then unusable (cannot_seat mount) seated.0
    else if not enabled.1
    then unusable (cannot_enable mount) (seated.0 ++ enabled.0)
    else record { mount = mount; reason = none; calls = seated.0 ++ enabled.0 }

unfoldable pub setup_mount : Calls → Host → Detected → CgroupState
setup_mount c h (undetected reason) = unusable reason []
setup_mount c h (detected mount) =
    if cgroup_controllers_available c (h.read_controllers mount)
    then delegate h mount
    else unusable (no_controllers mount) []

unfoldable pub setup_delegated_cgroup : Calls → Host → (override : Text) → CgroupState
setup_delegated_cgroup c h override =
    setup_mount c h
      (if is_empty override then detect_own_cgroup c h.self_cgroup else detected override)

-- `cgroupCache`, none before `cgroupOnce` has run, and what a call that finds it so makes of it. The
-- calls of an earlier state are those of the first time.
unfoldable pub delegated_cgroup_mount :
    Calls → Host → Option CgroupState → (override : Text) → CgroupState
delegated_cgroup_mount c h none override = setup_delegated_cgroup c h override
delegated_cgroup_mount c h (some cache) override = cache

unfoldable pub cgroups_active : Calls → Host → Option CgroupState → Bool
cgroups_active c h cache = not (is_empty (delegated_cgroup_mount c h cache []).mount)
