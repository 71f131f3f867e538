-- ===== src/Sandbox/Factory/Enforced.antt =====
-- internal/sandbox/capability.go: that `MemoryLimitEnforced` tells what the configurations of nsjail
-- limit.
use runboxd.Base.{Option}
use runboxd.Base.Text.{Text}
use runboxd.Base.Map.{Map}
use runboxd.Base.Result.{Result, ok, err}
use runboxd.Config.{nsjail}
use runboxd.Sandbox.Cgroup.{CgroupState}
use runboxd.Sandbox.Factory.{
  Load, DockerHost, NsjailHost, NewError, NewEnd, Backend, on_docker, on_nsjail, by_value, new,
}

-- Of a backend that starts; the text is that of one that does not.
cgroup_mount_of : Text → Result NewError Backend → Text
cgroup_mount_of other (ok (on_nsjail sb)) = sb.cgroup_mount
cgroup_mount_of other (ok (on_docker sb)) = other
cgroup_mount_of other (err e) = other

module _ (load : Load) (dh : DockerHost) (nh : NsjailHost) (cache : Option CgroupState)
    (path nsjail_path root override : Text) where
  -- The start of the nsjail backend.
  abbrev pub nsjail_new : NewEnd
  nsjail_new = new load dh nh cache (by_value (nsjail path nsjail_path root override))
