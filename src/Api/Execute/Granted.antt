-- ===== src/Api/Execute/Granted.antt =====
-- internal/api/api.go with the Docker backend behind it: what a client asks for is what its container
-- gets.
use runboxd.Base.{◌≡◌, if◌then◌else◌}
use runboxd.Base.Int.{ℤ, pos, eqb_ℤ}
use runboxd.Base.Text.{Text}
use runboxd.Base.Map.{Map}
use runboxd.Sandbox.Entries.{LangEntry, VersionSpec}
use runboxd.Sandbox.Docker.Container.{container_config}
use runboxd.Sandbox.Docker.Calls.{Made}
use runboxd.Sandbox.Factory.Ready.{Sound}
use runboxd.Api.Types.{ExecuteRequest}
use runboxd.Api.Validation.{requested_timeout}

-- The container has the image of the version that was found, and the memory that the request asks for
-- (the most that the language allows where it asks for none), with no swap on top.
abbrev pub Granted : ExecuteRequest → LangEntry → VersionSpec → Made
Granted req entry vs image config host =
    (image ≡ vs.image)
    × (config ≡ container_config entry.env req.stdin)
    × (host.memory ≡ (
        if eqb_ℤ req.memory_bytes (pos 0) then entry.limits.max_memory_bytes else req.memory_bytes))
    × (host.memory_swap ≡ host.memory)

-- The wait lasts as long as the request asks for.
abbrev pub GrantedTime : ExecuteRequest → LangEntry → ℤ → Type 0
GrantedTime req entry t = t ≡ (
    if eqb_ℤ req.timeout_seconds (pos 0) then entry.limits.max_timeout else requested_timeout req)
