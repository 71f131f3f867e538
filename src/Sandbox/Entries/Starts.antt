-- ===== src/Sandbox/Entries/Starts.antt =====
-- internal/sandbox/docker.go: a language that the Docker backend sets up when it starts.
use runboxd.Base.{Bool, true, none, [], ◌∷◌, ◌≡◌, refl, arith}
use runboxd.Base.Text.{Text}
use runboxd.Base.Map.{Map, insert}
use runboxd.Base.Result.{ok}
use runboxd.Registry.Types.{Language, Version}
use runboxd.Sandbox.Limits.{resolve_lang_limits, validate_lang_limits}
use runboxd.Sandbox.Entries.{
  LangEntry, VersionSpec, version_specs, default_of, docker_entry, spec_of, entry_of,
  no_compile_limits,
}

version_specs-available :
    (available : Version → Bool) (language : Text) (specs : Map VersionSpec) (vs : Map Version)
    → ((v : Version) → available v ≡ true)
    → (out : Map VersionSpec) × (version_specs available language specs vs ≡ ok out)
unfolding version_specs
version_specs-available available language specs [] all = (specs, refl)
version_specs-available available language specs ((key, v) ∷ vs) all =
    let (out, made) =
      version_specs-available available language (insert v.name (spec_of v) specs) vs all in
    (out, ground (arith, all v, made))

-- The Docker backend sets up a language that has its default version, valid limits and images.
pub docker_entry-starts :
    (available : Version → Bool) (l : Language) (v : Version)
    → default_of l ≡ ok v
    → validate_lang_limits (resolve_lang_limits l.limits) ≡ none
    → ((w : Version) → available w ≡ true)
    → (e : LangEntry) × (docker_entry available l ≡ ok e)
unfolding docker_entry
docker_entry-starts available l v default valid all =
    let (specs, made) = version_specs-available available l.name [] l.versions all in
    (entry_of l v.name no_compile_limits specs, rw (default, valid, made) refl)
