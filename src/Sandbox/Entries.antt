-- ===== src/Sandbox/Entries.antt =====
-- internal/sandbox/docker.go and nsjail.go: the table of languages that a backend makes of the
-- registry when it starts, and the lookup in it.
pub mod Sound
pub mod Starts
use runboxd.Base.{
  Bool, true, false, not, ◌&&◌, Option, none, some, List, [], ◌∷◌, ◌++◌, if◌then◌else◌,
}
use runboxd.Base.Int.{ℤ, pos}
use runboxd.Base.Float.{finite}
use runboxd.Base.Text.{Text, text, is_empty}
use runboxd.Base.Map.{Map, lookup, insert}
use runboxd.Base.Result.{Result, ok, err, ◌>>=◌}
use runboxd.FilePath.{join_path}
use runboxd.Registry.Types.{Language, Version}
use runboxd.Sandbox.Limits.{
  LangLimits, LangCompileLimits, LimitError, resolve_lang_limits, validate_lang_limits,
  resolve_lang_compile_limits, validate_lang_compile_limits,
}
use runboxd.Sandbox.Types.{LangSpec, LanguageInfo}
use runboxd.Sandbox.Interface.{Lookup, found, refused, unsupported_language, unsupported_version}

pub record VersionSpec : Type 0 where
  pub image : Text
  pub run_cmd : List Text
  pub build_cmd : List Text

pub record LangEntry : Type 0 where
  pub default_version : Text
  pub lang_type : Text
  pub filename : Text
  pub env : Map Text
  pub limits : LangLimits
  pub compile_limits : LangCompileLimits
  pub versions : Map VersionSpec

-- What stops a backend from starting.
pub data StartError : Type 0 where
  default_version_not_found : Text → StartError
  invalid_limits : Text → LimitError → StartError
  invalid_compile_limits : Text → LimitError → StartError
  version_unavailable : (language version : Text) → StartError

-- The Docker backend leaves the compile limits at their zero value.
abbrev pub no_compile_limits : LangCompileLimits
no_compile_limits = record {
  memory_bytes = pos 0;
  timeout = pos 0;
  max_pids = pos 0;
  max_cpus = finite false 0 (pos 0);
  workspace_size_bytes = pos 0;
  tmp_size_bytes = pos 0;
}

abbrev pub spec_of : Version → VersionSpec
spec_of v = record { image = v.image; run_cmd = v.run_cmd; build_cmd = v.build_cmd }

-- The loop over a language's versions: each is entered under its name, and then its image (Docker)
-- or its root file system (nsjail) must be `available`.
unfoldable pub version_specs :
    (Version → Bool) → Text → Map VersionSpec → Map Version → Result StartError (Map VersionSpec)
version_specs available language specs [] = ok specs
version_specs available language specs ((key, v) ∷ versions) =
    let rest = version_specs available language (insert v.name (spec_of v) specs) versions in
    if available v then rest else err (version_unavailable language v.name)

abbrev pub or_fail {ℓ} :
    {A : Type ℓ} → (LimitError → StartError) → Option LimitError → A → Result StartError A
or_fail f none a = ok a
or_fail f (some e) a = err (f e)

abbrev pub or_missing : Text → Option Version → Result StartError Version
or_missing name none = err (default_version_not_found name)
or_missing name (some v) = ok v

abbrev pub default_of : Language → Result StartError Version
default_of l = or_missing l.name (lookup l.default_version l.versions)

abbrev pub entry_of : Language → Text → LangCompileLimits → Map VersionSpec → LangEntry
entry_of l default_name compile_limits versions = record {
  default_version = default_name;
  lang_type = l.kind;
  filename = l.filename;
  env = l.env;
  limits = resolve_lang_limits l.limits;
  compile_limits = compile_limits;
  versions = versions;
}

abbrev with_versions :
    (Version → Bool) → Language → Version → LangCompileLimits → Result StartError LangEntry
with_versions available l v compile_limits =
    version_specs available l.name [] l.versions >>= λ versions.
    ok (entry_of l v.name compile_limits versions)

-- The body of the loop of `NewDockerSandbox`.
unfoldable pub docker_entry : (Version → Bool) → Language → Result StartError LangEntry
docker_entry available l = do
  v ← default_of l
  limits ←
      or_fail (invalid_limits l.name) (validate_lang_limits (resolve_lang_limits l.limits))
        (resolve_lang_limits l.limits)
  with_versions available l v no_compile_limits

-- The body of the loop of `NewNsjailSandbox`.
unfoldable pub nsjail_entry : (Version → Bool) → Language → Result StartError LangEntry
nsjail_entry available l = do
  v ← default_of l
  limits ←
      or_fail (invalid_limits l.name) (validate_lang_limits (resolve_lang_limits l.limits))
        (resolve_lang_limits l.limits)
  compile_limits ←
      or_fail (invalid_compile_limits l.name)
        (validate_lang_compile_limits (resolve_lang_compile_limits l.compile_limits))
        (resolve_lang_compile_limits l.compile_limits)
  with_versions available l v compile_limits

-- The files that the root file system of a version must have, where `exists` is `os.Stat`.
unfoldable pub rootfs_available : (List Text → Bool) → List Text → Text → Version → Bool
unfolding join_path
rootfs_available exists rootfs_root language v =
    let root = join_path (join_path rootfs_root language) v.name in
    exists root
    && (exists (join_path root (text "/wrapper.sh"))
        && (exists (join_path root (text "/sandbox"))
            && (exists (join_path root (text "/input")) && exists (join_path root (text "/tmp")))))

-- The table: each entry stands under the language's name. (Docker fills it by goroutines, one for
-- each language; names that occur twice are not told apart here.)
unfoldable pub make_entries :
    (Language → Result StartError LangEntry)
    → Map LangEntry
    → Map Language
    → Result StartError (Map LangEntry)
make_entries make specs [] = ok specs
make_entries make specs ((key, l) ∷ languages) =
    make l >>= λ e. make_entries make (insert l.name e specs) languages

-- The common part of the two `lookupSpec`s: the entry, the version that is meant, and its spec.
unfoldable pub with_spec :
    LangEntry → Text → Option VersionSpec → Lookup (LangEntry × Text × VersionSpec)
with_spec entry v none = refused unsupported_version
with_spec entry v (some vs) = found (entry, v, vs)

unfoldable pub with_entry : Text → Option LangEntry → Lookup (LangEntry × Text × VersionSpec)
with_entry version none = refused unsupported_language
with_entry version (some entry) =
    let v : Text = if is_empty version then entry.default_version else version in
    with_spec entry v (lookup v entry.versions)

unfoldable pub lookup_spec : Map LangEntry → Text → Text → Lookup (LangEntry × Text × VersionSpec)
lookup_spec specs lang version = with_entry version (lookup lang specs)

unfoldable pub lang_spec : Map LangEntry → Text → Text → Lookup LangSpec
lang_spec specs lang version = elim (lookup_spec specs lang version) [
  | refused e ↦ refused e
  | found (entry, v, vs) ↦ found (record { filename = entry.filename; limits = entry.limits })
]

abbrev names {ℓ} : {A : Type ℓ} → Map A → List Text
names [] = []
names ((k, a) ∷ m) = k ∷ names m

unfoldable pub info : Map LangEntry → List LanguageInfo
info [] = []
info ((name, entry) ∷ specs) =
    record {
      name = name;
      default_version = entry.default_version;
      versions = names entry.versions;
      filename = entry.filename;
      limits = entry.limits;
    }
    ∷ info specs
