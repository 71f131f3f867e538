-- ===== src/Images/Lock.antt =====
-- cmd/runboxctl/cmd/images/genlock.go: `runGenLock`, which asks for the digest of each base image and
-- writes the lock file. The goroutines that ask change different versions; they are run in the list's
-- order here.
pub mod Pinned
pub mod Command
use runboxd.Base.{
  ℕ, suc, ◌+◌, Bool, true, false, not, ◌&&◌, Option, none, some, List, [], ◌∷◌, ◌++◌, length,
  if◌then◌else◌,
}
use runboxd.Base.Text.{Text, text, is_empty, cut, trim_space}
use runboxd.Base.Map.{Map, lookup, insert}
use runboxd.ImageSpec.Types.{ImageSpec, Version}
use runboxd.Images.Generate.{Lockfile, digest_of}

pub record RefreshFailure : Type 0 where
  pub lang : Text
  pub version : Text
  pub kept : Bool

-- What a goroutine adds: a digest of its version, and a failure.
pub record Refreshed : Type 0 where
  pub digest : Option Text
  pub failure : Option RefreshFailure

-- The output of `docker buildx imagetools inspect`, or none where the command fails.
abbrev pub Inspect : Type 0
Inspect = (base_image : Text) → Option Text

abbrev failed : Text → Text → Bool → Option RefreshFailure
failed lang version kept = some (record { lang = lang; version = version; kept = kept })

-- The body of the goroutine. `curr` is empty where there is no lock file yet.
unfoldable pub refresh :
    Inspect → (drop_stale : Bool) → Lockfile → Text → Text → Version → Refreshed
refresh inspect drop_stale curr lang name version =
    let base_image = (cut version.base_image b'@').0 in
    let existing = digest_of curr lang name in
    if is_empty base_image
    then record { digest = none; failure = failed lang name false }
    else elim (inspect base_image) [
      | some output ↦ record { digest = some (trim_space output); failure = none }
      | none ↦
          if not drop_stale && not (is_empty existing)
          then record { digest = some existing; failure = failed lang name true }
          else record { digest = none; failure = failed lang name false }
    ]

-- `newLockFile[lang][version] = digest`
abbrev pub languages_of : Option (Map Text) → Map Text
languages_of none = []
languages_of (some m) = m

unfoldable pub set_digest : Text → Text → Text → Lockfile → Lockfile
set_digest lang version digest lock =
    insert lang (insert version digest (languages_of (lookup lang lock))) lock

-- The lock file and the failures so far.
pub record Progress : Type 0 where
  pub lock : Lockfile
  pub failures : List RefreshFailure

unfoldable pub add : Text → Text → Refreshed → Progress → Progress
add lang name r p = record {
  lock = elim r.digest [ none ↦ p.lock | some digest ↦ set_digest lang name digest p.lock ];
  failures = elim r.failure [ none ↦ p.failures | some f ↦ f ∷ p.failures ];
}

-- The versions of one language, and the languages.
unfoldable pub refresh_versions :
    Inspect → Bool → Lockfile → Text → Map Version → Progress → Progress
refresh_versions inspect drop_stale curr lang [] p = p
refresh_versions inspect drop_stale curr lang ((name, version) ∷ versions) p =
    add lang name (refresh inspect drop_stale curr lang name version)
      (refresh_versions inspect drop_stale curr lang versions p)

unfoldable pub refresh_all : Inspect → Bool → Lockfile → List ImageSpec → Progress → Progress
refresh_all inspect drop_stale curr [] p = p
refresh_all inspect drop_stale curr (spec ∷ specs) p =
    refresh_versions inspect drop_stale curr spec.name spec.versions
      (refresh_all inspect drop_stale curr specs p)

-- The counts of the last message, kept and unpinned; none where nothing failed. The lock file is
-- written in both cases.
abbrev count_kept : List RefreshFailure → ℕ
count_kept [] = 0
count_kept (f ∷ fs) = if f.kept then suc (count_kept fs) else count_kept fs

abbrev count_unpinned : List RefreshFailure → ℕ
count_unpinned [] = 0
count_unpinned (f ∷ fs) = if f.kept then count_unpinned fs else suc (count_unpinned fs)

abbrev pub summary : List RefreshFailure → Option (ℕ × ℕ)
summary [] = none
summary (f ∷ fs) = some (count_kept (f ∷ fs), count_unpinned (f ∷ fs))

-- What is written, and the error.
unfoldable pub gen_lock : Inspect → Bool → Lockfile → List ImageSpec → Lockfile × Option (ℕ × ℕ)
gen_lock inspect drop_stale curr specs =
    let p = refresh_all inspect drop_stale curr specs (record { lock = []; failures = [] }) in
    (p.lock, summary p.failures)
