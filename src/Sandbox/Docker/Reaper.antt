-- ===== src/Sandbox/Docker/Reaper.antt =====
-- internal/sandbox/docker.go: `reapOrphans`, which removes the containers that a run left behind, and
-- `ensureImage`, which the backend calls for each image when it starts.
pub mod Age
use runboxd.Base.{
  ℕ, ◌-◌, ◌*◌, ◌/◌, Bool, true, false, Option, none, some, List, [], ◌∷◌, leb, if◌then◌else◌,
}
use runboxd.Base.Int.{ℤ, pos, negsuc, leb_ℤ}
use runboxd.Base.Text.{Text}

-- Nanoseconds since 1970, or of a duration.
abbrev pub second : ℕ
second = 1000000000

abbrev pub reap_max_age : ℕ
reap_max_age = 60000000000

-- now.Add(-maxAge).Unix(), rounded down.
unfoldable pub unix_before : (now max_age : ℕ) → ℤ
unix_before now max_age =
    if leb max_age now
    then pos ((now - max_age) / second)
    else negsuc ((max_age - now - 1) / second)

-- `created` is in seconds.
unfoldable pub is_orphan : (created : ℤ) → (now max_age : ℕ) → Bool
is_orphan created now max_age = leb_ℤ created (unix_before now max_age)

pub record Listed : Type 0 where
  pub id : Text
  pub created : ℤ

-- The containers that are removed, of those with the label of the backend.
unfoldable pub orphans : List Listed → (now max_age : ℕ) → List Text
orphans [] now max_age = []
orphans (c ∷ cs) now max_age =
    let rest = orphans cs now max_age in
    if is_orphan c.created now max_age then c.id ∷ rest else rest

-- The result of `ContainerList` is none where it fails.
unfoldable pub reap_orphans : Option (List Listed) → (now max_age : ℕ) → List Text
reap_orphans none now max_age = []
reap_orphans (some items) now max_age = orphans items now max_age

unfoldable pub reap : Option (List Listed) → (now : ℕ) → List Text
reap listed now = reap_orphans listed now reap_max_age

-- `ImageInspect`.
pub data InspectEnd : Type 0 where
  present not_found failed : InspectEnd

pub data ImageCall : Type 0 where
  inspect_image pull_image drain close_reader : ImageCall

-- The calls, and whether the image is there. `pulls` and `drains` say whether the pull starts and
-- whether it comes to its end.
unfoldable pub ensure_image : InspectEnd → (pulls drains : Bool) → List ImageCall × Bool
ensure_image present pulls drains = (inspect_image ∷ [], true)
ensure_image failed pulls drains = (inspect_image ∷ [], false)
ensure_image not_found pulls drains =
    if pulls
    then (inspect_image ∷ pull_image ∷ drain ∷ close_reader ∷ [], drains)
    else (inspect_image ∷ pull_image ∷ [], false)
