-- ===== src/Sandbox/Docker/Container.antt =====
-- internal/sandbox/docker.go: the `container.Config` that `Run` makes, with `envPairs`.
use runboxd.Base.{Bool, false, not, List, [], ◌∷◌, ◌++◌, ◌≡◌, refl, ap}
use mathlib.Core.List.{Permᴰ}
use mathlib.Core.List.Permᴰ as P
use runboxd.Base.Text.{Text, text, is_empty}
use runboxd.Base.Map.{Map}
use runboxd.Base.Sort.{sort_strings, sort_strings-perm}

abbrev pub managed_label : Text
managed_label = text "runboxd.managed"

pub record ContainerConfig : Type 0 where
  pub user : Text
  pub tty : Bool
  pub working_dir : Text
  pub labels : Map Text
  pub env : List Text
  pub attach_stdin : Bool
  pub open_stdin : Bool
  pub stdin_once : Bool

abbrev pairs : Map Text → List Text
pairs [] = []
pairs ((k, v) ∷ m) = (k ++ (text "=" ++ v)) ∷ pairs m

-- Without an environment the result is nil, which is the empty slice to the daemon.
unfoldable pub env_pairs : Map Text → List Text
env_pairs m = sort_strings (pairs m)

-- The fields for the standard input are set if there is one.
unfoldable pub container_config : Map Text → (stdin : Text) → ContainerConfig
container_config env stdin =
    let has_stdin = not (is_empty stdin) in
    record {
      user = text "65534";
      tty = false;
      working_dir = text "/sandbox";
      labels = (managed_label, text "1") ∷ [];
      env = env_pairs env;
      attach_stdin = has_stdin;
      open_stdin = has_stdin;
      stdin_once = has_stdin;
    }

pairs-perm : {m n : Map Text} → Permᴰ m n → Permᴰ (pairs m) (pairs n)
pairs-perm P.nil = P.nil
pairs-perm (P.cons e p) =
    P.cons (ap (λ (b : Text × Text). b.0 ++ (text "=" ++ b.1)) e) (pairs-perm p)
pairs-perm (P.swap e f) =
    P.swap (ap (λ (b : Text × Text). b.0 ++ (text "=" ++ b.1)) e)
      (ap (λ (b : Text × Text). b.0 ++ (text "=" ++ b.1)) f)
pairs-perm (P.trans p q) = P.trans (pairs-perm p) (pairs-perm q)

-- In whatever order Go visits the map of the environment, the container gets the same one.
pub container_config-perm :
    {m n : Map Text} (stdin : Text)
    → Permᴰ m n
    → container_config m stdin ≡ container_config n stdin
unfolding container_config env_pairs
container_config-perm stdin p = rw (sort_strings-perm (pairs-perm p)) refl
