-- ===== src/Examples/Commands.antt =====
-- cmd/runboxctl/cmd/images: the commands on a registry of two languages, whose passes run in the order
-- opposite to the registry's.
use runboxd.Base.{◌≡◌, refl, true, false, none, some, List, [], ◌∷◌, All}
use mathlib.Core.List.{Permᴰ}
use mathlib.Core.List.Permᴰ as P
use runboxd.Base.Text.{text, text_eq}
use runboxd.Base.Map.{Map}
use runboxd.Base.Result.{Result, ok}
use runboxd.Registry.Types.{Language}
use runboxd.Registry.Filter.{load_filtered}
use runboxd.ImageSpec.Load.{LoadError}
use runboxd.Images.Generate.{missing}
use runboxd.Images.Validate.{load_lang_filter}
use runboxd.Images.Group.{Target, targets, version_targets, run_group, put, AllApart}
use runboxd.Images.Group as G
use runboxd.Images.Build.{context_hash, build_version, build_image}
use runboxd.Images.Build.Cached.{IsCached}
use runboxd.Images.Build.Command as B
use runboxd.Images.Build.Fresh.{Built, run_build_images-fresh}
use runboxd.Images.Build.Fresh as F
use runboxd.Images.Rootfs.{
  is_exported, export_rootfs, export_version, export_tree, fill, make_each, digest_matches,
}
use runboxd.Images.Rootfs.Command as R
use runboxd.Images.Rootfs.Exported.{Exported, run_export_rootfs-ok}
use runboxd.Images.Rootfs.Exported as X
use runboxd.Examples.Run.{language}
use runboxd.Examples.Images.{hash, dir, build_ends, ends, no_rootfs}

abbrev go_language : Language
go_language = record language {
  name = text "go";
  default_version = text "1";
  versions =
      (
        text "1",
        record {
          name = text "1";
          image = text "go:1";
          run_cmd = text "a" ∷ [];
          build_cmd = text "b" ∷ [];
        },
      )
      ∷ [];
}

abbrev languages : Map Language
languages = (text "c", language) ∷ (text "go", go_language) ∷ []

abbrev loaded : Result (List LoadError) (Map Language)
loaded = ok languages

-- The second of two goroutines runs first.
abbrev order : List Target → List Target
order (t ∷ u ∷ ts) = u ∷ t ∷ ts
order (t ∷ []) = t ∷ []
order [] = []

no_filter : load_lang_filter [] false ≡ ok none
unfolding load_lang_filter
no_filter = refl

all_loaded : load_filtered loaded none ≡ ok languages
unfolding load_filtered
all_loaded = refl

ordered : Permᴰ (order (targets languages)) (targets languages)
unfolding targets version_targets
ordered = P.swap refl refl

abbrev builds : B.Outside
builds = record { build_dir = λ entry version. dir; ends = λ entry version. build_ends }

abbrev nothing_built : B.Host
nothing_built = record { hash_files = λ file. missing; images = λ tag. none }

builds-Apart : AllApart F.Apart (order (targets languages))
unfolding targets version_targets text_eq
builds-Apart = G.cons ((refl, refl), tt) (G.cons tt G.nil)

nothing-IsCached : All (λ t. IsCached hash (B.view t nothing_built)) (order (targets languages))
unfolding targets version_targets
nothing-IsCached = ((λ h image file tag. absurd (cc)), (λ h image file tag. absurd (cc), tt))

builds_end : (B.run_build_images hash false builds order loaded [] nothing_built).1 ≡ none
unfolding B.run_build_images B.build_target load_lang_filter load_filtered targets version_targets
    run_group put text_eq build_version build_image context_hash
builds_end = refl

run_build_images-fresh_example :
    All
      (λ t.
        Built hash false builds t
          (B.run_build_images hash false builds order loaded [] nothing_built).0)
      (targets languages)
run_build_images-fresh_example =
    run_build_images-fresh hash false builds order loaded [] none languages nothing_built no_filter
      all_loaded ordered builds-Apart nothing-IsCached builds_end

abbrev exports : R.Outside
exports = record {
  build_dir = λ entry version. dir;
  images = λ tag. some dir;
  ends = λ entry version. ends true;
}

exports-Apart : AllApart X.Apart (order (targets languages))
unfolding targets version_targets text_eq
exports-Apart = G.cons (refl, tt) (G.cons tt G.nil)

exports_end : (R.run_export_rootfs hash false exports order loaded [] (λ d. no_rootfs)).1 ≡ none
unfolding R.run_export_rootfs R.export_target load_lang_filter load_filtered targets version_targets
    run_group put text_eq export_version export_tree fill make_each context_hash digest_matches
    is_exported export_rootfs
exports_end = refl

run_export_rootfs-ok_example :
    All
      (λ t.
        Exported hash false exports
          (λ d. no_rootfs)
          t
          (R.run_export_rootfs hash false exports order loaded [] (λ d. no_rootfs)).0)
      (targets languages)
run_export_rootfs-ok_example =
    run_export_rootfs-ok hash false exports (λ d. no_rootfs) order loaded [] none languages
      no_filter all_loaded ordered exports-Apart exports_end
