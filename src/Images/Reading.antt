-- ===== src/Images/Reading.antt =====
-- The arguments of the image operations, and the words that a shell reads in them.
use mathlib.Core.Path.{subst}
use node_nexus_api.Prelude.{
  Bool, true, false, Option, none, some, List, [], ◌∷◌, ◌++◌, map, Text, codes, if◌then◌else◌, ◌≡◌,
  refl, arith,
}
use node_nexus_api.Shell.{is_safe, gap, shell_words, quote}
use node_nexus_api.Shell.Lines.{Reads, AllRead, join_words, Reads-quote}
use node_nexus_api.Validation.{validate_image_tag, validate_build_arg_key}
use node_nexus_api.Containers.{json_format}
use node_nexus_api.Containers.Create.{flat}
use node_nexus_api.Containers.Requests.{json_words}
use node_nexus_api.Containers.Checked.{Keeps}
use node_nexus_api.Containers.Reading.{Reads-literal, Reads-json, AllRead-append, read-flat}
use node_nexus_api.Images.{build_arg, build_command_args, validate_build_args, BuildRequest}
use node_nexus_api.Images.Requests.{build_words, build_arg_words}

pub tag-same : Keeps validate_image_tag
unfolding validate_image_tag
tag-same s t h = ground arith

pub key-same : Keeps validate_build_arg_key
unfolding validate_build_arg_key
key-same s t h = ground arith

pub build_args-same :
    (args out : List (Text × Text)) → validate_build_args args ≡ some out → out ≡ args
unfolding validate_build_args
build_args-same [] out h = ground arith
build_args-same ((key, value) ∷ args) out h =
    both (validate_build_arg_key key) (validate_build_args args) (key-same key)
      (build_args-same args) h
  where
    both :
        (k : Option Text) (rest : Option (List (Text × Text)))
        → ((t : Text) → k ≡ some t → t ≡ key)
        → ((ts : List (Text × Text)) → rest ≡ some ts → ts ≡ args)
        → (elim k [
          | none ↦ none
          | some t ↦ elim rest [ none ↦ none | some validated ↦ some ((t, value) ∷ validated) ]
        ])
          ≡ some out
        → out ≡ (key, value) ∷ args
    both none rest hk hr e = absurd (cc)
    both (some t) none hk hr e = absurd (cc)
    both (some t) (some ts) hk hr e = let x = hk t refl in let y = hr ts refl in ground arith

-- A quoted name that is kept is read as the name given.
pub kept-Reads :
    (validate : Text → Option Text)
    → Keeps validate
    → (s t : Text) → validate s ≡ some t
    → Reads (quote t) s
kept-Reads validate keeps s t h = subst (Reads (quote t)) (keeps s t h) (Reads-quote t)

pub json-Reads : AllRead json_format json_words
unfolding is_safe
json-Reads = (Reads-literal (codes "--format") refl refl, (Reads-json, tt))

pub build_arg-Reads : (a : Text × Text) → AllRead (build_arg a) (build_arg_words a)
unfolding is_safe
build_arg-Reads (key, value) =
    (Reads-literal (codes "--build-arg") refl refl, (Reads-quote (key ++ (codes "=" ++ value)), tt))

pub build-Reads :
    (r : BuildRequest) → shell_words gap [] (build_command_args r) ≡ some (build_words r)
unfolding build_command_args is_safe
build-Reads r = join_words _ (build_words r) (
  Reads-literal (codes "build") refl refl,
  (
    Reads-literal (codes "--tag") refl refl,
    (
      Reads-quote r.tag,
      AllRead-append (flat (map build_arg r.build_args)) (flat (map build_arg_words r.build_args)) _
          _ (read-flat build_arg build_arg_words build_arg-Reads r.build_args) (tail r.no_cache),
    ),
  ),
)
  where
    tail :
        (b : Bool)
        → AllRead
            ((if b then codes "--no-cache" ∷ [] else []) ++ codes "-" ∷ [])
            ((if b then codes "--no-cache" ∷ [] else []) ++ codes "-" ∷ [])
    tail true =
        (Reads-literal (codes "--no-cache") refl refl, (Reads-literal (codes "-") refl refl, tt))
    tail false = (Reads-literal (codes "-") refl refl, tt)
