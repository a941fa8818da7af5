-- ===== src/System.antt =====
-- app/application/services/docker/system_service.py, on the traces of Docker/Runs.
pub mod Commands
mod Reports
mod Tests
use node_nexus_api.Prelude.{
  ℕ, String, Bool, true, false, Option, none, some, List, [], ◌∷◌, ◌++◌, map, keep_if, Text, codes,
  contains_text, starts_with, if◌then◌else◌, ◌==◌,
}
use node_nexus_api.Shell.Lines.{join, is_nonempty}
use node_nexus_api.Validation.{split_at}
use node_nexus_api.Docker.Runs.{
  Output, World, index_error, attribute_error, Op, ◌>>=◌, ◌>>◌, pure, raise, raise_for, log, call,
}
use node_nexus_api.Containers.{Python, json_format}

-- `json.loads` of a line: an object, another value, or no JSON.
pub data Loaded (Item : Type 0) : Type 0 where
  object : Item → Loaded Item
  other : Loaded Item
  no_json : Loaded Item

-- DockerPruneResultDTO
pub record PruneResult : Type 0 where
  pub containers_deleted : List Text
  pub images_deleted : List Text
  pub space_reclaimed : Text

pub data Reply (Item : Type 0) : Type 0 where
  item : Item → Reply Item
  items : List Item → Reply Item
  pruned : PruneResult → Reply Item

-- `s.split(d)`, with the part that is being read
unfoldable pub parts_of : ℕ → Text → Text → List Text
parts_of d part [] = part ∷ []
parts_of d part (c ∷ s) =
    let ends = parts_of d [] s in
    let goes = parts_of d (part ++ c ∷ []) s in if c == d then part ∷ ends else goes

module _ {Item : Type 0} (py : Python Item) where
  -- The ids behind the colon of a line that begins with `Deleted`.
  unfoldable pub deleted_ids : Text → List Text
  deleted_ids rest = keep_if is_nonempty (map py.strip (parts_of b',' [] rest))

  abbrev pub deleted_after : Text → List Text → List Text
  deleted_after line deleted = elim (split_at b':' line) [
    | none ↦ deleted
    | some (label, rest) ↦ deleted_ids rest
  ]

  abbrev pub space_of : Text → Text
  space_of line = elim (split_at b':' line) [
    | none ↦ py.strip line
    | some (label, rest) ↦ py.strip rest
  ]

  -- The loop of a prune over the lines of its output: the ids, and the space. `label` is the part of a line
  -- that the word `Deleted` is looked for in.
  module _ (lower label : Text → Text) where
    unfoldable pub report : List Text → List Text × Text → List Text × Text
    report [] found = found
    report (line ∷ lines) (deleted, space) = report lines (
      if starts_with (codes "Deleted") (label line) then deleted_after line deleted else deleted,
      if contains_text (codes "reclaimed") (lower line) then space_of line else space,
    )

  abbrev pub reported : (Text → Text) → Output → World → List Text × Text
  reported label out w = report w.lower label (py.lines (py.strip out.stdout)) ([], [])

  -- The first item, and what is raised when there is none.
  abbrev pub first_or : Text → List Item → Op (Reply Item)
  first_or message [] = raise_for message 1 >> raise index_error
  first_or message (i ∷ rest) = pure (item i)

  unfoldable pub info : Op (Reply Item)
  info = do
    out ← call (join (codes "info" ∷ json_format)) 30
    first_or (codes "docker info returned empty output") (py.parse_json_array out.stdout)

  -- A value that is no object has no `get`.
  unfoldable pub usage : (Text → Loaded Item) → List Text → Option (List Item)
  usage load [] = some []
  usage load (line ∷ lines) =
      let rest = usage load lines in
      elim (load line) [
        | object i ↦ elim rest [ none ↦ none | some found ↦ some (i ∷ found) ]
        | other ↦ none
        | no_json ↦ rest
      ]

  abbrev pub usage_reply : Option (List Item) → Op (Reply Item)
  usage_reply none = raise attribute_error
  usage_reply (some found) = pure (items found)

  unfoldable pub disk_usage : (Text → Loaded Item) → Op (Reply Item)
  disk_usage load = do
    out ← call (join (codes "system" ∷ codes "df" ∷ json_format)) 30
    usage_reply (
        usage load (keep_if (λ line. is_nonempty (py.strip line)) (py.lines (py.strip out.stdout))))

  unfoldable pub prune_containers : Op (Reply Item)
  prune_containers = do
    out ← call (join (codes "container" ∷ codes "prune" ∷ codes "-f" ∷ [])) 30
    log "docker.containers.prune"
    λ w.
        pure
          (pruned (record {
            containers_deleted = (reported (λ line. line) out w).0;
            images_deleted = [];
            space_reclaimed = (reported (λ line. line) out w).1;
          }))
          w

  unfoldable pub prune_images : Op (Reply Item)
  prune_images = do
    out ← call (join (codes "image" ∷ codes "prune" ∷ codes "-f" ∷ [])) 30
    log "docker.images.prune"
    λ w.
        pure
          (pruned (record {
            containers_deleted = [];
            images_deleted = (reported (λ line. line) out w).0;
            space_reclaimed = (reported (λ line. line) out w).1;
          }))
          w

  abbrev pub found_or : List Item → List Item → List Item
  found_or [] others = others
  found_or (i ∷ found) others = i ∷ found

  unfoldable pub version : Op (Reply Item)
  version = do
    out ← call (join (codes "version" ∷ json_format)) 30
    first_or (codes "docker version returned empty output")
        (found_or (py.parse_json_array out.stdout) (py.parse_json_lines out.stdout))

  unfoldable pub system_prune : Bool → Op (Reply Item)
  system_prune volumes = do
    out ←
        call
          (join (
            codes "system"
            ∷ codes "prune"
            ∷ codes "-f"
            ∷ (if volumes then codes "--volumes" ∷ [] else [])))
          30
    log "docker.system.prune"
    λ w.
        pure
          (pruned (record {
            containers_deleted = (reported py.strip out w).0;
            images_deleted = (reported py.strip out w).0;
            space_reclaimed = (reported py.strip out w).1;
          }))
          w
