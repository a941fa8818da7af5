-- ===== src/Containers/Checked.antt =====
-- What `create_container` makes of a request that its checks accept.
use mathlib.Core.Path.{subst}
use node_nexus_api.Prelude.{
  ℕ, Bool, true, false, not, Option, none, some, List, [], ◌∷◌, ◌||◌, map, Text, codes,
  if◌then◌else◌, text_eq, ◌≡◌, refl, sym, ap, ◌∙◌, arith, all_of,
}
use node_nexus_api.Shell.{is_safe}
use node_nexus_api.Shell.Lines.{AllRead, is_nonempty}
use node_nexus_api.Validation.{
  validate_image_name, validate_container_name, validate_network_name, validate_restart_policy,
  validate_env_vars, validate_labels, validate_volume_mounts, valid_if, mount, is_volume_path,
  Value,
}
use node_nexus_api.Validation.References.{references_safe}
use node_nexus_api.Validation.Entries.{validate_env_vars_iff, validate_labels_iff}
use node_nexus_api.Validation.Ports.{validate_port_mappings, validate_port_mappings-same}
use node_nexus_api.Docker.Runs.{World, ◌>>=◌, pure, checked}
use node_nexus_api.Docker.Commands.{Call, Within, Within-bind, Within-checked}
use node_nexus_api.Docker.Returns.{Returning, Returning-bind, Returning-checked}
use node_nexus_api.Containers.{Python, flag}
use node_nexus_api.Containers.Create.{
  CreateRequest, dict_of, volume_dict, checked_if_some, checked_if_nonempty, as_spec, as_value,
  label_text, normalize, tokens_of, tokens_of_command,
}
use node_nexus_api.Containers.Requests.{option, option_if_nonempty, command_tokens}
use node_nexus_api.Containers.Reading.{read-flag}

-- A check that returns what it is given.
abbrev pub Keeps : (Text → Option Text) → Type 0
Keeps validate = (s t : Text) → validate s ≡ some t → t ≡ s

pub valid_if-same : (b : Bool) (s t : Text) → valid_if b s ≡ some t → t ≡ s
valid_if-same b s t h = ground arith

pub image-same : Keeps validate_image_name
unfolding validate_image_name
image-same s t h = ground arith

pub policy-same : Keeps validate_restart_policy
unfolding validate_restart_policy
policy-same s t h = valid_if-same _ s t h

pub name-same : Keeps validate_container_name
name-same s t h = ((references_safe s t).1 h).unchanged

pub network-same : Keeps validate_network_name
network-same s t h = ((references_safe s t).2 h).unchanged

pub env-same : (env out : List Text) → validate_env_vars env ≡ some out → out ≡ env
env-same env out h = let e = validate_env_vars_iff env in ground arith

labels-same : (ls out : List (Text × Value)) → validate_labels ls ≡ some out → out ≡ ls
labels-same ls out h = let e = validate_labels_iff ls in ground arith

label_text-of : (ls : List (Text × Text)) → map label_text (map as_value ls) ≡ ls
label_text-of [] = refl
label_text-of ((k, v) ∷ ls) = rw (label_text-of ls) refl

pub label-texts :
    (ls : List (Text × Text)) (out : List (Text × Value))
    → validate_labels (map as_value ls) ≡ some out
    → map label_text out ≡ ls
label-texts ls out h = ap (map label_text) (labels-same (map as_value ls) out h) ∙ label_text-of ls

pub volumes-same :
    (vs out : List (Text × Text × Text))
    → validate_volume_mounts (map as_spec vs) ≡ some out
    → out ≡ vs
unfolding validate_volume_mounts
volumes-same [] out h = ground arith
volumes-same ((host, bind, mode) ∷ vs) out h =
    mounted (is_volume_path host) (is_volume_path bind)
      (text_eq mode (codes "rw") || text_eq mode (codes "ro"))
      (validate_volume_mounts (map as_spec vs)) refl (volumes-same vs) h
  where
    mounted :
        (p q r : Bool) (rest : Option (List (Text × Text × Text)))
        → rest ≡ validate_volume_mounts (map as_spec vs)
        → ((vs1 : List (Text × Text × Text))
            → validate_volume_mounts (map as_spec vs) ≡ some vs1
            → vs1 ≡ vs)
        → (if not p
            then none
            else mount host (if q then some bind else none) (if r then some mode else none) rest)
          ≡ some out
        → out ≡ (host, bind, mode) ∷ vs
    mounted false q r rest e ih k = absurd (cc)
    mounted true false r rest e ih k = absurd (cc)
    mounted true true false rest e ih k = absurd (cc)
    mounted true true true none e ih k = absurd (cc)
    mounted true true true (some vs1) e ih k = let same = ih vs1 (sym e) in ground arith

module _ (name : Text) (n : is_nonempty name ≡ true) (safe : all_of is_safe name ≡ true)
    (validate : Text → Option Text) (keeps : Keeps validate) (w : World) where
  flag-of :
      (s : Text)
      → Returning
          (λ v. AllRead (flag name v) (name ∷ s ∷ []))
          ((checked (validate s) >>= λ v. pure (some v)) w)
  flag-of s =
      Returning-bind (λ v. validate s ≡ some v) w (λ v. pure (some v))
        (λ v. AllRead (flag name v) (name ∷ s ∷ [])) (checked (validate s))
        (Returning-checked (validate s) w)
        (λ v e.
          subst (λ t. AllRead (flag name (some v)) (name ∷ t ∷ [])) (keeps s v e)
            (read-flag name (some v) n safe))

  pub flag-if_some :
      (o : Option Text)
      → Returning (λ v. AllRead (flag name v) (option name o)) (checked_if_some validate o w)
  flag-if_some none = tt
  flag-if_some (some s) = flag-of s

  pub flag-if_nonempty :
      (o : Option Text)
      → Returning
          (λ v. AllRead (flag name v) (option_if_nonempty name o))
          (checked_if_nonempty validate o w)
  flag-if_nonempty none = tt
  flag-if_nonempty (some []) = tt
  flag-if_nonempty (some (c ∷ s)) = flag-of (c ∷ s)

pub tokens-same :
    {Item : Type 0} (py : Python Item) (o : Option Text) (w : World)
    → Returning (λ tokens. tokens ≡ command_tokens py o) (tokens_of_command py o w)
tokens-same py none w = refl
tokens-same py (some []) w = refl
tokens-same py (some (c ∷ s)) w = same (py.split (c ∷ s))
  where
    same :
        (o : Option (List Text))
        → Returning (λ tokens. tokens ≡ elim o [ none ↦ [] | some ts ↦ ts ]) (tokens_of o w)
    same none = tt
    same (some ts) = refl

-- The fields of a request that is ready, which are those that were asked for.
pub record Ready (r r' : CreateRequest) : Type 0 where
  pub image : r'.image ≡ r.image
  pub name : AllRead (flag (codes "--name") r'.name) (option (codes "--name") r.name)
  pub command : r'.command ≡ r.command
  pub ports : r'.ports ≡ dict_of r.ports
  pub volumes : r'.volumes ≡ volume_dict r.volumes
  pub env : r'.env ≡ r.env
  pub labels : r'.labels ≡ dict_of r.labels
  pub network :
      AllRead
        (flag (codes "--network") r'.network)
        (option_if_nonempty (codes "--network") r.network)
  pub restart_policy :
      AllRead
        (flag (codes "--restart") r'.restart_policy)
        (option_if_nonempty (codes "--restart") r.restart_policy)

pub normalize-Ready :
    (is_digit : ℕ → Bool) (r : CreateRequest) (w : World)
    → Returning (Ready r) (normalize is_digit r w)
unfolding normalize is_safe
normalize-Ready is_digit r w =
    let P = Ready r in
    Returning-bind (λ v. validate_image_name r.image ≡ some v) w _ P
      (checked (validate_image_name r.image)) (Returning-checked (validate_image_name r.image) w)
      λ image i.
        Returning-bind _ w _ P (checked_if_some validate_container_name r.name)
          (flag-if_some (codes "--name") refl refl validate_container_name name-same w r.name)
          λ name n.
            Returning-bind (λ v. validate_port_mappings is_digit (dict_of r.ports) ≡ some v) w _ P
              (checked (validate_port_mappings is_digit (dict_of r.ports)))
              (Returning-checked (validate_port_mappings is_digit (dict_of r.ports)) w)
              λ ports p.
                Returning-bind
                  (λ v. validate_volume_mounts (map as_spec (volume_dict r.volumes)) ≡ some v) w _ P
                  (checked (validate_volume_mounts (map as_spec (volume_dict r.volumes))))
                  (Returning-checked (validate_volume_mounts (map as_spec (volume_dict r.volumes)))
                    w)
                  λ volumes v.
                    Returning-bind (λ x. validate_env_vars r.env ≡ some x) w _ P
                      (checked (validate_env_vars r.env))
                      (Returning-checked (validate_env_vars r.env) w)
                      λ env e.
                        Returning-bind
                          (λ x. validate_labels (map as_value (dict_of r.labels)) ≡ some x) w _ P
                          (checked (validate_labels (map as_value (dict_of r.labels))))
                          (Returning-checked (validate_labels (map as_value (dict_of r.labels))) w)
                          λ labels l.
                            Returning-bind _ w _ P
                              (checked_if_nonempty validate_network_name r.network)
                              (flag-if_nonempty (codes "--network") refl refl validate_network_name
                                network-same w r.network)
                              λ network t.
                                Returning-bind _ w _ P
                                  (checked_if_nonempty validate_restart_policy r.restart_policy)
                                  (flag-if_nonempty (codes "--restart") refl refl
                                    validate_restart_policy policy-same w r.restart_policy)
                                  λ restart_policy s. (record {
                                    image = image-same r.image image i;
                                    name = n;
                                    command = refl;
                                    ports =
                                        validate_port_mappings-same is_digit (dict_of r.ports) ports
                                          p;
                                    volumes = volumes-same (volume_dict r.volumes) volumes v;
                                    env = env-same r.env env e;
                                    labels = label-texts (dict_of r.labels) labels l;
                                    network = t;
                                    restart_policy = s;
                                  })

pub Within-if_some :
    (validate : Text → Option Text) (c : Call) (w : World) (o : Option Text)
    → Within c w (checked_if_some validate o w)
Within-if_some validate c w none = tt
Within-if_some validate c w (some s) =
    Within-checked c w (validate s) (λ v. pure (some v)) (λ v e. tt)

Within-if_nonempty :
    (validate : Text → Option Text) (c : Call) (w : World) (o : Option Text)
    → Within c w (checked_if_nonempty validate o w)
Within-if_nonempty validate c w none = tt
Within-if_nonempty validate c w (some []) = tt
Within-if_nonempty validate c w (some (d ∷ s)) = Within-if_some validate c w (some (d ∷ s))

-- The checks run no command.
pub Within-normalize :
    (is_digit : ℕ → Bool) (r : CreateRequest) (c : Call) (w : World)
    → Within c w (normalize is_digit r w)
unfolding normalize
Within-normalize is_digit r c w = Within-checked c w (validate_image_name r.image) _ λ image i.
    Within-bind c w (checked_if_some validate_container_name r.name) _
      (Within-if_some validate_container_name c w r.name)
      λ name. Within-checked c w (validate_port_mappings is_digit (dict_of r.ports)) _ λ ports p.
        Within-checked c w (validate_volume_mounts (map as_spec (volume_dict r.volumes))) _
          λ volumes v. Within-checked c w (validate_env_vars r.env) _ λ env e.
            Within-checked c w (validate_labels (map as_value (dict_of r.labels))) _ λ labels l.
              Within-bind c w (checked_if_nonempty validate_network_name r.network) _
                (Within-if_nonempty validate_network_name c w r.network)
                λ network.
                  Within-bind c w (checked_if_nonempty validate_restart_policy r.restart_policy) _
                    (Within-if_nonempty validate_restart_policy c w r.restart_policy)
                    λ restart_policy. tt
