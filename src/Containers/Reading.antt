-- ===== src/Containers/Reading.antt =====
-- The arguments of the container operations that are put together from validated values, and the words that
-- a shell reads in them.
use mathlib.Core.Path.{subst}
use node_nexus_api.Prelude.{
  ℕ, true, Option, none, some, List, [], ◌∷◌, ◌++◌, map, Text, codes, ◌≡◌, refl, ap, ◌∙◌, all_of,
  append_assoc,
}
use node_nexus_api.Shell.{is_safe, word, shell_words, step, quote}
use node_nexus_api.Shell.Lines.{
  Reads, Extends, AllRead, Reads-quote, Extends-quote, Extends-safe, Reads-append, Reads-plain,
  is_nonempty,
}
use node_nexus_api.Validation.{validate_container_id}
use node_nexus_api.Validation.References.{references_safe}
use node_nexus_api.Containers.{flag}
use node_nexus_api.Containers.Create.{flat, published_port, mounted_volume, labelled, env_flag}
use node_nexus_api.Containers.Requests.{option}

-- Literal parts are read as they stand.
pub Reads-literal : (s : Text) → is_nonempty s ≡ true → all_of is_safe s ≡ true → Reads s s
Reads-literal s n h = Reads-plain s n h

pub Reads-json : Reads (codes "'{{json .}}'") (codes "{{json .}}")
unfolding shell_words step
Reads-json rest = refl

pub AllRead-append :
    (ps ws qs vs : List Text) → AllRead ps ws → AllRead qs vs → AllRead (ps ++ qs) (ws ++ vs)
AllRead-append [] [] qs vs h k = k
AllRead-append [] (w ∷ ws) qs vs h k = absurd h
AllRead-append (p ∷ ps) [] qs vs h k = absurd h
AllRead-append (p ∷ ps) (w ∷ ws) qs vs h k = (h.0, AllRead-append ps ws qs vs h.1 k)

-- A container id that is accepted is returned as it is, and is read as it stands.
pub id-Reads : (s t : Text) → validate_container_id s ≡ some t → Reads t s
id-Reads s t h =
    let safe = (references_safe s t).0 h in
    subst (Reads t) safe.unchanged (Reads-plain t safe.nonempty safe.safe)

pub glued :
    (t id path : Text)
    → Reads t id
    → Reads (t ++ (codes ":" ++ quote path)) (id ++ (codes ":" ++ path))
unfolding is_safe
glued t id path r = Reads-append t (codes ":" ++ quote path) id (codes ":" ++ path) r colon
  where
    colon : Extends (codes ":" ++ quote path) (codes ":" ++ path)
    colon acc rest =
        Extends-safe (codes ":") refl acc (quote path ++ rest)
        ∙ (Extends-quote path (acc ++ codes ":") rest
            ∙ ap (λ (u : Text). shell_words word u rest) (append_assoc acc (codes ":") path))

-- An option with its value.
pub read-flag :
    (name : Text) (o : Option Text)
    → is_nonempty name ≡ true
    → all_of is_safe name ≡ true
    → AllRead (flag name o) (option name o)
read-flag name none n h = tt
read-flag name (some v) n h = (Reads-literal name n h, (Reads-quote v, tt))

-- An option once for each element of a list.
pub read-flat :
    {A : Type 0} (f g : A → List Text)
    → ((a : A) → AllRead (f a) (g a))
    → (items : List A) → AllRead (flat (map f items)) (flat (map g items))
read-flat f g h [] = tt
read-flat f g h (a ∷ items) =
    AllRead-append (f a) (g a) (flat (map f items)) (flat (map g items)) (h a)
      (read-flat f g h items)

-- What two quoted texts with a character between them add to a word.
extend-quoted :
    (d : ℕ) (t : Text) → is_safe d ≡ true → Extends ((d ∷ []) ++ quote t) ((d ∷ []) ++ t)
extend-quoted d t h acc rest =
    Extends-safe (d ∷ []) (rw h refl) acc (quote t ++ rest)
    ∙ (Extends-quote t (acc ++ d ∷ []) rest
        ∙ ap (λ (u : Text). shell_words word u rest) (append_assoc acc (d ∷ []) t))

pair-Reads : (s t : Text) → Reads (quote s ++ (codes ":" ++ quote t)) (s ++ (codes ":" ++ t))
unfolding is_safe
pair-Reads s t =
    Reads-append (quote s) (codes ":" ++ quote t) s (codes ":" ++ t) (Reads-quote s)
      (extend-quoted b':' t refl)

pub port-Reads :
    (p : Text × Text) → AllRead (published_port p) (codes "-p" ∷ (p.1 ++ (codes ":" ++ p.0)) ∷ [])
unfolding is_safe
port-Reads (container_spec, host_port) =
    (Reads-literal (codes "-p") refl refl, (pair-Reads host_port container_spec, tt))

Extends-append : (s t v w : Text) → Extends s v → Extends t w → Extends (s ++ t) (v ++ w)
Extends-append s t v w r e acc rest =
    ap (shell_words word acc) (append_assoc s t rest)
    ∙ (r acc (t ++ rest)
        ∙ (e (acc ++ v) rest ∙ ap (λ (u : Text). shell_words word u rest) (append_assoc acc v w)))

pub volume-Reads :
    (v : Text × Text × Text)
    → AllRead
        (mounted_volume v)
        (codes "-v" ∷ (v.0 ++ (codes ":" ++ (v.1 ++ (codes ":" ++ v.2)))) ∷ [])
unfolding is_safe
volume-Reads (host, bind, mode) = (Reads-literal (codes "-v") refl refl, (whole, tt))
  where
    whole :
        Reads
          (quote host ++ (codes ":" ++ (quote bind ++ (codes ":" ++ quote mode))))
          (host ++ (codes ":" ++ (bind ++ (codes ":" ++ mode))))
    whole =
        Reads-append (quote host) (codes ":" ++ (quote bind ++ (codes ":" ++ quote mode))) host
          (codes ":" ++ (bind ++ (codes ":" ++ mode))) (Reads-quote host)
          (Extends-append (codes ":") (quote bind ++ (codes ":" ++ quote mode)) (codes ":")
            (bind ++ (codes ":" ++ mode)) (Extends-safe (codes ":") refl)
            (Extends-append (quote bind) (codes ":" ++ quote mode) bind (codes ":" ++ mode)
              (Extends-quote bind) (extend-quoted b':' mode refl)))

pub label-Reads :
    (l : Text × Text) → AllRead (labelled l) (codes "--label" ∷ (l.0 ++ (codes "=" ++ l.1)) ∷ [])
unfolding is_safe
label-Reads (key, value) =
    (Reads-literal (codes "--label") refl refl, (Reads-quote (key ++ (codes "=" ++ value)), tt))

pub env-Reads : (e : Text) → AllRead (env_flag e) (codes "-e" ∷ e ∷ [])
unfolding is_safe
env-Reads e = (Reads-literal (codes "-e") refl refl, (Reads-quote e, tt))

pub all-quoted : (ws : List Text) → AllRead (map quote ws) ws
all-quoted [] = tt
all-quoted (v ∷ ws) = (Reads-quote v, all-quoted ws)
