-- ===== src/Resources/Reading.antt =====
-- The arguments of the operations on networks and volumes, and the words that a shell reads in them.
use node_nexus_api.Prelude.{
  Bool, true, false, Option, none, some, List, [], ◌∷◌, Text, codes, if◌then◌else◌, ◌≡◌, refl,
  all_of,
}
use node_nexus_api.Shell.{is_safe, gap, shell_words, quote}
use node_nexus_api.Shell.Lines.{join, AllRead, join_words, Reads-quote, is_nonempty}
use node_nexus_api.Containers.Requests.{option_if_nonempty}
use node_nexus_api.Containers.Reading.{Reads-literal}
use node_nexus_api.Resources.{flag_if, has_own_driver, driver_flag, name_word}
use node_nexus_api.Resources.Requests.{given_name, given_driver}

pub flag_if-Reads :
    (name : Text) (o : Option Text)
    → is_nonempty name ≡ true
    → all_of is_safe name ≡ true
    → AllRead (flag_if name o) (option_if_nonempty name o)
flag_if-Reads name none n h = tt
flag_if-Reads name (some []) n h = tt
flag_if-Reads name (some (c ∷ s)) n h = (Reads-literal name n h, (Reads-quote (c ∷ s), tt))

pub two-Reads : (s t : Text) → AllRead (quote s ∷ quote t ∷ []) (s ∷ t ∷ [])
two-Reads s t = (Reads-quote s, (Reads-quote t, tt))

pub name-Reads : (o : Option Text) → AllRead (name_word o) (given_name o)
name-Reads none = tt
name-Reads (some []) = tt
name-Reads (some (c ∷ s)) = (Reads-quote (c ∷ s), tt)

pub driver-Reads : (driver : Text) → AllRead (driver_flag driver) (given_driver driver)
unfolding is_safe
driver-Reads driver = given (has_own_driver driver)
  where
    given :
        (b : Bool)
        → AllRead
            (if b then codes "--driver" ∷ quote driver ∷ [] else [])
            (if b then codes "--driver" ∷ driver ∷ [] else [])
    given true = (Reads-literal (codes "--driver") refl refl, (Reads-quote driver, tt))
    given false = tt

pub force-Reads :
    (b : Bool)
    → AllRead (if b then codes "--force" ∷ [] else []) (if b then codes "--force" ∷ [] else [])
unfolding is_safe
force-Reads true = (Reads-literal (codes "--force") refl refl, tt)
force-Reads false = tt

-- A command of two words and parts.
pub under :
    (s t : Text)
    → is_nonempty s ≡ true
    → all_of is_safe s ≡ true
    → is_nonempty t ≡ true
    → all_of is_safe t ≡ true
    → (ps ws : List Text) → AllRead ps ws
    → shell_words gap [] (join (s ∷ t ∷ ps)) ≡ some (s ∷ t ∷ ws)
under s t n h m k ps ws reads =
    join_words (s ∷ t ∷ ps) (s ∷ t ∷ ws) (Reads-literal s n h, (Reads-literal t m k, reads))
