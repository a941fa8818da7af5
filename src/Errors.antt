-- ===== src/Errors.antt =====
-- app/core/error_sanitize.py and `domain_error_handler` of app/api/error_mapping.py: the status and the
-- message of an error of the domain. The handlers of app/main.py for other exceptions are left out. The slug of the code and the phrase of a status are parameters of the response's content
-- and are left out; logging is left out.
pub mod Tables
pub mod Responses
mod Tests
use node_nexus_api.Prelude.{
  ℕ, zero, suc, String, Bool, true, false, Option, none, some, List, [], ◌∷◌, leb, if◌then◌else◌,
}
use node_nexus_api.Dict.{Dict, get}
use node_nexus_api.Errors.Tables.{bases, domain_error_status, public_error_messages}

-- The classes from a class up to `Exception`; no chain in the table is longer than three.
unfoldable pub mro : ℕ → String → List String
mro zero cls = []
mro (suc depth) cls = elim (get bases cls) [ none ↦ cls ∷ [] | some base ↦ cls ∷ mro depth base ]

-- The first class of a list that has an entry.
unfoldable pub status_walk : List String → ℕ
status_walk [] = 422
status_walk (cls ∷ classes) =
    let rest = status_walk classes in
    elim (get domain_error_status cls) [ none ↦ rest | some code ↦ code ]

unfoldable pub status_for_domain_error : String → ℕ
status_for_domain_error cls = status_walk (mro 4 cls)

-- An exception: of a class of the domain, or any other, with its text.
pub data Raised : Type 0 where
  domain : (cls text : String) → Raised
  unexpected : (cls text : String) → Raised

abbrev pub or_else : Option String → String → String
or_else none s = s
or_else (some t) s = t

unfoldable pub sanitize_bulk_error : Raised → String
sanitize_bulk_error (unexpected cls text) = "Internal error"
sanitize_bulk_error (domain cls text) =
    if leb 500 (status_for_domain_error cls)
    then or_else (get public_error_messages cls) "Internal server error"
    else or_else (get public_error_messages cls) text

-- What the client gets: `problem_content` without its constant parts.
pub record Problem : Type 0 where
  pub status : ℕ
  pub code : String
  pub detail : String
  pub request_id : Option String
  pub path : String

unfoldable pub domain_error_handler : Option String → String → String → String → Problem
domain_error_handler request_id path cls text =
    let status_code = status_for_domain_error cls in
    record {
      status = status_code;
      code = cls;
      detail =
          if leb 500 status_code
          then or_else (get public_error_messages cls) "Internal server error"
          else or_else (get public_error_messages cls) text;
      request_id = request_id;
      path = path;
    }
