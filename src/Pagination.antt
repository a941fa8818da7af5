-- ===== src/Pagination.antt =====
-- app/api/pagination.py and its use in app/api/v2/audit_handlers/listing.py: a page of a listing by an
-- offset cursor, on top of a service that pages by number and size.
pub mod Pages
mod Tests
use node_nexus_api.Prelude.{
  ℕ, zero, suc, ◌++◌, ◌+◌, ◌*◌, ◌-◌, ◌/◌, ◌%◌, Bool, true, false, not, Option, none, some, List, [],
  ◌∷◌, ltb, ◌==◌, length, take, drop, if◌then◌else◌,
}

-- What `pagination_params` returns.
pub record PageParams : Type 0 where
  pub page : ℕ
  pub fetch_size : ℕ
  pub remainder : ℕ

unfoldable pub pagination_params : ℕ → ℕ → PageParams
pagination_params offset limit =
    let remainder = if limit == 0 then 0 else offset % limit in
    record {
      page = if limit == 0 then 1 else offset / limit + 1;
      fetch_size = if remainder == 0 then limit else limit + remainder;
      remainder = remainder;
    }

-- `cursor_next`: the cursor is kept as the offset that it encodes
unfoldable pub cursor_next : ℕ → ℕ → ℕ → ℕ → Option ℕ × Bool
cursor_next offset limit total returned =
    let has_more = ltb (offset + returned) total in
    (if has_more then some (offset + limit) else none, has_more)

-- The rows a service returns for `page` and `size`: `.offset((page - 1) * size).limit(size)`
unfoldable pub fetch_page {ℓ} : {A : Type ℓ} → List A → ℕ → ℕ → List A
fetch_page rows page size = take size (drop ((page - 1) * size) rows)

-- `items[remainder : remainder + limit]` if there is a remainder
unfoldable pub cut_page {ℓ} : {A : Type ℓ} → List A → ℕ → ℕ → List A
cut_page items remainder limit = if remainder == 0 then items else take limit (drop remainder items)

pub record CursorPage {ℓ} (A : Type ℓ) : Type ℓ where
  pub items : List A
  pub next_cursor : Option ℕ
  pub has_more : Bool
  pub limit : ℕ

-- `list_audit_logs`, from the offset of the cursor on
unfoldable pub list_page {ℓ} : {A : Type ℓ} → List A → ℕ → ℕ → CursorPage A
list_page rows offset limit =
    let p = pagination_params offset limit in
    let items = cut_page (fetch_page rows p.page p.fetch_size) p.remainder limit in
    let next = cursor_next offset limit (length rows) (length items) in
    record { items = items; next_cursor = next.0; has_more = next.1; limit = limit }

-- The rows a client gets that follows the cursors from an offset on, at most `fuel` pages.
unfoldable pub follow {ℓ} : {A : Type ℓ} → ℕ → List A → ℕ → Option ℕ → List A
follow zero rows limit cursor = []
follow (suc fuel) rows limit none = []
follow (suc fuel) rows limit (some offset) =
    (list_page rows offset limit).items
    ++ follow fuel rows limit (list_page rows offset limit).next_cursor
