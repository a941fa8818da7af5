-- ===== src/Pagination/Pages.antt =====
-- Which rows a page holds, and what a client collects that follows the cursors.
use node_nexus_api.Prelude.{
  ℕ, zero, suc, append-nil, ◌+◌, ◌*◌, ◌-◌, ◌/◌, ◌%◌, ◌<◌, ◌≤◌, true, false, none, some, List, [],
  ◌∷◌, ltb, ◌==◌, ==_iff, ◌∙◌, length, take, drop, length-take, length-drop, take-append-drop,
  take-nil, drop-drop, if◌then◌else◌, ◌≡◌, refl, sym, ap, ◌⊎◌, inl, inr, arith, Bool-cases, ◌↔◌,
}
use native.Mathlib.Nat.{div-add-mod, suc-add, mul-add, mul_comm, div-eq_of_lt, add-mod_right}
use node_nexus_api.Pagination.{
  pagination_params, cursor_next, fetch_page, cut_page, list_page, follow,
}

module _ {ℓ} {A : Type ℓ} where
  drop-take : (m n : ℕ) (xs : List A) → drop n (take (n + m) xs) ≡ take m (drop n xs)
  drop-take m zero xs = ap (λ i. take i xs) (omega arith)
  drop-take m (suc n) [] = rw (take-nil m, take-nil (suc n + m)) refl
  drop-take m (suc n) (x ∷ xs) =
      ap (λ i. drop (suc n) (take i (x ∷ xs))) (suc-add n m) ∙ drop-take m n xs

  take-take : (m : ℕ) (xs : List A) → take m (take m xs) ≡ take m xs
  take-take zero xs = refl
  take-take (suc m) [] = refl
  take-take (suc m) (x ∷ xs) = rw (take-take m xs)

  take-all : (m : ℕ) (xs : List A) → length xs ≤ m → take m xs ≡ xs
  take-all zero [] h = refl
  take-all zero (x ∷ xs) h = absurd (omega arith)
  take-all (suc m) [] h = refl
  take-all (suc m) (x ∷ xs) h = ap (λ ys. x ∷ ys) (take-all m xs (omega arith))

  drop-all : (m : ℕ) (xs : List A) → length xs ≤ m → drop m xs ≡ []
  drop-all zero [] h = refl
  drop-all zero (x ∷ xs) h = absurd (omega arith)
  drop-all (suc m) [] h = refl
  drop-all (suc m) (x ∷ xs) h = drop-all m xs (omega arith)

-- Where the page of a cursor starts: at its offset, if the pages before it are whole.
abbrev pub page_start : ℕ → ℕ → ℕ
page_start offset limit = offset + (offset / limit) * (offset % limit)

cancel : (n : ℕ) → n + 1 - 1 ≡ n
cancel n = omega arith

start-lem :
    (offset limit : ℕ)
    → 0 < limit
    → (offset / limit + 1 - 1) * (limit + offset % limit) + offset % limit ≡ page_start offset limit
start-lem offset limit h = simp (cancel) (
    omega (
      arith,
      div-add-mod offset limit,
      mul-add (offset / limit) limit (offset % limit),
      mul_comm (offset / limit) limit,
    ))

whole-start :
    (offset limit : ℕ)
    → 0 < limit
    → offset % limit ≡ 0
    → (offset / limit + 1 - 1) * limit ≡ page_start offset limit
whole-start offset limit h r =
    rw r (simp (cancel) (omega (arith, div-add-mod offset limit, mul_comm (offset / limit) limit)))

module _ {ℓ} {A : Type ℓ} where
  -- For any rows, offset and positive limit, the page holds the rows from `page_start` on, at most `limit`
  -- of them: it starts `(offset / limit) * (offset % limit)` rows behind the offset of its cursor.
  pub page_items :
      (rows : List A) (offset limit : ℕ)
      → 0 < limit
      → (list_page rows offset limit).items ≡ take limit (drop (page_start offset limit) rows)
  unfolding list_page cut_page fetch_page pagination_params
  page_items rows offset limit h = elim (Bool-cases (offset % limit == 0)) [
    | inl z ↦
        rw (positive-limit, z)
          (ap (λ i. take limit (drop i rows))
            (whole-start offset limit h ((==_iff (offset % limit) 0).0 z)))
    | inr z ↦
        rw (positive-limit, z)
          (ap (take limit) (
              ap (λ i. drop (offset % limit) (take i (drop start rows))) (omega arith)
              ∙ drop-take limit (offset % limit) (drop start rows))
            ∙ (take-take limit (drop (offset % limit) (drop start rows))
                ∙ ap (take limit) (
                    drop-drop (offset % limit) start rows
                    ∙ ap (λ i. drop i rows) (start-lem offset limit h))))
  ]
    where
      positive-limit : (limit == 0) ≡ false
      positive-limit = ground arith

      start : ℕ
      start = (offset / limit + 1 - 1) * (limit + offset % limit)

page_start-aligned :
    (offset limit : ℕ) → (offset % limit ≡ 0) ⊎ (offset < limit) → page_start offset limit ≡ offset
page_start-aligned offset limit (inl r) = rw r (omega arith)
page_start-aligned offset limit (inr l) = rw (div-eq_of_lt l) (omega arith)

next-cursor :
    (offset limit total returned : ℕ)
    → (cursor_next offset limit total returned).0
      ≡ (if ltb (offset + returned) total then some (offset + limit) else none)
unfolding cursor_next
next-cursor offset limit total returned = refl

has-more :
    (offset limit total returned : ℕ)
    → (cursor_next offset limit total returned).1 ≡ ltb (offset + returned) total
unfolding cursor_next
has-more offset limit total returned = refl

module _ {ℓ} {A : Type ℓ} where
  page-cursor :
      (rows : List A) (offset limit : ℕ) (items : List A)
      → (list_page rows offset limit).items ≡ items
      → ((list_page rows offset limit).has_more ≡ ltb (offset + length items) (length rows))
        × ((list_page rows offset limit).next_cursor
            ≡ (if ltb (offset + length items) (length rows) then some (offset + limit) else none))
  unfolding list_page cursor_next
  page-cursor rows offset limit items e = rw (sym e) (refl, refl)

  last_row :
      (rows : List A) (offset limit : ℕ)
      → offset ≤ length rows
      → ltb (offset + length (take limit (drop offset rows))) (length rows)
        ≡ ltb (offset + limit) (length rows)
  last_row rows offset limit bound =
      rw (length-take limit (drop offset rows), length-drop offset rows) (ground arith)

  -- Under a positive limit, a page whose cursor is not behind the last row, and is a multiple of the limit
  -- or smaller than the limit, holds the rows from its offset on, at most `limit` of them; it says that
  -- there are more exactly when there are, and its next cursor is then its offset plus the limit.
  pub list_page_exact :
      (rows : List A) (offset limit : ℕ)
      → 0 < limit
      → offset ≤ length rows
      → (offset % limit ≡ 0) ⊎ (offset < limit)
      → ((list_page rows offset limit).items ≡ take limit (drop offset rows))
        × (((list_page rows offset limit).has_more ≡ true) ↔ (offset + limit < length rows))
        × ((list_page rows offset limit).next_cursor
            ≡ (if ltb (offset + limit) (length rows) then some (offset + limit) else none))
  list_page_exact rows offset limit h bound aligned =
      let items =
        page_items rows offset limit h
        ∙ ap (λ i. take limit (drop i rows)) (page_start-aligned offset limit aligned) in
      let next = page-cursor rows offset limit (take limit (drop offset rows)) items in
      let last = last_row rows offset limit bound in
      (items, rw (next.0, last) (ground arith), next.1 ∙ rw last)

  -- Under a positive limit, a page whose cursor is in front of some row, but whose `page_start` is behind
  -- the last one, is empty and yet promises more.
  pub unaligned_page_empty :
      (rows : List A) (offset limit : ℕ)
      → 0 < limit
      → offset < length rows
      → length rows ≤ page_start offset limit
      → ((list_page rows offset limit).items ≡ [])
        × ((list_page rows offset limit).has_more ≡ true)
        × ((list_page rows offset limit).next_cursor ≡ some (offset + limit))
  unaligned_page_empty rows offset limit h inside beyond =
      let items =
        page_items rows offset limit h
        ∙ (ap (take limit) (drop-all (page_start offset limit) rows beyond) ∙ take-nil limit) in
      let next = page-cursor rows offset limit [] items in
      (items, next.0 ∙ ground arith, next.1 ∙ ground arith)

  follow-none : (fuel : ℕ) (rows : List A) (limit : ℕ) → follow fuel rows limit none ≡ []
  unfolding follow
  follow-none zero rows limit = refl
  follow-none (suc fuel) rows limit = refl

  follow_from :
      (fuel : ℕ) (rows : List A) (limit offset : ℕ)
      → 0 < limit
      → offset % limit ≡ 0
      → offset ≤ length rows
      → length rows < fuel + offset
      → follow fuel rows limit (some offset) ≡ drop offset rows
  unfolding follow
  follow_from zero rows limit offset h r bound enough = absurd (omega arith)
  follow_from (suc fuel) rows limit offset h r bound enough =
      let page = list_page_exact rows offset limit h bound (inl r) in
      rw (page.0, page.2)
        (elim (Bool-cases (ltb (offset + limit) (length rows))) [
          | inl more ↦
              rw
                (
                  more,
                  follow_from fuel rows limit (offset + limit) h (add-mod_right offset limit ∙ r)
                      (ground arith) (omega arith),
                  sym (drop-drop limit offset rows),
                )
                (take-append-drop limit (drop offset rows))
          | inr last ↦
              rw (last, follow-none fuel rows limit)
                (append-nil (take limit (drop offset rows))
                  ∙ take-all limit (drop offset rows) (rw (length-drop offset rows) (ground arith)))
        ])

  -- Under a positive limit, and with more pages allowed than there are rows, following the cursors from
  -- the start gives every row once, in order.
  pub follow_all :
      (rows : List A) (limit fuel : ℕ)
      → 0 < limit
      → length rows < fuel
      → follow fuel rows limit (some 0) ≡ rows
  unfolding follow
  follow_all rows limit fuel h enough =
      follow_from fuel rows limit 0 h (omega arith) (omega arith) (omega arith)
