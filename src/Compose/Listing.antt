-- ===== src/Compose/Listing.antt =====
-- The listing of all projects ends, and is complete.
use node_nexus_api.Prelude.{
  ℕ, zero, suc, ◌+◌, ◌-◌, ◌*◌, min, ◌≤◌, ◌<◌, Bool, true, false, some, List, [], ◌∷◌, ◌++◌, ltb,
  length, take, drop, if◌then◌else◌, ◌≡◌, refl, sym, ap, ◌∙◌, arith, append_assoc, take-append-drop,
  drop-drop, length-take, length-drop,
}
use node_nexus_api.Compose.{list_from, list_all_projects}

-- A table that is read by an offset and a limit.
abbrev pub rows_at : {A : Type 0} → List A → ℕ → ℕ → List A
rows_at rows offset limit = take limit (drop offset rows)

not_short : (m : ℕ) → ltb m 100 ≡ false → 100 ≤ m
not_short m h = ground arith

is_short : (m : ℕ) → ltb m 100 ≡ true → m < 100
is_short m h = ground arith

module _ {A : Type 0} where
  take-short : (n : ℕ) (xs : List A) → length (take n xs) < n → take n xs ≡ xs
  take-short zero xs h = absurd (omega (arith, h))
  take-short (suc n) [] h = refl
  take-short (suc n) (x ∷ xs) h = ap (λ (ys : List A). x ∷ ys) (take-short n xs (omega (arith, h)))

  list_from_complete :
      (rows : List A) (turns offset : ℕ) (all_items : List A)
      → offset ≤ length rows
      → length rows < offset + 100 * turns
      → list_from (rows_at rows) turns offset all_items ≡ some (all_items ++ drop offset rows)
  unfolding list_from
  list_from_complete rows zero offset all_items l h = absurd (omega (arith, l, h))
  list_from_complete rows (suc turns) offset all_items l h =
      by (ltb (length (take 100 (drop offset rows))) 100) refl (λ room.
        list_from_complete rows turns (offset + 100) (all_items ++ take 100 (drop offset rows)) room
          (omega (arith, h)))
    where
      n : length (take 100 (drop offset rows)) ≡ min 100 (length rows - offset)
      n = length-take 100 (drop offset rows) ∙ ap (min 100) (length-drop offset rows)

      by :
          (b : Bool)
          → ltb (length (take 100 (drop offset rows))) 100 ≡ b
          → (offset + 100 ≤ length rows
              → list_from
                  (rows_at rows)
                  turns
                  (offset + 100)
                  (all_items ++ take 100 (drop offset rows))
                ≡ some ((all_items ++ take 100 (drop offset rows)) ++ drop (offset + 100) rows))
          → (if b
              then some (all_items ++ take 100 (drop offset rows))
              else list_from
                  (rows_at rows)
                  turns
                  (offset + 100)
                  (all_items ++ take 100 (drop offset rows)))
            ≡ some (all_items ++ drop offset rows)
      by true short ih =
          ap (λ (xs : List A). some (all_items ++ xs))
            (take-short 100 (drop offset rows)
              (is_short (length (take 100 (drop offset rows))) short))
      by false full ih =
          ih room
          ∙ ap (λ (xs : List A). some xs)
              (append_assoc all_items (take 100 (drop offset rows)) (drop (offset + 100) rows)
                ∙ ap (λ (xs : List A). all_items ++ xs) rest)
        where
          room : offset + 100 ≤ length rows
          room =
              let m = not_short (length (take 100 (drop offset rows))) full in omega (arith, n, m)

          rest : take 100 (drop offset rows) ++ drop (offset + 100) rows ≡ drop offset rows
          rest =
              ap (λ (xs : List A). take 100 (drop offset rows) ++ xs)
                (sym (drop-drop 100 offset rows))
              ∙ take-append-drop 100 (drop offset rows)

  -- If the table does not change in between, `list_all_projects` returns after at most one turn more than the table has full pages of 100, with every project of the node, once and in the order of the table.
  pub list_all_projects_complete :
      (rows : List A) (turns : ℕ)
      → length rows < 100 * turns
      → list_all_projects (rows_at rows) turns ≡ some rows
  unfolding list_all_projects
  list_all_projects_complete rows turns h =
      list_from_complete rows turns 0 [] (omega arith) (omega (arith, h))
