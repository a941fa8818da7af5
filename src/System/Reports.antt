-- ===== src/System/Reports.antt =====
-- What a prune reports of the lines that the Docker CLI writes.
use node_nexus_api.Prelude.{
  Bool, true, false, not, List, [], ◌∷◌, Text, codes, starts_with, all_of, if◌then◌else◌, ◌≡◌, refl,
  &&-eq-true,
}
use node_nexus_api.Validation.{split_at}
use node_nexus_api.Containers.{Python}
use node_nexus_api.System.{parts_of, deleted_ids, deleted_after, report}

module _ {Item : Type 0} (py : Python Item) (lower : Text → Text) where
  report-rest :
      (lines : List Text) (deleted : List Text) (space : Text)
      → all_of (λ line. not (starts_with (codes "Deleted") line)) lines ≡ true
      → (report py lower (λ line. line) lines (deleted, space)).0 ≡ deleted
  unfolding report
  report-rest [] deleted space h = refl
  report-rest (line ∷ lines) deleted space h =
      let (a, rest) =
        &&-eq-true (not (starts_with (codes "Deleted") line))
          (all_of (λ l. not (starts_with (codes "Deleted") l)) lines) h in
      by (starts_with (codes "Deleted") line) a (deleted_after py line deleted)
        (λ sp. report-rest lines deleted sp rest) _
    where
      by :
          (b : Bool)
          → not b ≡ true
          → (other : List Text)
          → ((sp : Text) → (report py lower (λ l. l) lines (deleted, sp)).0 ≡ deleted)
          → (sp : Text)
          → (report py lower (λ l. l) lines (if b then other else deleted, sp)).0 ≡ deleted
      by true n other ih sp = absurd (cc)
      by false n other ih sp = ih sp

  -- The ids that the Docker CLI writes below the line `Deleted Containers:`, one on each line, are not reported: the list of what was deleted is empty.
  pub report-header :
      py.strip [] ≡ []
      → (lines : List Text) → all_of (λ line. not (starts_with (codes "Deleted") line)) lines ≡ true
      → (report py lower (λ line. line) (codes "Deleted Containers:" ∷ lines) ([], [])).0 ≡ []
  unfolding report deleted_ids parts_of split_at
  report-header strips lines h = after (deleted_ids py []) none_deleted _
    where
      none_deleted : deleted_ids py [] ≡ []
      none_deleted = unfold deleted_ids parts_of in rw strips refl

      after :
          (d : List Text)
          → d ≡ []
          → (sp : Text) → (report py lower (λ line. line) lines (d, sp)).0 ≡ []
      after d e sp = rw e (report-rest lines [] sp h)
