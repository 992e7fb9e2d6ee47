-- ===== src/Storage/Proposals/Listing.antt =====
-- The listings of the review queue: what they hold, and their order.
use catchment.Prelude.{
  Has, Has-order_by, Has-select, Has-take, nat_eq, pair_eq, text_eq, true, ℕ, ◌≡◌,
}
use catchment.Storage.Enums.{is_approved}
use catchment.Storage.Models.{Store}
use catchment.Storage.Proposals.{Row, list_approved, not_after}

-- A row that `list_approved` gives is a row of the table, and it is approved.
pub Has-list_approved :
    (limit : ℕ) (s : Store) (row : Row)
    → Has row (list_approved limit s)
    → Has row s.proposals × (is_approved row.1.status ≡ true)
unfolding list_approved
Has-list_approved limit s row h =
    Has-select (λ r. is_approved r.1.status) row s.proposals
      (Has-order_by (λ a b. not_after a.1.reviewed_at b.1.reviewed_at) row _
        (Has-take limit row _ h))
