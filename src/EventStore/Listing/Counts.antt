-- ===== src/EventStore/Listing/Counts.antt =====
-- The total of the list: what a LIMIT of one more than the cap can tell.
use datha_platform.Base.{
  ℕ, suc, String, List, Option, arith, ltb, leb, if◌then◌else◌, filter, length, ◌≡◌,
}
use datha_platform.Base.Iso.{IsoDate}
use datha_platform.Base.Queries.{length-take}
use datha_platform.Messenger.Result.{ok, bind_ok}
use datha_platform.EventStore.Rows.{EventRow}
use datha_platform.EventStore.Cursors.{Base64url}
use datha_platform.EventStore.Listing.{
  EventQueryParams, Jsonb, EventPage, count_capped, selects, cast_after, page_of, query_events,
}

-- The count of at most cap + 1 rows tells the number of rows up to the cap, and whether it is more.
pub count_capped_lem {ℓ} :
    {A : Type ℓ} (rows : List A) (cap : ℕ)
    → count_capped rows cap ≡ record {
      total = if leb (length rows) cap then length rows else cap;
      capped = ltb cap (length rows);
    }
unfolding count_capped
count_capped_lem rows cap = ground (arith, length-take (suc cap) rows)

module _ (base64url : Base64url) (jsonb : Jsonb) (uuid : String → Option String)
    (iso : IsoDate) where
  -- Every page reports the number of rows that the filters select, up to the cap, and whether there
  -- are more: the same on each page, whatever its cursor or offset.
  pub query_events-total :
      (params : EventQueryParams) (events : List EventRow) (page : EventPage)
      → query_events base64url jsonb uuid iso params events ≡ ok page
      → let n = length (filter (selects jsonb params) events) in
        (page.total ≡ (if leb n params.count_cap then n else params.count_cap))
        × (page.total_capped ≡ ltb params.count_cap n)
  unfolding query_events page_of
  query_events-total params events page h =
      let (cut, casts, same) = bind_ok (cast_after base64url jsonb uuid iso params.after) _ h in
      let counted = count_capped_lem (filter (selects jsonb params) events) params.count_cap in
      (ground (arith, same, counted), ground (arith, same, counted))
