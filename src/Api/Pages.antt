-- ===== src/Api/Pages.antt =====
-- internal/api/api.go: page, and the reads that it pages.
pub mod Cover
use corta_sentry.Prelude.{
  ℕ, ◌+◌, ◌-◌, ◌*◌, ◌%◌, ◌^◌, Bool, true, false, ◌||◌, Option, none, some, List, ltb, if◌then◌else◌,
}
use corta_sentry.Scope.Address.{Addr}
use corta_sentry.Assets.Inventory.{LinkRow}
use corta_sentry.Records.Observations.{Observation, Source, ObservationQuery, list_observations}

-- page: the limit and the offset of the parameters limit and page, as strconv.Atoi reads them; a
-- number below 1 is 0. The offset is an int of 64 bits, and SQLite reads a negative one as 0.
unfoldable pub page : ℕ → ℕ → ℕ × ℕ
page l p =
    let limit = if ltb l 1 || ltb 500 l then 100 else l in
    let number = if ltb p 1 then 1 else p in
    let offset = ((number - 1) * limit) % 2 ^ 64 in
    (limit, if ltb offset (2 ^ 63) then offset else 0)

-- The handlers observations and assetObservations.
unfoldable pub handle_observations :
    Option ℕ
    → Option Source
    → Option Addr
    → ℕ
    → ℕ
    → List LinkRow
    → List Observation
    → List Observation
unfolding page
handle_observations asset source address l p links t =
    list_observations
      (record {
        asset = asset;
        source = source;
        address = address;
        limit = (page l p).0;
        offset = (page l p).1;
      })
      links t
