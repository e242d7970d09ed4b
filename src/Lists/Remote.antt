-- ===== src/Lists/Remote.antt =====
-- pkg/route/list.go: the refresh of the remote lists, `RefreshContract`. What the books of lists and of
-- settings answer, and what the downloads give, are arguments.
pub mod Messages
pub mod Downloads
use text.Mathlib.Text.{◌==◌ as ◌≟◌}
use Prim.Native.String.{String}
use yuhaiin.Prelude.{
  ℕ, ◌+◌, ◌*◌, Bool, true, false, not, ◌||◌, Option, none, some, List, [], ◌∷◌, ◌++◌, ◌==◌, ltb,
  if◌then◌else◌, Map, lookup, assign,
}
use yuhaiin.Lists.Entries.{string_discrete, RouteListDetail}
use yuhaiin.Lists.Config.{RouteListSettings}

-- The URLs of a list of type "remote" that has such a source.
unfoldable pub urls_of : RouteListDetail → Option (List String)
urls_of list = if list.source_type ≟ "remote" then list.remote else none

-- What the downloads of one refresh give: for a list's name, the place among the list's URLs and the
-- URL, the message "url: error", or `none`. The same URL can fail at one place and not at another.
abbrev pub Download : Type 0
Download = String → ℕ → String → Option String

-- The messages of the downloads that fail, in the order of the URLs, from the place `i` on.
unfoldable pub failures : (ℕ → String → Option String) → ℕ → List String → List String
failures download i [] = []
failures download i (url ∷ urls) =
    let rest = failures download (i + 1) urls in
    elim (download i url) [ none ↦ rest | some msg ↦ msg ∷ rest ]

with_remote :
    Download
    → RouteListDetail
    → Option (List String)
    → Map String (List String)
    → Map String (List String)
unfolding failures
with_remote download list none msgs = msgs
with_remote download list (some urls) msgs =
    assign string_discrete list.name (failures (download list.name) 0 urls) msgs

-- The first loop of `RefreshContract`.
unfoldable pub download_lists :
    Download → List RouteListDetail → Map String (List String) → Map String (List String)
unfolding urls_of with_remote
download_lists download [] msgs = msgs
download_lists download (list ∷ lists) msgs =
    download_lists download lists (with_remote download list (urls_of list) msgs)

save_one :
    (RouteListDetail → Bool)
    → RouteListDetail
    → Option (List String)
    → List RouteListDetail × Bool
    → List RouteListDetail × Bool
save_one saves list none rest = rest
save_one saves list (some next_errors) rest =
    let saved = record list { error_msgs = next_errors } in
    if saves saved then (saved ∷ rest.0, rest.1) else (saved ∷ [], false)

-- The second: the records that it hands to `SaveRouteList`, up to one that fails, and whether none
-- fails.
unfoldable pub save_lists :
    (RouteListDetail → Bool)
    → Map String (List String)
    → List RouteListDetail
    → List RouteListDetail × Bool
unfolding save_one
save_lists saves msgs [] = ([], true)
save_lists saves msgs (list ∷ lists) =
    save_one saves list (lookup string_discrete list.name msgs) (save_lists saves msgs lists)

-- What a refresh reads and meets: whether one is running, the two books with their lists and
-- settings, the downloads, the time, and the error that `refreshGeoip` gives.
pub record Refresh : Type 0 where
  pub refreshing : Bool
  pub has_books : Bool
  pub lists : Option (List RouteListDetail)
  pub settings : Option RouteListSettings
  pub download : Download
  pub saves : RouteListDetail → Bool
  pub saves_settings : Bool
  pub geoip_error : String
  pub now : ℕ

-- What it hands to the books, whether it refreshes the index and the process matcher, and whether it
-- gives no error.
pub record Refreshed : Type 0 where
  pub saved : List RouteListDetail
  pub saved_settings : Option RouteListSettings
  pub notified : Bool
  pub ok : Bool

stopped : List RouteListDetail → Option RouteListSettings → Bool → Refreshed
stopped saved settings ok = record {
  saved = saved;
  saved_settings = settings;
  notified = false;
  ok = ok;
}

refresh_settings : Refresh → RouteListSettings → RouteListSettings
refresh_settings r settings = record settings {
  maxminddb_error = r.geoip_error;
  last_refresh_time = r.now;
  error = "";
}

-- What follows the loops.
refresh_saved : Refresh → RouteListSettings → List RouteListDetail × Bool → Refreshed
unfolding stopped refresh_settings
refresh_saved r settings saved =
    if saved.1
    then if r.saves_settings
      then record {
        saved = saved.0;
        saved_settings = some (refresh_settings r settings);
        notified = true;
        ok = true;
      }
      else stopped saved.0 (some (refresh_settings r settings)) false
    else stopped saved.0 none false

refresh_lists : Refresh → List RouteListDetail → RouteListSettings → Refreshed
unfolding save_lists download_lists refresh_saved
refresh_lists r lists settings =
    refresh_saved r settings (save_lists r.saves (download_lists r.download lists []) lists)

refresh_books : Refresh → Option (List RouteListDetail) → Option RouteListSettings → Refreshed
unfolding refresh_lists
refresh_books r none settings = stopped [] none false
refresh_books r (some lists) none = stopped [] none false
refresh_books r (some lists) (some settings) = refresh_lists r lists settings

unfoldable pub refresh_contract : Refresh → Refreshed
unfolding refresh_books
refresh_contract r =
    if r.refreshing
    then stopped [] none false
    else if r.has_books
    then refresh_books r r.lists r.settings
    else stopped [] none true
