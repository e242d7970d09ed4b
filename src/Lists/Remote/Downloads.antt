-- ===== src/Lists/Remote/Downloads.antt =====
-- What a refresh of the lists hands to the book: each remote list with the messages of its own
-- downloads.
use text.Mathlib.Text.{◌==◌ as ◌≟◌}
use mathlib.Core.Option
use Prim.Native.String.{String}
use yuhaiin.Prelude.{
  ℕ, ◌+◌, ◌≡◌, ◌≢◌, refl, ap, sym, ◌∙◌, Bool, true, false, ◌&&◌, Option, none, some, List, [], ◌∷◌,
  ◌++◌, All, Map, lookup, lookup-assign, same→eq, same_refl, arith, Bool-cases, inl, inr,
}
use yuhaiin.Lists.Entries.{string_discrete, RouteListDetail}
use yuhaiin.Lists.Config.{RouteListSettings}
use yuhaiin.Lists.Remote.{
  Download, failures, urls_of, with_remote, download_lists, save_lists, save_one, Refresh,
  Refreshed, refresh_contract, refresh_books, refresh_lists, refresh_saved, stopped,
}
use yuhaiin.Lists.Remote.Messages.{
  message, own_messages, with_messages, checked_lists, IsNew, HasNames, up_to_failure,
}

failures-own_messages :
    (download : ℕ → String → Option String) (i : ℕ) (urls : List String)
    → failures download i urls ≡ own_messages download i urls
unfolding failures own_messages message
failures-own_messages download i [] = refl
failures-own_messages download i (url ∷ urls) =
    ground (arith, failures-own_messages download (i + 1) urls)

checked : Download → RouteListDetail → Option (List String) → List RouteListDetail
checked download list none = []
checked download list (some urls) =
    record list { error_msgs = failures (download list.name) 0 urls } ∷ []

checked-with_messages :
    (download : Download) (list : RouteListDetail) (o : Option (List String))
    → checked download list o ≡ with_messages download list o
unfolding checked with_messages
checked-with_messages download list none = refl
checked-with_messages download list (some urls) =
    ap (λ (msgs : List String). record list { error_msgs = msgs } ∷ [])
      (failures-own_messages (download list.name) 0 urls)

checked_lists_cons :
    (download : Download) (list : RouteListDetail) (lists : List RouteListDetail)
    → checked download list (urls_of list) ++ checked_lists download lists
      ≡ checked_lists download (list ∷ lists)
unfolding checked_lists urls_of
checked_lists_cons download list lists = elim (Bool-cases (list.source_type ≟ "remote")) [
  | inl is ↦ rw is (
      ap (λ (xs : List RouteListDetail). xs ++ checked_lists download lists)
        (checked-with_messages download list list.remote))
  | inr other ↦ rw other (unfold checked in refl)
]

-- The messages of a list that a refresh does not pass over.
entry : Download → RouteListDetail → Option (List String)
entry download list = Option.map (failures (download list.name) 0) (urls_of list)

lookup-with_remote :
    (download : Download) (list : RouteListDetail) (urls : Option (List String))
    (msgs : Map String (List String)) (name : String)
    → list.name ≢ name
    → lookup string_discrete name (with_remote download list urls msgs)
      ≡ lookup string_discrete name msgs
unfolding with_remote
lookup-with_remote download list none msgs name ne = refl
lookup-with_remote download list (some urls) msgs name ne = ground (
  arith,
  lookup-assign string_discrete list.name name (failures (download list.name) 0 urls) msgs,
  same→eq string_discrete list.name name,
)

lookup-with_remote_self :
    (download : Download) (list : RouteListDetail) (urls : Option (List String))
    (msgs : Map String (List String))
    → lookup string_discrete list.name msgs ≡ none
    → lookup string_discrete list.name (with_remote download list urls msgs)
      ≡ Option.map (failures (download list.name) 0) urls
unfolding with_remote
lookup-with_remote_self download list none msgs new = new
lookup-with_remote_self download list (some urls) msgs new =
    lookup-assign string_discrete list.name list.name (failures (download list.name) 0 urls) msgs
    ∙ rw (same_refl string_discrete list.name) refl

lookup-download_lists :
    (download : Download) (lists : List RouteListDetail) (msgs : Map String (List String))
    (name : String)
    → IsNew name lists
    → lookup string_discrete name (download_lists download lists msgs)
      ≡ lookup string_discrete name msgs
unfolding download_lists
lookup-download_lists download [] msgs name new = refl
lookup-download_lists download (list ∷ lists) msgs name (ne, new) =
    lookup-download_lists download lists (with_remote download list (urls_of list) msgs) name new
    ∙ lookup-with_remote download list (urls_of list) msgs name ne

abbrev Absent : Map String (List String) → List RouteListDetail → Type 0
Absent msgs lists = All (λ list. lookup string_discrete list.name msgs ≡ none) lists

abbrev Entered : Download → Map String (List String) → List RouteListDetail → Type 0
Entered download msgs lists =
    All (λ list. lookup string_discrete list.name msgs ≡ entry download list) lists

Absent-with_remote :
    (download : Download) (list : RouteListDetail) (msgs : Map String (List String))
    (lists : List RouteListDetail)
    → IsNew list.name lists
    → Absent msgs lists
    → Absent (with_remote download list (urls_of list) msgs) lists
Absent-with_remote download list msgs [] new a = tt
Absent-with_remote download list msgs (l ∷ lists) (ne, new) (a, as_) = (
  lookup-with_remote download list (urls_of list) msgs l.name (λ e. ne (sym e)) ∙ a,
  Absent-with_remote download list msgs lists new as_,
)

download_lists-Entered :
    (download : Download) (lists : List RouteListDetail) (msgs : Map String (List String))
    → HasNames lists
    → Absent msgs lists
    → Entered download (download_lists download lists msgs) lists
unfolding download_lists
download_lists-Entered download [] msgs names a = tt
download_lists-Entered download (list ∷ lists) msgs (new, names) (a, rest) = (
  lookup-download_lists download lists (with_remote download list (urls_of list) msgs) list.name new
      ∙ lookup-with_remote_self download list (urls_of list) msgs a
      ∙ (unfold entry in refl),
  download_lists-Entered download lists (with_remote download list (urls_of list) msgs) names
      (Absent-with_remote download list msgs lists new rest),
)

save_one-checked :
    (saves : RouteListDetail → Bool) (download : Download) (list : RouteListDetail)
    (o : Option (List String)) (xs : List RouteListDetail)
    → save_one saves list (Option.map (failures (download list.name) 0) o) (up_to_failure saves xs)
      ≡ up_to_failure saves (checked download list o ++ xs)
unfolding save_one checked up_to_failure
save_one-checked saves download list none xs = refl
save_one-checked saves download list (some urls) xs = refl

save_lists-Entered :
    (saves : RouteListDetail → Bool) (download : Download) (msgs : Map String (List String))
    (lists : List RouteListDetail)
    → Entered download msgs lists
    → save_lists saves msgs lists ≡ up_to_failure saves (checked_lists download lists)
unfolding save_lists entry
save_lists-Entered saves download msgs [] e = unfold up_to_failure checked_lists in refl
save_lists-Entered saves download msgs (list ∷ lists) (here, e) =
    ap (λ o. save_one saves list o (save_lists saves msgs lists)) here
    ∙ ap
        (λ (rest : List RouteListDetail × Bool).
          save_one saves list (Option.map (failures (download list.name) 0) (urls_of list)) rest)
        (save_lists-Entered saves download msgs lists e)
    ∙ save_one-checked saves download list (urls_of list) (checked_lists download lists)
    ∙ ap (up_to_failure saves) (checked_lists_cons download list lists)

Absent-nil : (lists : List RouteListDetail) → Absent [] lists
unfolding lookup
Absent-nil [] = tt
Absent-nil (list ∷ lists) = (refl, Absent-nil lists)

Reports : Refresh → List RouteListDetail × Bool → Refreshed → Type 0
Reports r written out =
    (out.saved ≡ written.0) × ((out.ok ≡ (written.1 && r.saves_settings)) × (out.notified ≡ out.ok))

refresh_saved-Reports :
    (r : Refresh) (settings : RouteListSettings) (written : List RouteListDetail × Bool)
    → Reports r written (refresh_saved r settings written)
unfolding refresh_saved stopped Reports
refresh_saved-Reports r settings (saved, true) = elim (Bool-cases r.saves_settings) [
  | inl writes ↦ rw writes (refl, (refl, refl))
  | inr fails ↦ rw fails (refl, (refl, refl))
]
refresh_saved-Reports r settings (saved, false) = (refl, (refl, refl))

reached :
    (r : Refresh) (lists : List RouteListDetail) (settings : RouteListSettings)
    → r.refreshing ≡ false
    → r.has_books ≡ true
    → r.lists ≡ some lists
    → r.settings ≡ some settings
    → refresh_contract r ≡ refresh_lists r lists settings
unfolding refresh_contract
reached r lists settings idle books has_lists has_settings =
    rw (idle, books, has_lists, has_settings) (unfold refresh_books in refl)

contract-saved :
    (r : Refresh) (lists : List RouteListDetail) (settings : RouteListSettings)
    → r.refreshing ≡ false
    → r.has_books ≡ true
    → r.lists ≡ some lists
    → r.settings ≡ some settings
    → HasNames lists
    → refresh_contract r
      ≡ refresh_saved r settings (up_to_failure r.saves (checked_lists r.download lists))
unfolding refresh_lists
contract-saved r lists settings idle books has_lists has_settings names =
    reached r lists settings idle books has_lists has_settings
    ∙ ap (refresh_saved r settings) (
        save_lists-Entered r.saves r.download (download_lists r.download lists []) lists
          (download_lists-Entered r.download lists [] names (Absent-nil lists)))

-- A refresh of the lists, when none is running and both books can be read, with no two lists of one
-- name, writes each list of type "remote" that has a source of that kind, in the book's order up to one
-- that cannot be written, with the messages of exactly its own URLs that failed; it gives no error, and
-- has the index and the process matcher refreshed, exactly when all of them and the settings are
-- written.
pub refresh_contract-saves :
    (r : Refresh) (lists : List RouteListDetail) (settings : RouteListSettings)
    → r.refreshing ≡ false
    → r.has_books ≡ true
    → r.lists ≡ some lists
    → r.settings ≡ some settings
    → HasNames lists
    → ((refresh_contract r).saved ≡ (up_to_failure r.saves (checked_lists r.download lists)).0)
      × (((refresh_contract r).ok
            ≡ ((up_to_failure r.saves (checked_lists r.download lists)).1 && r.saves_settings))
          × ((refresh_contract r).notified ≡ (refresh_contract r).ok))
refresh_contract-saves r lists settings idle books has_lists has_settings names =
    rw (contract-saved r lists settings idle books has_lists has_settings names) (
      unfold Reports in
      refresh_saved-Reports r settings (up_to_failure r.saves (checked_lists r.download lists)))
