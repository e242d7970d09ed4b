-- ===== src/Lists/Remote/Messages.antt =====
-- What a refresh of the lists is to hand to the book, apart from how the code finds it: the remote
-- lists, each with the messages of its own downloads, up to one that cannot be written.
use text.Mathlib.Text.{◌==◌ as ◌≟◌}
use Prim.Native.String.{String}
use yuhaiin.Prelude.{
  ℕ, ◌+◌, ◌≢◌, Bool, true, false, Option, none, some, List, [], ◌∷◌, ◌++◌, if◌then◌else◌,
}
use yuhaiin.Lists.Entries.{RouteListDetail}
use yuhaiin.Lists.Remote.{Download}

unfoldable pub message : Option String → List String
message none = []
message (some msg) = msg ∷ []

-- The messages of a list's own downloads.
unfoldable pub own_messages : (ℕ → String → Option String) → ℕ → List String → List String
unfolding message
own_messages download i [] = []
own_messages download i (url ∷ urls) =
    message (download i url) ++ own_messages download (i + 1) urls

-- A list with the messages of its own downloads, if it has a source of URLs.
unfoldable pub with_messages :
    Download → RouteListDetail → Option (List String) → List RouteListDetail
unfolding own_messages
with_messages download list none = []
with_messages download list (some urls) =
    record list { error_msgs = own_messages (download list.name) 0 urls } ∷ []

-- The remote lists, in their order, with the messages of their own downloads.
unfoldable pub checked_lists : Download → List RouteListDetail → List RouteListDetail
unfolding with_messages
checked_lists download [] = []
checked_lists download (list ∷ lists) =
    let rest = checked_lists download lists in
    if list.source_type ≟ "remote" then with_messages download list list.remote ++ rest else rest

abbrev pub IsNew : String → List RouteListDetail → Type 0
IsNew name [] = Unit
IsNew name (list ∷ lists) = (list.name ≢ name) × IsNew name lists

-- No two lists with one name.
abbrev pub HasNames : List RouteListDetail → Type 0
HasNames [] = Unit
HasNames (list ∷ lists) = IsNew list.name lists × HasNames lists

-- Records written one by one, up to one that fails.
unfoldable pub up_to_failure :
    (RouteListDetail → Bool) → List RouteListDetail → List RouteListDetail × Bool
up_to_failure saves [] = ([], true)
up_to_failure saves (x ∷ xs) =
    let rest = up_to_failure saves xs in if saves x then (x ∷ rest.0, rest.1) else (x ∷ [], false)
