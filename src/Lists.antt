-- ===== src/Lists.antt =====
-- pkg/route/list.go: the lists that the rules name. The matcher of hosts and the matcher of processes
-- that are built from the lists' entries, and how these are reset, added to and refreshed. The book of
-- lists and the cached files are an argument of each call (`Env`), since they change between calls; how
-- netip reads a text is the parameter `parse`. The host matcher is that in memory.
pub mod Activation
pub mod Config
pub mod Geoip
pub mod Entries
pub mod Hosts
pub mod Kept
pub mod Loading
pub mod Named
pub mod Loaded
pub mod Processes
pub mod Refresh
pub mod Remote
pub mod Found
use text.Mathlib.Text.{◌==◌ as ◌≟◌}
use text.Mathlib.TextEquality.{eq_iff}
use Prim.Native.String.{String}
use yuhaiin.Prelude.{
  ℕ, ◌≡◌, refl, Bool, true, false, ◌||◌, not, Option, none, some, List, [], ◌∷◌, ◌++◌, map, ◌==◌,
  if◌then◌else◌, ltb, length, drop, contains, add_new, Map, lookup, assign,
}
use yuhaiin.Bytes.{Bytes, bytes_discrete}
use yuhaiin.Socks.{Address}
use yuhaiin.Tries.{Parsed, Tries, new_tries, clear_tries, batch_texts, search_tries}
use yuhaiin.Route.Texts.{has_name, add_name}
use yuhaiin.Lists.Entries.{string_discrete, RouteListDetail, Env, get_iter}

-- `hostMatcher`. The order of `lists` has no meaning.
pub record HostMatcher : Type 0 where
  pub lists : List String
  pub trie : Tries String

unfoldable pub new_host_trie : HostMatcher
new_host_trie = record { lists = []; trie = new_tries }

unfoldable pub clear_host : HostMatcher → HostMatcher
clear_host h = record { lists = []; trie = clear_tries h.trie }

unfoldable pub include_host : HostMatcher → String → Bool
include_host h list = has_name h.lists list

-- `hostMatcher.Search`, with the addresses that the resolver has for a name.
unfoldable pub search_host : HostMatcher → Option (List (List ℕ)) → Address → List String
search_host h ips addr = search_tries h.trie ips addr

abbrev pub marked : List Bytes → String → List (Bytes × String)
marked host list = map (λ str. (str, list)) host

-- `processMatcher`: the lists of each process.
abbrev pub ProcessMatcher : Type 0
ProcessMatcher = Map Bytes (List String)

unfoldable pub new_process_trie : ProcessMatcher
new_process_trie = []

unfoldable pub search_process : ProcessMatcher → Bytes → List String
search_process h process = elim (lookup bytes_discrete process h) [ none ↦ [] | some s ↦ s ]

-- `processMatcher.Add`: a process that is new gets an empty slice first.
unfoldable pub add_process : Bytes → String → ProcessMatcher → ProcessMatcher
unfolding search_process
add_process process list h =
    assign bytes_discrete process (add_new string_discrete list (search_process h process)) h

-- `processMatcher.Range`
unfoldable pub range_process : ProcessMatcher → List String
range_process [] = []
range_process ((p, names) ∷ h) = names ++ range_process h

unfoldable pub include_process : ProcessMatcher → String → Bool
unfolding range_process
include_process h list = contains string_discrete (range_process h) list

unfoldable pub empty_process : ProcessMatcher → Bool
empty_process [] = true
empty_process (p ∷ h) = false

unfoldable pub add_processes : List Bytes → String → ProcessMatcher → ProcessMatcher
unfolding add_process
add_processes [] name h = h
add_processes (v ∷ iter) name h = add_processes iter name (add_process v name h)

refresh_process_one :
    Option (RouteListDetail × List Bytes) → String → ProcessMatcher → ProcessMatcher
refresh_process_one none name h = h
refresh_process_one (some (rules, iter)) name h = add_processes iter name h

pub refresh_process_from : Env → List String → ProcessMatcher → ProcessMatcher
unfolding refresh_process_one include_process
refresh_process_from env [] h = h
refresh_process_from env (name ∷ names) h =
    refresh_process_from env names
      (if include_process h name then h else refresh_process_one (get_iter env name) name h)

-- `refreshProcessTrie`: the matcher that takes the place of `h`.
unfoldable pub refresh_process_trie : Env → ProcessMatcher → ProcessMatcher
unfolding refresh_process_from new_process_trie
refresh_process_trie env h = refresh_process_from env (range_process h) new_process_trie

add_process_loaded :
    Option (RouteListDetail × List Bytes) → String → ProcessMatcher → ProcessMatcher
add_process_loaded none name h = h
add_process_loaded (some (rules, iter)) name h =
    if rules.type ≟ "process" then add_processes iter name h else h

-- `AddNewProcessList`
unfoldable pub load_process_list : Env → String → ProcessMatcher → ProcessMatcher
unfolding add_process_loaded
load_process_list env name h = add_process_loaded (get_iter env name) name h

module _ (parse : Bytes → Parsed) where
  -- `hostMatcher.Add`
  unfoldable pub add_host : HostMatcher → List Bytes → String → HostMatcher
  add_host h host list = record {
    lists = add_name list h.lists;
    trie = batch_texts string_discrete parse h.trie (marked host list);
  }

  refresh_host_one : Option (RouteListDetail × List Bytes) → String → HostMatcher → HostMatcher
  unfolding add_host
  refresh_host_one none name h = h
  refresh_host_one (some (rules, iter)) name h = add_host h iter name

  -- The loop of `refreshHostTrie`, over the names of the old matcher's set in the order of its `Range`.
  unfoldable pub refresh_host_from : Env → List String → HostMatcher → HostMatcher
  unfolding refresh_host_one
  refresh_host_from env [] h = h
  refresh_host_from env (name ∷ names) h =
      refresh_host_from env names (refresh_host_one (get_iter env name) name h)

  -- `refreshHostTrie`: the matcher that takes the place of the one whose set gives `names`.
  unfoldable pub refresh_host_trie : Env → List String → HostMatcher
  unfolding refresh_host_from
  refresh_host_trie env names = refresh_host_from env names new_host_trie

  add_host_loaded : Option (RouteListDetail × List Bytes) → String → HostMatcher → HostMatcher
  unfolding add_host
  add_host_loaded none name h = h
  add_host_loaded (some (rules, iter)) name h =
      if rules.type ≟ "process" then h else add_host h iter name

  -- `AddNewHostList`
  unfoldable pub load_host_list : Env → String → HostMatcher → HostMatcher
  unfolding add_host_loaded
  load_host_list env name h = add_host_loaded (get_iter env name) name h
