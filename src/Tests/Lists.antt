-- ===== src/Tests/Lists.antt =====
-- The theorems on the routing lists at concrete inputs.
use Prim.Native.String.{String}
use yuhaiin.Prelude.{◌≡◌, ◌↔◌, refl, true, ◌&&◌, none, some, List, [], ◌∷◌, ◌++◌, contains}
use yuhaiin.Bytes.{Bytes}
use yuhaiin.Socks.{domain_addr}
use yuhaiin.Tries.{Parsed, no_address, search_fqdn}
use yuhaiin.Tries.Descriptions.{described}
use yuhaiin.Route.Texts.{has_name}
use yuhaiin.Lists.Entries.{
  string_discrete, RouteListDetail, Env, get_iter, trim_rule, hosts_as_host,
}
use yuhaiin.Lists.{new_host_trie, include_host, refresh_host_trie, search_process}
use yuhaiin.Lists.Hosts.{
  HostCall, load_host, refresh_host, Log, items, log_of, run_host, run_host-described,
}
use yuhaiin.Lists.Kept.{readable, refresh_host_twice-include}
use yuhaiin.Lists.Found.{
  ProcessCall, load_process, refresh_process, run_processes, Found, has_process,
  run_processes-Found,
}
use yuhaiin.Route.Rules.{new_matchers, update}
use yuhaiin.Lists.Loaded.{is_taken}
use yuhaiin.Lists.Named.{LogsNamed}
use yuhaiin.Lists.Loading.{calls_made, updated, update-loads}
use yuhaiin.Route.Rules.Stated.{host_condition, process_condition, some_enabled}
use yuhaiin.Tests.Routes.{block_ads}

-- netip reads no text.
abbrev as_name : Bytes → Parsed
as_name s = no_address

abbrev example_com : Bytes
example_com = b'a' ∷ b'.' ∷ b'c' ∷ []

-- "a.c  # ads"
abbrev commented : Bytes
commented = b'a' ∷ b'.' ∷ b'c' ∷ b' ' ∷ b' ' ∷ b'#' ∷ b'x' ∷ []

trim_rule_test : trim_rule commented ≡ example_com
unfolding trim_rule
trim_rule_test = refl

-- "::1 a  b" and "c"
hosts_as_host_test :
    hosts_as_host ((b':' ∷ b':' ∷ b'1' ∷ b' ' ∷ b'a' ∷ b' ' ∷ b' ' ∷ b'b' ∷ []) ∷ (b'c' ∷ []) ∷ [])
    ≡ (b'a' ∷ []) ∷ (b'b' ∷ []) ∷ []
unfolding hosts_as_host
hosts_as_host_test = refl

abbrev of_type : String → RouteListDetail
of_type type = record {
  name = "ads";
  type = type;
  source_type = "local";
  local = some (commented ∷ []);
  remote = none;
  error_msgs = [];
}

abbrev with_list : String → Env
with_list type = record { lists = some (λ name. some (of_type type)); get_reader = λ url. none }

abbrev without_list : Env
without_list = record { lists = some (λ name. none); get_reader = λ url. none }

abbrev host_calls_before : List HostCall
host_calls_before =
    load_host (with_list "host") "ads" ∷ refresh_host (with_list "host") ("ads" ∷ []) ∷ []

run_host-described_example :
    contains string_discrete
      (search_fqdn
        (run_host as_name host_calls_before new_host_trie).trie
        (domain_addr example_com 443))
      "ads"
    ≡ described string_discrete as_name
        (items (log_of host_calls_before []))
        (domain_addr example_com 443)
        "ads"
run_host-described_example =
    run_host-described as_name host_calls_before (domain_addr example_com 443) "ads"

nothing_left :
    (m : String)
    → has_name [] m ≡ include_host (refresh_host_trie as_name without_list ("ads" ∷ [])) m
unfolding has_name include_host refresh_host_trie get_iter new_host_trie
nothing_left m = refl

refresh_host_twice-include_example :
    include_host (refresh_host_trie as_name (with_list "host") []) "ads" ≡ (
      has_name ("ads" ∷ []) "ads"
      && (readable without_list "ads" && readable (with_list "host") "ads"))
refresh_host_twice-include_example =
    refresh_host_twice-include as_name without_list (with_list "host") ("ads" ∷ []) [] "ads"
      nothing_left

abbrev process_calls_before : List ProcessCall
process_calls_before =
    refresh_process (with_list "process") ∷ load_process (with_list "process") "ads" ∷ []

run_processes-Found_example :
    (contains string_discrete
        (search_process (run_processes process_calls_before) example_com)
        "ads"
      ≡ true)
    ↔ Found process_calls_before example_com "ads"
run_processes-Found_example = run_processes-Found process_calls_before example_com "ads"

update-loads_example :
    ((update new_matchers (block_ads ∷ [])).calls
      ≡ new_matchers.calls ++ calls_made new_matchers (block_ads ∷ []))
    × (((log : Log) × (LogsNamed (with_list "host") (block_ads ∷ []) log
            × (contains string_discrete
                  (search_fqdn
                    (updated as_name
                      (with_list "host")
                      new_matchers
                      (block_ads ∷ [])
                      host_calls_before
                      []).host_trie.trie
                    (domain_addr example_com 443))
                  "ads"
                ≡ described string_discrete as_name
                    (items log)
                    (domain_addr example_com 443)
                    "ads")))
        × ((include_host
                (updated as_name
                  (with_list "host")
                  new_matchers
                  (block_ads ∷ [])
                  host_calls_before
                  []).host_trie
                "ads"
              ≡ (some_enabled (host_condition "ads") (block_ads ∷ [])
                  && is_taken (get_iter (with_list "host") "ads")))
            × ((contains string_discrete
                    (search_process
                      (updated as_name
                        (with_list "host")
                        new_matchers
                        (block_ads ∷ [])
                        host_calls_before
                        []).process_trie
                      example_com)
                    "ads"
                  ≡ true)
                ↔ ((some_enabled (process_condition "ads") (block_ads ∷ []) ≡ true)
                    × (has_process (with_list "host") "ads" example_com ≡ true)))))
update-loads_example =
    update-loads as_name new_matchers (block_ads ∷ []) (with_list "host") host_calls_before []
      (domain_addr example_com 443) example_com "ads"
