-- ===== src/Lists/Loading.antt =====
-- pkg/route/list.go under pkg/route/nested.go: the calls on the lists that compiling the rules makes,
-- carried out on the two matchers, with a book and files that stay the same during them.
use Prim.Native.String.{String}
use yuhaiin.Prelude.{◌≡◌, ◌↔◌, refl, ap, sym, ◌∙◌, true, ◌&&◌, List, [], ◌∷◌, ◌++◌, contains, subst}
use yuhaiin.Bytes.{Bytes}
use yuhaiin.Socks.{Address}
use yuhaiin.Tries.{Parsed, search_fqdn}
use yuhaiin.Tries.Descriptions.{described}
use yuhaiin.Route.{RouteRule}
use yuhaiin.Route.Rules.{
  ListCall, reset_host_trie, reset_process_trie, add_new_host_list, add_new_process_list, Matchers,
  update,
}
use yuhaiin.Route.Rules.Asked.{calls_of, update-calls}
use yuhaiin.Lists.Entries.{string_discrete, Env, get_iter}
use yuhaiin.Lists.{
  HostMatcher, new_host_trie, include_host, clear_host, load_host_list, ProcessMatcher,
  new_process_trie, search_process, load_process_list,
}
use yuhaiin.Lists.Hosts.{HostCall, reset_host, Log, items, log_of, run_host, run_host-described}
use yuhaiin.Lists.Found.{
  ProcessCall, reset_process, load_process, step_process, run_processes, has_process,
  run_processes-Found,
}
use yuhaiin.Route.Rules.Named.{calls_of-hosts, calls_of-resets}
use yuhaiin.Lists.Loaded.{is_taken, log_of-append, run_host-append, cleared-include}
use yuhaiin.Lists.Named.{host_calls, process_calls, LogsNamed, calls_of-LogsNamed, calls_of-Found}
use yuhaiin.Route.Rules.Stated.{host_condition, process_condition, some_enabled}

pub record RouteLists : Type 0 where
  pub host_trie : HostMatcher
  pub process_trie : ProcessMatcher

-- The calls that an Update makes.
abbrev pub calls_made : Matchers → List RouteRule → List ListCall
calls_made s rules = (update (record s { calls = [] }) rules).calls

calls_made-resets :
    (s : Matchers) (rules : List RouteRule)
    → calls_made s rules ≡ reset_host_trie ∷ reset_process_trie ∷ calls_of rules
calls_made-resets s rules = update-calls (record s { calls = [] }) rules

update-calls_made :
    (s : Matchers) (rules : List RouteRule) → (update s rules).calls ≡ s.calls ++ calls_made s rules
update-calls_made s rules =
    update-calls s rules
    ∙ ap (λ (calls : List ListCall). s.calls ++ calls) (sym (calls_made-resets s rules))

↔_trans : {A B C : Type 0} → A ↔ B → B ↔ C → A ↔ C
↔_trans f g = (λ a. g.0 (f.0 a), λ c. f.1 (g.1 c))

module _ (parse : Bytes → Parsed) where
  -- `ResetHostTrie`, `ResetProcessTrie`, `AddNewHostList` and `AddNewProcessList`.
  unfoldable pub do_call : Env → ListCall → RouteLists → RouteLists
  do_call env reset_host_trie l = record l { host_trie = clear_host l.host_trie }
  do_call env reset_process_trie l = record l { process_trie = new_process_trie }
  do_call env (add_new_host_list name) l = record l {
    host_trie = load_host_list parse env name l.host_trie;
  }
  do_call env (add_new_process_list name) l = record l {
    process_trie = load_process_list env name l.process_trie;
  }

  unfoldable pub do_calls : Env → List ListCall → RouteLists → RouteLists
  unfolding do_call
  do_calls env [] l = l
  do_calls env (c ∷ calls) l = do_calls env calls (do_call env c l)

  do_calls-hosts :
      (env : Env) (calls : List ListCall) (l : RouteLists)
      → (do_calls env calls l).host_trie ≡ run_host parse (host_calls env calls) l.host_trie
  unfolding do_calls host_calls run_host
  do_calls-hosts env [] l = refl
  do_calls-hosts env (reset_host_trie ∷ calls) l = do_calls-hosts env calls _
  do_calls-hosts env (reset_process_trie ∷ calls) l = do_calls-hosts env calls _
  do_calls-hosts env (add_new_host_list name ∷ calls) l = do_calls-hosts env calls _
  do_calls-hosts env (add_new_process_list name ∷ calls) l = do_calls-hosts env calls _

  do_calls-processes :
      (env : Env) (calls : List ListCall) (l : RouteLists) (earlier : List ProcessCall)
      → l.process_trie ≡ run_processes earlier
      → (do_calls env calls l).process_trie ≡ run_processes (process_calls env calls earlier)
  unfolding do_calls process_calls
  do_calls-processes env [] l earlier e = e
  do_calls-processes env (reset_host_trie ∷ calls) l earlier e =
      do_calls-processes env calls _ earlier e
  do_calls-processes env (add_new_host_list name ∷ calls) l earlier e =
      do_calls-processes env calls _ earlier e
  do_calls-processes env (reset_process_trie ∷ calls) l earlier e =
      do_calls-processes env calls _ (reset_process ∷ earlier)
        (unfold run_processes step_process in refl)
  do_calls-processes env (add_new_process_list name ∷ calls) l earlier e =
      do_calls-processes env calls _ (load_process env name ∷ earlier)
        (unfold run_processes step_process in ap (load_process_list env name) e)

  -- The matchers after the calls of an Update that is made after any calls of the host matcher.
  abbrev pub updated : Env → Matchers → List RouteRule → List HostCall → ProcessMatcher → RouteLists
  updated env s rules before p =
      do_calls env (calls_made s rules)
        (record { host_trie = run_host parse before new_host_trie; process_trie = p })

  updated-hosts :
      (env : Env) (s : Matchers) (rules : List RouteRule) (before : List HostCall)
      (p : ProcessMatcher)
      → (updated env s rules before p).host_trie
        ≡ run_host parse (before ++ (reset_host ∷ host_calls env (calls_of rules))) new_host_trie
  updated-hosts env s rules before p =
      do_calls-hosts env (calls_made s rules) _
      ∙ ap
          (λ (calls : List ListCall).
            run_host parse (host_calls env calls) (run_host parse before new_host_trie))
          (calls_made-resets s rules)
      ∙ (unfold host_calls in
          sym (
            run_host-append parse before (reset_host ∷ host_calls env (calls_of rules))
              new_host_trie))

  updated-log :
      (env : Env) (rules : List RouteRule) (before : List HostCall)
      → log_of (before ++ (reset_host ∷ host_calls env (calls_of rules))) []
        ≡ log_of (host_calls env (calls_of rules)) []
  unfolding log_of
  updated-log env rules before =
      log_of-append before (reset_host ∷ host_calls env (calls_of rules)) []

  updated-processes :
      (env : Env) (s : Matchers) (rules : List RouteRule) (before : List HostCall)
      (p : ProcessMatcher)
      → (updated env s rules before p).process_trie
        ≡ run_processes (process_calls env (calls_of rules) [])
  unfolding do_calls run_processes
  updated-processes env s rules before p =
      ap
        (λ (calls : List ListCall).
          (do_calls env calls (record {
            host_trie = run_host parse before new_host_trie;
            process_trie = p;
          })).process_trie)
        (calls_made-resets s rules)
      ∙ do_calls-processes env (calls_of rules) _ [] refl

  updated-described :
      (env : Env) (s : Matchers) (rules : List RouteRule) (before : List HostCall)
      (p : ProcessMatcher) (addr : Address) (name : String)
      → contains string_discrete
          (search_fqdn (updated env s rules before p).host_trie.trie addr)
          name
        ≡ described string_discrete parse
            (items (log_of (host_calls env (calls_of rules)) []))
            addr
            name
  updated-described env s rules before p addr name =
      ap (λ (h : HostMatcher). contains string_discrete (search_fqdn h.trie addr) name)
        (updated-hosts env s rules before p)
      ∙ run_host-described parse (before ++ (reset_host ∷ host_calls env (calls_of rules))) addr
          name
      ∙ ap (λ (log : Log). described string_discrete parse (items log) addr name)
          (updated-log env rules before)

  updated-include :
      (env : Env) (s : Matchers) (rules : List RouteRule) (before : List HostCall)
      (p : ProcessMatcher) (name : String)
      → include_host (updated env s rules before p).host_trie name
        ≡ (some_enabled (host_condition name) rules && is_taken (get_iter env name))
  updated-include env s rules before p name =
      ap (λ (h : HostMatcher). include_host h name)
        (updated-hosts env s rules before p ∙ run_host-append parse before _ new_host_trie)
      ∙ cleared-include parse env (calls_of rules) (run_host parse before new_host_trie) name
          (calls_of-resets rules)
      ∙ ap (λ b. b && is_taken (get_iter env name)) (calls_of-hosts name rules)

  -- An Update adds some calls on the lists, the same whatever calls there were. These calls, with a
  -- book and files that stay the same, leave matchers that know nothing of what the matchers held.
  -- There is a log that has a list with its entries exactly when an enabled rule names it in a
  -- condition of type "host", it can be read and is no process list, and the search of hosts without
  -- resolving answers by the description of the log's entries. The set of the host matcher has
  -- exactly the lists that the log has. The search of processes finds a list exactly when an enabled
  -- rule names it in a condition of type "process", it can be read, is a process list and has the
  -- process. The conditions of a rule are its expressions, and of one of type "all" those in its
  -- field `all`.
  pub update-loads :
      (s : Matchers) (rules : List RouteRule) (env : Env) (before : List HostCall)
      (p : ProcessMatcher) (addr : Address) (process : Bytes) (name : String)
      → ((update s rules).calls ≡ s.calls ++ calls_made s rules)
        × (((log : Log) × (LogsNamed env rules log
                × (contains string_discrete
                      (search_fqdn (updated env s rules before p).host_trie.trie addr)
                      name
                    ≡ described string_discrete parse (items log) addr name)))
            × ((include_host (updated env s rules before p).host_trie name
                  ≡ (some_enabled (host_condition name) rules && is_taken (get_iter env name)))
                × ((contains string_discrete
                        (search_process (updated env s rules before p).process_trie process)
                        name
                      ≡ true)
                    ↔ ((some_enabled (process_condition name) rules ≡ true)
                        × (has_process env name process ≡ true)))))
  update-loads s rules env before p addr process name = (
    update-calls_made s rules,
    (
      (
        log_of (host_calls env (calls_of rules)) [],
        (calls_of-LogsNamed env rules, updated-described env s rules before p addr name),
      ),
      (
        updated-include env s rules before p name,
        subst
            (λ (h : ProcessMatcher).
              (contains string_discrete (search_process h process) name ≡ true) ↔ (
                (some_enabled (process_condition name) rules ≡ true)
                × (has_process env name process ≡ true)))
            (sym (updated-processes env s rules before p))
            (↔_trans (run_processes-Found (process_calls env (calls_of rules) []) process name)
              (calls_of-Found env rules process name)),
      ),
    ),
  )
