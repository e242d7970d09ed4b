-- ===== src/Lists/Hosts.antt =====
-- The host matcher under any sequence of calls, against the log of the lists that it holds.
use Prim.Native.String.{String}
use yuhaiin.Prelude.{
  ◌≡◌, refl, ap, sym, ◌∙◌, Option, none, some, List, [], ◌∷◌, ◌++◌, contains, append-nil,
  if◌then◌else◌, inl, inr, Bool-cases, arith, append_assoc,
}
use yuhaiin.Bytes.{Bytes}
use yuhaiin.Socks.{Address}
use yuhaiin.Cidr
use yuhaiin.Cidr.{new_cidr}
use yuhaiin.Domain
use yuhaiin.Domain.{Fqdn, new_fqdn}
use yuhaiin.Tries.{
  Parsed, parsed_prefix, parsed_addr, no_address, Tries, new_tries, clear_tries, search_fqdn,
  insert_text, insert_parsed,
}
use yuhaiin.Tries.Descriptions.{
  insert_all, batch_texts-insert_all, described, search_fqdn-described,
}
use yuhaiin.Lists.Entries.{string_discrete, RouteListDetail, Env, get_iter}
use yuhaiin.Lists.{
  HostMatcher, new_host_trie, clear_host, marked, add_host, refresh_host_one, refresh_host_from,
  refresh_host_trie, add_host_loaded, load_host_list,
}
use text.Mathlib.Text.{◌==◌ as ◌≟◌}

-- The calls of the host matcher, each with the book and the files at its time; a refresh with the
-- order in which the old matcher's set gives its names.
pub data HostCall : Type 0 where
  reset_host : HostCall
  load_host : Env → String → HostCall
  refresh_host : Env → List String → HostCall

abbrev pub Log : Type 0
Log = List (String × List Bytes)

abbrev pub items : Log → List (Bytes × String)
items [] = []
items ((name, host) ∷ log) = marked host name ++ items log

unfoldable pub log_one : Option (RouteListDetail × List Bytes) → String → Log
log_one none name = []
log_one (some (rules, iter)) name = (name, iter) ∷ []

unfoldable pub log_loaded : Option (RouteListDetail × List Bytes) → String → Log
log_loaded none name = []
log_loaded (some (rules, iter)) name = if rules.type ≟ "process" then [] else (name, iter) ∷ []

unfoldable pub log_all : Env → List String → Log
unfolding log_one
log_all env [] = []
log_all env (name ∷ names) = log_one (get_iter env name) name ++ log_all env names

-- What the calls leave in the matcher: a reset nothing, a refresh the lists that can be read.
unfoldable pub log_of : List HostCall → Log → Log
unfolding log_all log_loaded
log_of [] log = log
log_of (reset_host ∷ calls) log = log_of calls []
log_of (load_host env name ∷ calls) log = log_of calls (log ++ log_loaded (get_iter env name) name)
log_of (refresh_host env names ∷ calls) log = log_of calls (log_all env names)

items-append : (l k : Log) → items (l ++ k) ≡ items l ++ items k
items-append [] k = refl
items-append ((name, host) ∷ l) k =
    ap (λ (r : List (Bytes × String)). marked host name ++ r) (items-append l k)
    ∙ sym (append_assoc (marked host name) (items l) (items k))

insert-separate :
    (d : Fqdn String) (str : Bytes) (m : String)
    → (Domain.insert string_discrete d str m).separate ≡ d.separate
unfolding Domain.insert
insert-separate d [] m = refl
insert-separate d (c ∷ cs) m = refl

insert_parsed-separate :
    (parse : Bytes → Parsed) (t : Tries String) (str : Bytes) (p : Parsed) (m : String)
    → (insert_parsed string_discrete parse t str p m).domain.separate ≡ t.domain.separate
unfolding insert_parsed
insert_parsed-separate parse t str (parsed_prefix a n) m = refl
insert_parsed-separate parse t str (parsed_addr a) m = refl
insert_parsed-separate parse t str no_address m = insert-separate t.domain str m

insert_all-separate :
    (parse : Bytes → Parsed) (t : Tries String) (xs : List (Bytes × String))
    → (insert_all string_discrete parse t xs).domain.separate ≡ t.domain.separate
unfolding insert_all insert_text
insert_all-separate parse t [] = refl
insert_all-separate parse t (([], m) ∷ xs) = insert_all-separate parse t xs
insert_all-separate parse t ((c ∷ cs, m) ∷ xs) =
    insert_all-separate parse (insert_parsed string_discrete parse t (c ∷ cs) (parse (c ∷ cs)) m) xs
    ∙ insert_parsed-separate parse t (c ∷ cs) (parse (c ∷ cs)) m

clear-new : (t : Tries String) → t.domain.separate ≡ b'.' → clear_tries t ≡ new_tries
unfolding clear_tries Cidr.clear Domain.clear new_tries new_cidr new_fqdn
clear-new t e = ground (arith, e)

module _ (parse : Bytes → Parsed) where
  unfoldable pub run_host : List HostCall → HostMatcher → HostMatcher
  run_host [] h = h
  run_host (reset_host ∷ calls) h = run_host calls (clear_host h)
  run_host (load_host env name ∷ calls) h = run_host calls (load_host_list parse env name h)
  run_host (refresh_host env names ∷ calls) h = run_host calls (refresh_host_trie parse env names)

  insert_all-append :
      (t : Tries String) (xs ys : List (Bytes × String))
      → insert_all string_discrete parse t (xs ++ ys)
        ≡ insert_all string_discrete parse (insert_all string_discrete parse t xs) ys
  unfolding insert_all
  insert_all-append t [] ys = refl
  insert_all-append t ((s, m) ∷ xs) ys =
      insert_all-append (insert_text string_discrete parse t s m) xs ys

  abbrev Holds : HostMatcher → Log → Type 0
  Holds h log = h.trie ≡ insert_all string_discrete parse new_tries (items log)

  add_host-Holds :
      (h : HostMatcher) (log : Log) (host : List Bytes) (name : String)
      → Holds h log
      → Holds (add_host parse h host name) (log ++ (name, host) ∷ [])
  unfolding add_host
  add_host-Holds h log host name g =
      batch_texts-insert_all string_discrete parse h.trie (marked host name)
      ∙ ap (λ (t : Tries String). insert_all string_discrete parse t (marked host name)) g
      ∙ sym (insert_all-append new_tries (items log) (marked host name))
      ∙ ap (λ (r : List (Bytes × String)). insert_all string_discrete parse new_tries r)
          (ap (λ (r : List (Bytes × String)). items log ++ r) (sym (append-nil (marked host name)))
            ∙ sym (items-append log ((name, host) ∷ [])))

  add_host_loaded-Holds :
      (h : HostMatcher) (log : Log) (o : Option (RouteListDetail × List Bytes)) (name : String)
      → Holds h log
      → Holds (add_host_loaded parse o name h) (log ++ log_loaded o name)
  unfolding add_host_loaded log_loaded
  add_host_loaded-Holds h log none name g = rw append-nil g
  add_host_loaded-Holds h log (some (rules, iter)) name g =
      elim (Bool-cases (rules.type ≟ "process")) [
        | inl is ↦ rw (is, append-nil) g
        | inr not_one ↦ rw not_one (add_host-Holds h log iter name g)
      ]

  refresh_host_one-Holds :
      (h : HostMatcher) (log : Log) (o : Option (RouteListDetail × List Bytes)) (name : String)
      → Holds h log
      → Holds (refresh_host_one parse o name h) (log ++ log_one o name)
  unfolding refresh_host_one log_one
  refresh_host_one-Holds h log none name g = rw append-nil g
  refresh_host_one-Holds h log (some (rules, iter)) name g = add_host-Holds h log iter name g

  refresh_host_from-Holds :
      (env : Env) (names : List String) (h : HostMatcher) (log : Log)
      → Holds h log
      → Holds (refresh_host_from parse env names h) (log ++ log_all env names)
  unfolding refresh_host_from log_all
  refresh_host_from-Holds env [] h log g = rw append-nil g
  refresh_host_from-Holds env (name ∷ names) h log g = rw (← append_assoc) (
      refresh_host_from-Holds env names (refresh_host_one parse (get_iter env name) name h)
        (log ++ log_one (get_iter env name) name)
        (refresh_host_one-Holds h log (get_iter env name) name g))

  run_host-Holds :
      (calls : List HostCall) (h : HostMatcher) (log : Log)
      → Holds h log
      → Holds (run_host calls h) (log_of calls log)
  unfolding run_host log_of
  run_host-Holds [] h log g = g
  run_host-Holds (reset_host ∷ calls) h log g = run_host-Holds calls (clear_host h) [] (
      unfold clear_host insert_all in
      clear-new h.trie (
        ap (λ (t : Tries String). t.domain.separate) g
        ∙ insert_all-separate parse new_tries (items log)
        ∙ (unfold new_tries new_fqdn in refl)))
  run_host-Holds (load_host env name ∷ calls) h log g =
      run_host-Holds calls (load_host_list parse env name h) _
        (unfold load_host_list in add_host_loaded-Holds h log (get_iter env name) name g)
  run_host-Holds (refresh_host env names ∷ calls) h log g =
      run_host-Holds calls (refresh_host_trie parse env names) _ (
        unfold refresh_host_trie new_host_trie insert_all in
        refresh_host_from-Holds env names new_host_trie [] refl)

  -- After any calls on a new host matcher, its search without resolving gives the name of a list
  -- exactly when the entries of that list cover the address, in the description of the entries of
  -- the lists that the calls leave: those that could be read and are no process lists when they
  -- were loaded, since the last reset or refresh, after those that the last refresh could read, if
  -- it came after the last reset.
  pub run_host-described :
      (calls : List HostCall) (addr : Address) (name : String)
      → contains string_discrete (search_fqdn (run_host calls new_host_trie).trie addr) name
        ≡ described string_discrete parse (items (log_of calls [])) addr name
  run_host-described calls addr name =
      ap (λ (t : Tries String). contains string_discrete (search_fqdn t addr) name)
        (run_host-Holds calls new_host_trie [] (unfold new_host_trie insert_all in refl)
          ∙ sym (batch_texts-insert_all string_discrete parse new_tries (items (log_of calls []))))
      ∙ search_fqdn-described string_discrete parse (items (log_of calls [])) addr name
