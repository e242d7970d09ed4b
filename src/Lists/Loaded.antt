-- ===== src/Lists/Loaded.antt =====
-- Calls of the host matcher one after another, and which lists its set has after calls that load
-- lists.
use text.Mathlib.Text.{◌==◌ as ◌≟◌}
use text.Mathlib.TextEquality.{eq_iff}
use Prim.Native.String.{String}
use yuhaiin.Prelude.{
  ◌≡◌, refl, ap, ◌∙◌, Bool, true, false, ◌&&◌, ◌||◌, Option, none, some, List, [], ◌∷◌, ◌++◌,
  if◌then◌else◌, Bool-cases, inl, inr, arith,
}
use yuhaiin.Bytes.{Bytes}
use yuhaiin.Tries.{Parsed}
use yuhaiin.Route.Rules.{
  ListCall, reset_host_trie, reset_process_trie, add_new_host_list, add_new_process_list,
}
use yuhaiin.Route.Rules.Named.{some_call, loads_host, resets}
use yuhaiin.Route.Rules.Parts.{has_name-add_name}
use yuhaiin.Lists.Entries.{RouteListDetail, Env, get_iter}
use yuhaiin.Lists.{HostMatcher, clear_host, include_host, add_host, add_host_loaded, load_host_list}
use yuhaiin.Route.Texts.{has_name}
use yuhaiin.Lists.Hosts.{HostCall, reset_host, load_host, refresh_host, Log, log_of, run_host}
use yuhaiin.Lists.Named.{host_calls}

-- A list that can be read and is no process list.
unfoldable pub is_taken : Option (RouteListDetail × List Bytes) → Bool
is_taken none = false
is_taken (some (rules, iter)) = if rules.type ≟ "process" then false else true

or_last : (b c : Bool) → (b || c) ≡ (c || (b && true))
or_last b c = ground arith

or_none : (b c : Bool) → c ≡ (c || (b && false))
or_none b c = ground arith

-- What loading one list and then others comes to.
load_then :
    (is known later taken other : Bool)
    → (is ≡ true → other ≡ taken)
    → ((known || (is && other)) || (later && taken)) ≡ (known || ((is || later) && taken))
load_then true known later taken other same = rw (same refl) (ground arith)
load_then false known later taken other same = ground arith

cleared-none : (h : HostMatcher) (n : String) → include_host (clear_host h) n ≡ false
unfolding include_host clear_host has_name
cleared-none h n = refl

pub log_of-append :
    (before after : List HostCall) (log : Log)
    → log_of (before ++ after) log ≡ log_of after (log_of before log)
unfolding log_of
log_of-append [] after log = refl
log_of-append (reset_host ∷ before) after log = log_of-append before after []
log_of-append (load_host env name ∷ before) after log = log_of-append before after _
log_of-append (refresh_host env names ∷ before) after log = log_of-append before after _

module _ (parse : Bytes → Parsed) where
  loaded-include :
      (o : Option (RouteListDetail × List Bytes)) (m n : String) (h : HostMatcher)
      → include_host (add_host_loaded parse o m h) n ≡ (include_host h n || ((m ≟ n) && is_taken o))
  unfolding include_host add_host_loaded add_host is_taken
  loaded-include none m n h = or_none (m ≟ n) (include_host h n)
  loaded-include (some (rules, iter)) m n h = elim (Bool-cases (rules.type ≟ "process")) [
    | inl is ↦ rw is (or_none (m ≟ n) (include_host h n))
    | inr other ↦ rw other (has_name-add_name m n h.lists ∙ or_last (m ≟ n) (include_host h n))
  ]

  load-include :
      (env : Env) (m n : String) (h : HostMatcher)
      → include_host (load_host_list parse env m h) n
        ≡ (include_host h n || ((m ≟ n) && is_taken (get_iter env m)))
  unfolding load_host_list
  load-include env m n h = loaded-include (get_iter env m) m n h

  pub run_host-include :
      (env : Env) (calls : List ListCall) (h : HostMatcher) (n : String)
      → some_call resets calls ≡ false
      → include_host (run_host parse (host_calls env calls) h) n
        ≡ (include_host h n || (some_call (loads_host n) calls && is_taken (get_iter env n)))
  unfolding run_host host_calls some_call resets loads_host
  run_host-include env [] h n e = ground arith
  run_host-include env (reset_host_trie ∷ calls) h n e = absurd (cc e)
  run_host-include env (reset_process_trie ∷ calls) h n e = absurd (cc e)
  run_host-include env (add_new_process_list m ∷ calls) h n e = run_host-include env calls h n e
  run_host-include env (add_new_host_list m ∷ calls) h n e =
      run_host-include env calls (load_host_list parse env m h) n e
      ∙ ap (λ b. b || (some_call (loads_host n) calls && is_taken (get_iter env n)))
          (load-include env m n h)
      ∙ load_then (m ≟ n) (include_host h n) (some_call (loads_host n) calls)
          (is_taken (get_iter env n)) (is_taken (get_iter env m))
          (λ is. ap (λ x. is_taken (get_iter env x)) ((eq_iff m n).0 is))

  pub cleared-include :
      (env : Env) (calls : List ListCall) (h : HostMatcher) (n : String)
      → some_call resets calls ≡ false
      → include_host (run_host parse (reset_host ∷ host_calls env calls) h) n
        ≡ (some_call (loads_host n) calls && is_taken (get_iter env n))
  unfolding run_host
  cleared-include env calls h n e =
      run_host-include env calls (clear_host h) n e
      ∙ ap (λ b. b || (some_call (loads_host n) calls && is_taken (get_iter env n)))
          (cleared-none h n)

  pub run_host-append :
      (before after : List HostCall) (h : HostMatcher)
      → run_host parse (before ++ after) h ≡ run_host parse after (run_host parse before h)
  unfolding run_host
  run_host-append [] after h = refl
  run_host-append (reset_host ∷ before) after h = run_host-append before after _
  run_host-append (load_host env name ∷ before) after h = run_host-append before after _
  run_host-append (refresh_host env names ∷ before) after h = run_host-append before after _
