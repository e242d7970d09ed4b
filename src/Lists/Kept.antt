-- ===== src/Lists/Kept.antt =====
-- The set of lists of the host matcher: which names a refresh keeps, and for which lists a refresh is
-- what a reset and the lists' loading again would be.
use text.Mathlib.Text.{◌==◌ as ◌≟◌}
use text.Mathlib.TextEquality.{eq_iff}
use Prim.Native.String.{String}
use yuhaiin.Prelude.{
  ◌≡◌, refl, ap, ◌∙◌, Bool, true, false, ◌&&◌, ◌||◌, Option, none, some, List, [], ◌∷◌, inl, inr,
  Bool-cases, arith, map,
}
use yuhaiin.Bytes.{Bytes}
use yuhaiin.Tries.{Parsed}
use yuhaiin.Route.Texts.{has_name, add_name}
use yuhaiin.Lists.Entries.{RouteListDetail, Env, get_iter}
use yuhaiin.Lists.{
  HostMatcher, new_host_trie, include_host, add_host, refresh_host_one, refresh_host_from,
  refresh_host_trie, add_host_loaded, load_host_list,
}
use yuhaiin.Lists.Hosts.{load_host, run_host}

can_read : Option (RouteListDetail × List Bytes) → Bool
can_read none = false
can_read (some loaded) = true

-- `getIter` gives no error.
unfoldable pub readable : Env → String → Bool
unfolding can_read
readable env name = can_read (get_iter env name)

held_name :
    (s n : String) (xs : List String) → has_name xs s ≡ true → (s ≟ n) ≡ true → has_name xs n ≡ true
held_name s n xs h e = rw (← (eq_iff s n).0 e) h

readable_same :
    (env : Env) (name n : String)
    → (name ≟ n) ≡ true
    → can_read (get_iter env name) ≡ readable env n
unfolding readable
readable_same env name n e = ap (λ x. can_read (get_iter env x)) ((eq_iff name n).0 e)

has_name-add_name :
    (s n : String) (xs : List String) → has_name (add_name s xs) n ≡ (has_name xs n || (s ≟ n))
unfolding add_name has_name
has_name-add_name s n xs = elim (Bool-cases (has_name xs s)) [
  | inl old ↦ rw old (ground (arith, (eq_iff s n).0, held_name s n xs old))
  | inr new ↦ rw new (ground arith)
]

module _ (parse : Bytes → Parsed) where
  one-include :
      (o : Option (RouteListDetail × List Bytes)) (name n : String) (h : HostMatcher)
      → include_host (refresh_host_one parse o name h) n
        ≡ (include_host h n || (can_read o && (name ≟ n)))
  unfolding include_host refresh_host_one can_read add_host
  one-include none name n h = ground arith
  one-include (some (rules, iter)) name n h = has_name-add_name name n h.lists

  from-include :
      (env : Env) (names : List String) (n : String) (h : HostMatcher)
      → include_host (refresh_host_from parse env names h) n
        ≡ (include_host h n || (has_name names n && readable env n))
  unfolding refresh_host_from has_name
  from-include env [] n h = ground arith
  from-include env (name ∷ names) n h = ground (
    arith,
    from-include env names n (refresh_host_one parse (get_iter env name) name h),
    one-include (get_iter env name) name n h,
    readable_same env name n,
  )

  -- A refresh keeps the names of the lists that it can read, of whatever type they are now.
  refresh_host_trie-include :
      (env : Env) (names : List String) (n : String)
      → include_host (refresh_host_trie parse env names) n ≡ (has_name names n && readable env n)
  unfolding refresh_host_trie
  refresh_host_trie-include env names n =
      from-include env names n new_host_trie ∙ (unfold new_host_trie include_host has_name in refl)

  -- Of two refreshes in a row, the second in any order of the names that the first left in its set, the
  -- second keeps exactly the names of the first that both could read: a list that the first could not
  -- read stays out, although the second could.
  pub refresh_host_twice-include :
      (env later : Env) (names order : List String) (n : String)
      → ((m : String) → has_name order m ≡ include_host (refresh_host_trie parse env names) m)
      → include_host (refresh_host_trie parse later order) n
        ≡ (has_name names n && (readable env n && readable later n))
  refresh_host_twice-include env later names order n same_set = ground (
    arith,
    refresh_host_trie-include later order n,
    refresh_host_trie-include env names n,
    same_set n,
  )

  abbrev NotProcess : Option (RouteListDetail × List Bytes) → Type 0
  NotProcess none = Unit
  NotProcess (some (rules, iter)) = (rules.type ≟ "process") ≡ false

  one_loads :
      (o : Option (RouteListDetail × List Bytes)) (name : String) (m : HostMatcher)
      → NotProcess o
      → refresh_host_one parse o name m ≡ add_host_loaded parse o name m
  unfolding refresh_host_one add_host_loaded
  one_loads none name m h = refl
  one_loads (some (rules, iter)) name m h = rw h refl

  from_loads :
      (env : Env) (names : List String) (m : HostMatcher)
      → ((n : String) → has_name names n ≡ true → NotProcess (get_iter env n))
      → refresh_host_from parse env names m ≡ run_host parse (map (λ n. load_host env n) names) m
  unfolding refresh_host_from run_host load_host_list
  from_loads env [] m h = refl
  from_loads env (name ∷ names) m h =
      ap (λ r. refresh_host_from parse env names r)
        (one_loads (get_iter env name) name m
          (h name (unfold has_name in rw ((eq_iff name name).1 refl) refl)))
      ∙ from_loads env names (add_host_loaded parse (get_iter env name) name m)
          (λ n e. h n (unfold has_name in ground (arith, e)))

  -- Where no list of the set is a process list now, a refresh leaves the matcher that a new one is
  -- after each list of the set is loaded, in the same order.
  pub refresh_host_trie-loads :
      (env : Env) (names : List String)
      → ((n : String) → has_name names n ≡ true → NotProcess (get_iter env n))
      → refresh_host_trie parse env names
        ≡ run_host parse (map (λ n. load_host env n) names) new_host_trie
  refresh_host_trie-loads env names h =
      unfold refresh_host_trie in from_loads env names new_host_trie h
