-- ===== src/Lists/Refresh.antt =====
-- What a refresh of the process matcher reads, and what it finds afterwards.
use Prim.Native.String.{String}
use yuhaiin.Prelude.{
  ◌≡◌, refl, ◌∙◌, Bool, true, false, ◌&&◌, ◌||◌, Option, none, some, List, [], ◌∷◌, contains, same,
  same→eq, lookup, inl, inr, Bool-cases, arith, IsMap,
}
use yuhaiin.Bytes.{Bytes, bytes_discrete}
use yuhaiin.Lists.Entries.{string_discrete, RouteListDetail, Env, get_iter}
use yuhaiin.Lists.{
  ProcessMatcher, new_process_trie, search_process, include_process, refresh_process_one,
  refresh_process_from, refresh_process_trie, range_process,
}
use yuhaiin.Lists.Processes.{
  finds, finds-add_processes, add_processes-IsMap, include-add_processes, finds→include,
}

unfoldable pub loaded_entry : Option (RouteListDetail × List Bytes) → Bytes → Bool
loaded_entry none p = false
loaded_entry (some (rules, iter)) p = contains bytes_discrete iter p

-- The list can be read, and has the entry.
unfoldable pub has_entry : Env → String → Bytes → Bool
unfolding loaded_entry
has_entry env name p = loaded_entry (get_iter env name) p

-- What the refresh has read so far.
abbrev IsRead : Env → ProcessMatcher → Type 0
IsRead env h =
    (x : String) (p : Bytes) → include_process h x ≡ true → finds h p x ≡ has_entry env x p

finds-not_included :
    (h : ProcessMatcher) (p : Bytes) (x : String)
    → include_process h x ≡ false
    → finds h p x ≡ false
finds-not_included h p x e = elim (Bool-cases (finds h p x)) [
  | inl found ↦ absurd (cc (finds→include h p x found))
  | inr not_found ↦ not_found
]

one-finds :
    (o : Option (RouteListDetail × List Bytes)) (name : String) (h : ProcessMatcher) (p : Bytes)
    (x : String)
    → finds (refresh_process_one o name h) p x
      ≡ (finds h p x || (loaded_entry o p && same string_discrete name x))
unfolding refresh_process_one loaded_entry
one-finds none name h p x = ground arith
one-finds (some (rules, iter)) name h p x = finds-add_processes h iter p name x

one-IsMap :
    (o : Option (RouteListDetail × List Bytes)) (name : String) (h : ProcessMatcher)
    → IsMap bytes_discrete h
    → IsMap bytes_discrete (refresh_process_one o name h)
unfolding refresh_process_one
one-IsMap none name h m = m
one-IsMap (some (rules, iter)) name h m = add_processes-IsMap h iter name m

one-include :
    (o : Option (RouteListDetail × List Bytes)) (name : String) (h : ProcessMatcher) (x : String)
    → IsMap bytes_discrete h
    → same string_discrete name x ≡ false
    → include_process (refresh_process_one o name h) x ≡ include_process h x
unfolding refresh_process_one
one-include none name h x m other = refl
one-include (some (rules, iter)) name h x m other =
    ground (arith, include-add_processes h iter name x m)

one-IsRead :
    (env : Env) (name : String) (h : ProcessMatcher)
    → IsMap bytes_discrete h
    → include_process h name ≡ false
    → IsRead env h
    → IsRead env (refresh_process_one (get_iter env name) name h)
unfolding has_entry
one-IsRead env name h m new g x p inc = elim (Bool-cases (same string_discrete name x)) [
  | inl same_one ↦ ground (
    arith,
    one-finds (get_iter env name) name h p x,
    same→eq string_discrete name x,
    finds-not_included h p name new,
    finds-not_included h p x,
  )
  | inr other ↦ ground (
    arith,
    one-finds (get_iter env name) name h p x,
    one-include (get_iter env name) name h x m other,
    g x p,
  )
]

one-entry :
    (env : Env) (name x : String) (p : Bytes)
    → (loaded_entry (get_iter env name) p && same string_discrete name x)
      ≡ (same string_discrete name x && has_entry env x p)
unfolding has_entry
one-entry env name x p = ground (arith, same→eq string_discrete name x)

from-finds :
    (env : Env) (names : List String) (h : ProcessMatcher) (p : Bytes) (x : String)
    → IsMap bytes_discrete h
    → IsRead env h
    → finds (refresh_process_from env names h) p x
      ≡ (finds h p x || (contains string_discrete names x && has_entry env x p))
unfolding refresh_process_from contains
from-finds env [] h p x m g = ground arith
from-finds env (name ∷ names) h p x m g = elim (Bool-cases (include_process h name)) [
  | inl old ↦
      rw old (
        ground
          (arith, from-finds env names h p x m g, same→eq string_discrete name x, g name p old))
  | inr new ↦ rw new (
      ground (
        arith,
        from-finds env names (refresh_process_one (get_iter env name) name h) p x
            (one-IsMap (get_iter env name) name h m) (one-IsRead env name h m new g),
        one-finds (get_iter env name) name h p x,
        one-entry env name x p,
      ))
]

-- A refreshed matcher finds a list for a process exactly when the old matcher had the list for any
-- process, and the list can now be read and has this process.
pub refresh_process_trie-finds :
    (env : Env) (h : ProcessMatcher) (p : Bytes) (x : String)
    → finds (refresh_process_trie env h) p x ≡ (include_process h x && has_entry env x p)
unfolding refresh_process_trie include_process
refresh_process_trie-finds env h p x =
    from-finds env (range_process h) new_process_trie p x (unfold new_process_trie in tt)
      (λ x p e. unfold new_process_trie range_process contains in absurd (cc e))
    ∙ (unfold new_process_trie search_process contains lookup in refl)

pub from-IsMap :
    (env : Env) (names : List String) (h : ProcessMatcher)
    → IsMap bytes_discrete h
    → IsMap bytes_discrete (refresh_process_from env names h)
unfolding refresh_process_from
from-IsMap env [] h m = m
from-IsMap env (name ∷ names) h m = elim (Bool-cases (include_process h name)) [
  | inl old ↦ rw old (from-IsMap env names h m)
  | inr new ↦ rw new (from-IsMap env names _ (one-IsMap (get_iter env name) name h m))
]
