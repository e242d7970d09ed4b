-- ===== src/Lists/Found.antt =====
-- The process matcher under any sequence of calls, against what the calls promise.
use text.Mathlib.Text.{◌==◌ as ◌≟◌}
use Prim.Native.String.{String}
use yuhaiin.Prelude.{
  ◌≡◌, ◌⊎◌, ◌↔◌, refl, Bool, true, false, ◌&&◌, ◌||◌, Option, none, some, List, [], ◌∷◌, contains,
  same, same→eq, same_refl, lookup, inl, inr, Bool-cases, arith, IsMap,
}
use yuhaiin.Bytes.{Bytes, bytes_discrete}
use yuhaiin.Lists.Entries.{string_discrete, RouteListDetail, Env, get_iter}
use yuhaiin.Lists.{
  ProcessMatcher, new_process_trie, search_process, range_process, refresh_process_trie,
  add_process_loaded, load_process_list,
}
use yuhaiin.Lists.Processes.{
  finds, finds-add_processes, add_processes-IsMap, finds→include, include→finds,
}
use yuhaiin.Lists.Refresh.{loaded_entry, has_entry, refresh_process_trie-finds, from-IsMap}

-- The calls of the process matcher, the latest first.
pub data ProcessCall : Type 0 where
  reset_process : ProcessCall
  load_process : Env → String → ProcessCall
  refresh_process : Env → ProcessCall

unfoldable pub step_process : ProcessCall → ProcessMatcher → ProcessMatcher
step_process reset_process h = new_process_trie
step_process (load_process env name) h = load_process_list env name h
step_process (refresh_process env) h = refresh_process_trie env h

unfoldable pub run_processes : List ProcessCall → ProcessMatcher
unfolding step_process
run_processes [] = new_process_trie
run_processes (c ∷ earlier) = step_process c (run_processes earlier)

is_process : Option (RouteListDetail × List Bytes) → Bool
is_process none = false
is_process (some (rules, iter)) = rules.type ≟ "process"

-- A process list that can be read, with this entry.
unfoldable pub has_process : Env → String → Bytes → Bool
unfolding is_process
has_process env name p = is_process (get_iter env name) && has_entry env name p

-- What the calls promise, without a matcher: that the list `x` is found for the process `p`.
abbrev pub Found : List ProcessCall → Bytes → String → Type 0
Found [] p x = ⊥
Found (reset_process ∷ earlier) p x = ⊥
Found (load_process env name ∷ earlier) p x =
    Found earlier p x ⊎ ((name ≡ x) × (has_process env name p ≡ true))
Found (refresh_process env ∷ earlier) p x =
    ((q : Bytes) × Found earlier q x) × (has_entry env x p ≡ true)

loaded-finds :
    (o : Option (RouteListDetail × List Bytes)) (name : String) (h : ProcessMatcher) (p : Bytes)
    (x : String)
    → finds (add_process_loaded o name h) p x
      ≡ (finds h p x || (same string_discrete name x && (is_process o && loaded_entry o p)))
unfolding add_process_loaded is_process loaded_entry
loaded-finds none name h p x = ground arith
loaded-finds (some (rules, iter)) name h p x = elim (Bool-cases (rules.type ≟ "process")) [
  | inl is ↦ rw is (ground (arith, finds-add_processes h iter p name x))
  | inr other ↦ rw other (ground arith)
]

loaded-IsMap :
    (o : Option (RouteListDetail × List Bytes)) (name : String) (h : ProcessMatcher)
    → IsMap bytes_discrete h
    → IsMap bytes_discrete (add_process_loaded o name h)
unfolding add_process_loaded
loaded-IsMap none name h m = m
loaded-IsMap (some (rules, iter)) name h m = elim (Bool-cases (rules.type ≟ "process")) [
  | inl is ↦ rw is (add_processes-IsMap h iter name m)
  | inr other ↦ rw other m
]

step_process-IsMap :
    (c : ProcessCall) (h : ProcessMatcher)
    → IsMap bytes_discrete h
    → IsMap bytes_discrete (step_process c h)
unfolding step_process new_process_trie load_process_list refresh_process_trie
step_process-IsMap reset_process h m = tt
step_process-IsMap (load_process env name) h m = loaded-IsMap (get_iter env name) name h m
step_process-IsMap (refresh_process env) h m = from-IsMap env (range_process h) new_process_trie tt

run_processes-IsMap : (calls : List ProcessCall) → IsMap bytes_discrete (run_processes calls)
unfolding run_processes new_process_trie
run_processes-IsMap [] = tt
run_processes-IsMap (c ∷ earlier) =
    step_process-IsMap c (run_processes earlier) (run_processes-IsMap earlier)

new-finds : (p : Bytes) (x : String) → finds new_process_trie p x ≡ false
unfolding new_process_trie search_process contains lookup
new-finds p x = refl

load-finds :
    (env : Env) (name : String) (h : ProcessMatcher) (p : Bytes) (x : String)
    → finds (load_process_list env name h) p x
      ≡ (finds h p x || (same string_discrete name x && has_process env name p))
unfolding load_process_list has_process has_entry
load-finds env name h p x = loaded-finds (get_iter env name) name h p x

load-Found :
    (env : Env) (name : String) (h : ProcessMatcher) (p : Bytes) (x : String) {F : Type 0}
    → (finds h p x ≡ true) ↔ F
    → (finds (load_process_list env name h) p x ≡ true)
      ↔ (F ⊎ ((name ≡ x) × (has_process env name p ≡ true)))
load-Found env name h p x (to, from) = (
  λ e. elim (Bool-cases (finds h p x)) [
    | inl old ↦ inl (to old)
    | inr new ↦ inr (
      same→eq string_discrete name x (ground (arith, load-finds env name h p x)),
      ground (arith, load-finds env name h p x),
    )
  ],
  λ f. elim f [
    | inl old ↦ ground (arith, load-finds env name h p x, from old)
    | inr (is, has) ↦
        rw (load-finds env name h p x, has, ← is, same_refl string_discrete name) (ground arith)
  ],
)

refresh-Found :
    (env : Env) (h : ProcessMatcher) (p : Bytes) (x : String) {F : Bytes → Type 0}
    → IsMap bytes_discrete h
    → ((q : Bytes) → (finds h q x ≡ true) ↔ F q)
    → (finds (refresh_process_trie env h) p x ≡ true)
      ↔ (((q : Bytes) × F q) × (has_entry env x p ≡ true))
refresh-Found env h p x m same_as = (
  λ e.
      let (q, found) = include→finds h x m (ground (arith, refresh_process_trie-finds env h p x)) in
      ((q, (same_as q).0 found), ground (arith, refresh_process_trie-finds env h p x)),
  λ f.
      let (q, found) = f.0 in
      ground (
        arith,
        refresh_process_trie-finds env h p x,
        finds→include h q x ((same_as q).1 found),
        f.1,
      ),
)

-- After any calls, with any book and files at each, a search for a process finds a list exactly
-- when the calls promise it. A reset promises nothing. A load adds what its list has to what was
-- promised, where it can be read and is a process list. A refresh promises what can be read then
-- of the lists that were promised for some process.
pub run_processes-Found :
    (calls : List ProcessCall) (p : Bytes) (x : String)
    → (contains string_discrete (search_process (run_processes calls) p) x ≡ true) ↔ Found calls p x
unfolding run_processes step_process
run_processes-Found [] p x = (λ e. absurd (cc (new-finds p x)), λ f. elim f [ ])
run_processes-Found (reset_process ∷ earlier) p x =
    (λ e. absurd (cc (new-finds p x)), λ f. elim f [ ])
run_processes-Found (load_process env name ∷ earlier) p x =
    load-Found env name (run_processes earlier) p x (run_processes-Found earlier p x)
run_processes-Found (refresh_process env ∷ earlier) p x =
    refresh-Found env (run_processes earlier) p x (run_processes-IsMap earlier)
      (λ q. run_processes-Found earlier q x)
