-- ===== src/Lists/Named.antt =====
-- What the two matchers hold after calls that load lists, against which lists the calls load.
use text.Mathlib.Text.{◌==◌ as ◌≟◌}
use text.Mathlib.TextEquality.{eq_iff}
use Prim.Native.String.{String}
use yuhaiin.Prelude.{
  ◌≡◌, ◌⊎◌, ◌↔◌, sym, ap, ◌∙◌, Bool, true, false, ◌||◌, Option, none, some, List, [], ◌∷◌, ◌++◌,
  if◌then◌else◌, inl, inr, Bool-cases, arith, subst,
}
use yuhaiin.Bytes.{Bytes}
use yuhaiin.Route.Rules.{
  ListCall, reset_host_trie, reset_process_trie, add_new_host_list, add_new_process_list,
}
use yuhaiin.Route.{RouteRule}
use yuhaiin.Route.Rules.Asked.{calls_of}
use yuhaiin.Route.Rules.Stated.{host_condition, process_condition, some_enabled}
use yuhaiin.Route.Rules.Named.{
  some_call, loads_host, loads_process, resets, calls_of-hosts, calls_of-processes, calls_of-resets,
}
use yuhaiin.Lists.Entries.{RouteListDetail, Env, get_iter}
use yuhaiin.Lists.Hosts.{HostCall, reset_host, load_host, Log, log_loaded, log_of}
use yuhaiin.Lists.Found.{Found, has_process, ProcessCall, reset_process, load_process}

-- The calls of the host matcher among the calls on the lists, and those of the process matcher, the
-- latest first, onto the ones before.
unfoldable pub host_calls : Env → List ListCall → List HostCall
host_calls env [] = []
host_calls env (reset_host_trie ∷ calls) = reset_host ∷ host_calls env calls
host_calls env (add_new_host_list name ∷ calls) = load_host env name ∷ host_calls env calls
host_calls env (reset_process_trie ∷ calls) = host_calls env calls
host_calls env (add_new_process_list name ∷ calls) = host_calls env calls

unfoldable pub process_calls : Env → List ListCall → List ProcessCall → List ProcessCall
process_calls env [] earlier = earlier
process_calls env (reset_process_trie ∷ calls) earlier =
    process_calls env calls (reset_process ∷ earlier)
process_calls env (add_new_process_list name ∷ calls) earlier =
    process_calls env calls (load_process env name ∷ earlier)
process_calls env (reset_host_trie ∷ calls) earlier = process_calls env calls earlier
process_calls env (add_new_host_list name ∷ calls) earlier = process_calls env calls earlier

-- The entries of a list that the host matcher takes: those of one that can be read and is no process
-- list.
unfoldable pub host_entries : Option (RouteListDetail × List Bytes) → Option (List Bytes)
host_entries none = none
host_entries (some (rules, iter)) = if rules.type ≟ "process" then none else some iter

-- The log has this list with these entries.
abbrev pub Has : Log → String → List Bytes → Type 0
Has [] n iter = ⊥
Has ((m, entries) ∷ log) n iter = ((m ≡ n) × (entries ≡ iter)) ⊎ Has log n iter

Has-append :
    (l k : Log) (n : String) (iter : List Bytes)
    → Has (l ++ k) n iter ↔ (Has l n iter ⊎ Has k n iter)
Has-append [] k n iter = (λ h. inr h, λ h. elim h [ inl f ↦ absurd f | inr g ↦ g ])
Has-append ((m, entries) ∷ l) k n iter = (
  λ h. elim h [
    | inl is ↦ inl (inl is)
    | inr more ↦ elim ((Has-append l k n iter).0 more) [ inl a ↦ inl (inr a) | inr b ↦ inr b ]
  ],
  λ h. elim h [
    | inl here ↦ elim here [
      | inl is ↦ inl is
      | inr more ↦ inr ((Has-append l k n iter).1 (inl more))
    ]
    | inr later ↦ inr ((Has-append l k n iter).1 (inr later))
  ],
)

log_loaded-Has :
    (o : Option (RouteListDetail × List Bytes)) (m n : String) (iter : List Bytes)
    → Has (log_loaded o m) n iter ↔ ((m ≡ n) × (host_entries o ≡ some iter))
unfolding log_loaded host_entries
log_loaded-Has none m n iter = (λ h. absurd h, λ e. absurd (cc e.1))
log_loaded-Has (some (rules, entries)) m n iter = elim (Bool-cases (rules.type ≟ "process")) [
  | inl is ↦ rw is ((λ h. absurd h, λ e. absurd (cc e.1)))
  | inr other ↦ rw other (
      (
        λ h. elim h [ inl same ↦ (same.0, ap some same.1) | inr f ↦ absurd f ],
        λ e. inl (e.0, cc e.1),
      ))
]

quiet_here : (a b : Bool) → (a || b) ≡ false → (a ≡ false) × (b ≡ false)
quiet_here a b e = ground (arith, e)

-- Calls that reset nothing: the log keeps what it has, and has besides the lists that they load.
log_of-Has :
    (env : Env) (calls : List ListCall) (log : Log) (n : String) (iter : List Bytes)
    → some_call resets calls ≡ false
    → Has (log_of (host_calls env calls) log) n iter ↔ (
        Has log n iter
        ⊎ ((some_call (loads_host n) calls ≡ true) × (host_entries (get_iter env n) ≡ some iter)))
unfolding some_call resets loads_host host_calls log_of
log_of-Has env [] log n iter e = (λ h. inl h, λ h. elim h [ inl g ↦ g | inr f ↦ absurd (cc f.0) ])
log_of-Has env (reset_host_trie ∷ calls) log n iter e = absurd (cc e)
log_of-Has env (reset_process_trie ∷ calls) log n iter e = absurd (cc e)
log_of-Has env (add_new_process_list m ∷ calls) log n iter e = log_of-Has env calls log n iter e
log_of-Has env (add_new_host_list m ∷ calls) log n iter e =
    let rest = log_of-Has env calls (log ++ log_loaded (get_iter env m) m) n iter e in
    let parts = Has-append log (log_loaded (get_iter env m) m) n iter in
    let here = log_loaded-Has (get_iter env m) m n iter in
    (
      λ h. elim (rest.0 h) [
        | inl old ↦ elim (parts.0 old) [
          | inl before ↦ inl before
          | inr one ↦
              let same = here.0 one in
              inr (
                ap (λ b. b || some_call (loads_host n) calls) ((eq_iff m n).1 same.0),
                subst (λ x. host_entries (get_iter env x) ≡ some iter) same.0 same.1,
              )
        ]
        | inr later ↦ inr (ground (arith, later.0), later.1)
      ],
      λ h. elim h [
        | inl before ↦ rest.1 (inl (parts.1 (inl before)))
        | inr (asked, reads) ↦ elim (Bool-cases (m ≟ n)) [
          | inl is ↦
              let same = (eq_iff m n).0 is in
              rest.1 (
                inl (
                  parts.1 (
                    inr (
                      here.1 (
                        same,
                        subst (λ x. host_entries (get_iter env x) ≡ some iter) (sym same) reads,
                      )))))
          | inr other ↦ rest.1 (inr (ground (arith, asked, other), reads))
        ]
      ],
    )

-- What is promised after such calls: what was promised before, and the process lists that they load.
process_calls-Found :
    (env : Env) (calls : List ListCall) (earlier : List ProcessCall) (p : Bytes) (x : String)
    → some_call resets calls ≡ false
    → Found (process_calls env calls earlier) p x ↔ (
        Found earlier p x
        ⊎ ((some_call (loads_process x) calls ≡ true) × (has_process env x p ≡ true)))
unfolding some_call resets loads_process process_calls
process_calls-Found env [] earlier p x e =
    (λ h. inl h, λ h. elim h [ inl g ↦ g | inr f ↦ absurd (cc f.0) ])
process_calls-Found env (reset_host_trie ∷ calls) earlier p x e = absurd (cc e)
process_calls-Found env (reset_process_trie ∷ calls) earlier p x e = absurd (cc e)
process_calls-Found env (add_new_host_list m ∷ calls) earlier p x e =
    process_calls-Found env calls earlier p x e
process_calls-Found env (add_new_process_list m ∷ calls) earlier p x e =
    let rest = process_calls-Found env calls (load_process env m ∷ earlier) p x e in
    (
      λ h. elim (rest.0 h) [
        | inl old ↦ elim old [
          | inl before ↦ inl before
          | inr (same, has) ↦ inr (
            ap (λ b. b || some_call (loads_process x) calls) ((eq_iff m x).1 same),
            subst (λ y. has_process env y p ≡ true) same has,
          )
        ]
        | inr later ↦ inr (ground (arith, later.0), later.1)
      ],
      λ h. elim h [
        | inl before ↦ rest.1 (inl (inl before))
        | inr (asked, has) ↦ elim (Bool-cases (m ≟ x)) [
          | inl is ↦
              let same = (eq_iff m x).0 is in
              rest.1 (inl (inr (same, subst (λ y. has_process env y p ≡ true) (sym same) has)))
          | inr other ↦ rest.1 (inr (ground (arith, asked, other), has))
        ]
      ],
    )

-- The log has exactly the lists that an enabled rule names in a condition of type "host" and the host
-- matcher takes, with their entries.
abbrev pub LogsNamed : Env → List RouteRule → Log → Type 0
LogsNamed env rules log =
    (n : String) (iter : List Bytes)
    → Has log n iter ↔ (
        (some_enabled (host_condition n) rules ≡ true)
        × (host_entries (get_iter env n) ≡ some iter))

pub calls_of-LogsNamed :
    (env : Env) (rules : List RouteRule)
    → LogsNamed env rules (log_of (host_calls env (calls_of rules)) [])
calls_of-LogsNamed env rules n iter =
    let loads = log_of-Has env (calls_of rules) [] n iter (calls_of-resets rules) in
    let asked = calls_of-hosts n rules in
    (
      λ h. elim (loads.0 h) [ inl f ↦ absurd f | inr (is, reads) ↦ (sym asked ∙ is, reads) ],
      λ h. loads.1 (inr (asked ∙ h.0, h.1)),
    )

pub calls_of-Found :
    (env : Env) (rules : List RouteRule) (process : Bytes) (name : String)
    → Found (process_calls env (calls_of rules) []) process name ↔ (
        (some_enabled (process_condition name) rules ≡ true)
        × (has_process env name process ≡ true))
calls_of-Found env rules process name =
    let loads = process_calls-Found env (calls_of rules) [] process name (calls_of-resets rules) in
    let asked = calls_of-processes name rules in
    (
      λ h. elim (loads.0 h) [ inl f ↦ absurd f | inr (is, has) ↦ (sym asked ∙ is, has) ],
      λ h. loads.1 (inr (asked ∙ h.0, h.1)),
    )
