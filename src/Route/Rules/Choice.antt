-- ===== src/Route/Rules/Choice.antt =====
-- The rule that is chosen: the first that is enabled and satisfied.
use text.Mathlib.Text.{◌==◌ as ◌≟◌}
use mathlib.Core.List.{append-nil, append_assoc}
use yuhaiin.Prelude.{
  ◌≡◌, refl, sym, ap, ◌∙◌, Bool, true, false, List, [], ◌∷◌, ◌++◌, if◌then◌else◌, Bool-cases, inl,
  inr,
}
use yuhaiin.Route.{RouteRule, Known, Context, Address, new_match, matches}
use yuhaiin.Route.Texts.{add_name}
use yuhaiin.Route.Modes.{ModeEnum, proxy_mode}
use yuhaiin.Route.Rules.{
  mode_enum_from_rule, parse_matcher, reset_host_trie, reset_process_trie, MatchEntry, Matchers,
  append_rule, append_rules, update, match_entries, match,
}
use yuhaiin.Route.Rules.Semantics.{matches-Decides}
use yuhaiin.Route.Rules.Stated.{some_satisfied}
use yuhaiin.Route.Rules.Meaning.{parse_matcher-holds}

-- The mode of the first rule that is enabled and satisfied, or the proxy mode.
unfoldable pub chosen : List RouteRule → Known → Address → ModeEnum
unfolding some_satisfied
chosen [] k a = proxy_mode
chosen (r ∷ rs) k a =
    let rest = chosen rs k a in
    if r.disabled then rest else if some_satisfied r.rules k a then mode_enum_from_rule r else rest

entry : RouteRule → MatchEntry
entry r = record { matcher = (parse_matcher r).0; name = r.name; mode = mode_enum_from_rule r }

entries : List RouteRule → List MatchEntry
unfolding entry
entries [] = []
entries (r ∷ rs) = let rest = entries rs in if r.disabled then rest else entry r ∷ rest

-- What a rule leaves besides its entry.
abbrev loaded : Matchers → RouteRule → Matchers
loaded s r = record s {
  calls = s.calls ++ (parse_matcher r).1;
  tags = if r.tag ≟ "" then s.tags else add_name r.tag s.tags;
}

load : Matchers → RouteRule → Matchers
load s r = if r.disabled then s else loaded s r

load_all : Matchers → List RouteRule → Matchers
unfolding load
load_all s [] = s
load_all s (r ∷ rs) = load_all (load s r) rs

append_rules_lem :
    (rs : List RouteRule) (ms : List MatchEntry) (s : Matchers)
    → append_rules (ms, s) rs ≡ (ms ++ entries rs, load_all s rs)
unfolding append_rules entries load_all
append_rules_lem [] ms s = ap (λ es. (es, s)) (sym (append-nil ms))
append_rules_lem (r ∷ rs) ms s = elim (Bool-cases r.disabled) [
  | inl off ↦ unfold append_rule load in rw off (append_rules_lem rs ms s)
  | inr on ↦
      unfold append_rule load in
      rw on (
        append_rules_lem rs (ms ++ (entry r ∷ [])) (loaded s r)
        ∙ ap (λ es. (es, load_all (loaded s r) rs)) (append_assoc ms (entry r ∷ []) (entries rs)))
]

pick :
    (r : Bool × Context) (b : Bool) (m : ModeEnum) (x : ModeEnum × Context) (y : ModeEnum)
    → r.0 ≡ b
    → x.0 ≡ y
    → (if r.0 then (m, r.1) else x).0 ≡ (if b then m else y)
pick r true m x y e f = rw e refl
pick r false m x y e f = rw e f

entries-chosen :
    (rs : List RouteRule) (c : Context) (a : Address) (k : Known)
    → c.known ≡ k
    → (match_entries (entries rs) c a).0 ≡ chosen rs k a
unfolding match_entries entries chosen mode_enum_from_rule new_match parse_matcher matches
entries-chosen [] c a k e = refl
entries-chosen (r ∷ rs) c a k e = elim (Bool-cases r.disabled) [
  | inl off ↦ rw off (entries-chosen rs c a k e)
  | inr on ↦
      let d =
        matches-Decides (parse_matcher r).0 (new_match c r.name) a k (unfold new_match in e) in
      rw on (
        pick (matches (parse_matcher r).0 (new_match c r.name) a) (some_satisfied r.rules k a)
          (mode_enum_from_rule r)
          (match_entries (entries rs) (matches (parse_matcher r).0 (new_match c r.name) a).1 a)
          (chosen rs k a) (d.0 ∙ parse_matcher-holds k a r)
          (entries-chosen rs (matches (parse_matcher r).0 (new_match c r.name) a).1 a k d.1))
]

-- After an update, a connection is given the mode of the first rule that is enabled and satisfied,
-- and the proxy mode if there is none, whatever rules there were before.
pub update-match :
    (s : Matchers) (rs : List RouteRule) (c : Context) (a : Address)
    → (match (update s rs) c a).0 ≡ chosen rs c.known a
unfolding match update
update-match s rs c a =
    ap (λ p. (match_entries p.0 c a).0)
      (append_rules_lem rs []
        (record s { calls = s.calls ++ (reset_host_trie ∷ reset_process_trie ∷ []); tags = [] }))
    ∙ entries-chosen rs c a c.known refl
