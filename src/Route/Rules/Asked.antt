-- ===== src/Route/Rules/Asked.antt =====
-- The calls on the lists that an Update makes.
use yuhaiin.Prelude.{
  ◌≡◌, refl, ap, sym, ◌∙◌, List, [], ◌∷◌, ◌++◌, append-nil, append_assoc, Bool-cases, inl, inr,
  if◌then◌else◌,
}
use yuhaiin.Route.{RouteRule}
use yuhaiin.Route.Rules.{
  ListCall, reset_host_trie, reset_process_trie, parse_matcher, MatchEntry, Matchers, append_rule,
  append_rules, update,
}

-- The lists that the rules which are not disabled are compiled over, in their order.
unfoldable pub calls_of : List RouteRule → List ListCall
calls_of [] = []
calls_of (r ∷ rules) = (if r.disabled then [] else (parse_matcher r).1) ++ calls_of rules

append_rule-calls :
    (ms : List MatchEntry) (s : Matchers) (r : RouteRule)
    → (append_rule (ms, s) r).1.calls ≡ s.calls ++ (if r.disabled then [] else (parse_matcher r).1)
unfolding append_rule
append_rule-calls ms s r = elim (Bool-cases r.disabled) [
  | inl off ↦ rw (off, append-nil) refl
  | inr on ↦ rw on refl
]

append_rules-calls :
    (p : List MatchEntry × Matchers) (rules : List RouteRule)
    → (append_rules p rules).1.calls ≡ p.1.calls ++ calls_of rules
unfolding append_rules calls_of
append_rules-calls p [] = sym (append-nil p.1.calls)
append_rules-calls p (r ∷ rules) =
    append_rules-calls (append_rule p r) rules
    ∙ ap (λ (cs : List ListCall). cs ++ calls_of rules) (append_rule-calls p.0 p.1 r)
    ∙ append_assoc p.1.calls (if r.disabled then [] else (parse_matcher r).1) (calls_of rules)

pub update-calls :
    (s : Matchers) (rules : List RouteRule)
    → (update s rules).calls ≡ s.calls ++ (reset_host_trie ∷ reset_process_trie ∷ calls_of rules)
unfolding update
update-calls s rules =
    append_rules-calls _ rules
    ∙ append_assoc s.calls (reset_host_trie ∷ reset_process_trie ∷ []) (calls_of rules)
