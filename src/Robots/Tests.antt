-- ===== src/Robots/Tests.antt =====
-- Runs of the robots.txt code, and the theorems at concrete inputs.
use growth_os.Prelude.{
  ℕ, ◌+◌, ◌≤◌, ◌<◌, ◌≡◌, ◌≢◌, refl, ◌↔◌, ◌⊎◌, Bool, true, false, Option, none, some, [], ◌∷◌, ◌++◌,
  map, arith, Result, ok, err, Within,
}
use growth_os.Text.{Text, Bytes, codes, split_first, before, strip, lower, ends_with, split_lines}
use growth_os.Text.Utf8.{decode, encode_char}
use growth_os.Acquisition.Fetched.{RobotsFetchErrorCode, FetchedRobots}
use growth_os.Robots.Policy.Match.{
  Rule, pattern_of, matches, scan, start, rounds, advance, skip_stars, backtrack, same_at, star_at,
}
use growth_os.Robots.Policy.Match.Spec.{Matches, scan-Decides}
use growth_os.Robots.Policy.Normalize.{
  Piece, normalize, is_hex, hex_value, octet_piece, char_piece, escape_all, is_valid_target,
}
use growth_os.Robots.Policy.Normalize.Idempotent.{normalize-normalize}
use growth_os.Robots.Policy.Groups.{
  Group, parse_groups, parse_line, parse_field, parse_rule, rule_of, drop_last, count_literals,
  is_product_token,
}
use growth_os.Robots.Policy.Evaluate.{
  invalid_input as invalid_target, Raised, policy_error, value_error, Decision, matched_allow,
  matched_disallow, evaluate_robots, decide, decide_groups, decide_selected, winner_decision,
  pick_winner, unique_rules, unique_from, has_rule, rule_eq, contend, beats, matched_agent,
  selected_groups, groups_where, names_product, names_all, rules_of, is_robots_uri,
}
use growth_os.Robots.Policy.Evaluate.Outcomes.{
  IsAcceptable, evaluate_robots-decide, evaluate_robots-ne-value_error,
}
use growth_os.Robots.Policy.Evaluate.Selection.{Applies, selected_rules-Applies}
use growth_os.Robots.Cache.{
  utc, day, invalid_input as invalid_instant, fresh, CacheDecision, evaluate_robots_cache,
}
use growth_os.Robots.Cache.Window.{IsRefused, evaluate_robots_cache-invalid, reusable-window}
use growth_os.Robots.Access.{
  unavailable, AccessDecision, AccessRaised, from_policy, is_bad_input, status_access, check_target,
  dispatch, evaluate_robots_access,
}
use growth_os.Robots.Access.FailClosed.{
  NoFile, PolicyAllows, evaluate_robots_access-allowed, evaluate_robots_access-raises,
}
use growth_os.Robots.Gate.{
  access, GateDecision, GateRaised, invalid_input as invalid_gate, from_access, is_valid_fetched,
  evaluate_robots_gate,
}
use growth_os.Robots.Binding.{BoundRobotsDecision, evaluate_bound_robots}
use growth_os.Acquisition.Transport.{Transport}
use growth_os.Robots.Binding.Given.{IsGiven}
use growth_os.Robots.Binding.Bound.{IsBound, evaluate_bound_robots-IsBound}
use growth_os.Robots.Binding.Tests.{net}
use growth_os.Robots.Gate.FailClosed.{evaluate_robots_gate-allowed, evaluate_robots_gate-raises}

abbrev file : Text
file = codes "User-agent: *" ++ 10 ∷ codes "Disallow: /a*c" ++ 10 ∷ codes "Allow: /a" ++ 10 ∷ []

abbrev target : Piece
target = (codes "/abc", map some (codes "/abc"))

abbrev refused : Decision
refused = record {
  allowed = false;
  reason = matched_disallow;
  matched_user_agent = some (codes "*");
  matched_rule = some (codes "/a*c");
}

file-IsAcceptable : IsAcceptable file file (codes "/%61bc")
unfolding decode is_valid_target
file-IsAcceptable = record { fits = refl; decodes = refl; valid = refl }

target-normalized : normalize false (codes "/%61bc") ≡ some target
unfolding normalize is_hex hex_value octet_piece char_piece
target-normalized = refl

-- `run` opens all that a run of `evaluate_robots` goes through.
run : Bytes → Text → Result Raised Decision
unfolding evaluate_robots decode is_valid_target normalize is_hex hex_value octet_piece char_piece
    encode_char escape_all decide is_robots_uri before decide_groups decide_selected winner_decision
    pick_winner unique_rules unique_from has_rule rule_eq contend beats matches pattern_of scan
    advance skip_stars backtrack same_at star_at matched_agent selected_groups groups_where
    names_product names_all rules_of parse_groups split_lines parse_line split_first strip lower
    parse_field is_product_token parse_rule rule_of ends_with drop_last count_literals
run = evaluate_robots

-- At equal length an allowing rule wins.
tie_allowed :
    (d : Decision) × (run
        (codes "User-agent: growthosbot" ++ 10 ∷ codes "disallow: /p" ++ 10 ∷ codes "ALLOW: /p")
        (codes "/pq")
      ≡ ok d)
    × (d.allowed ≡ true)
unfolding run
tie_allowed = (
  record {
    allowed = true;
    reason = matched_allow;
    matched_user_agent = some (codes "GrowthOSBot");
    matched_rule = some (codes "/p");
  },
  refl,
  refl,
)

evaluate_robots-decide_example :
    (t : Piece) × (normalize false (codes "/%61bc") ≡ some t)
    × (evaluate_robots file (codes "/%61bc") ≡ ok (decide file t))
evaluate_robots-decide_example = evaluate_robots-decide file file (codes "/%61bc") file-IsAcceptable

evaluate_robots-ne-value_error_example : evaluate_robots file (codes "/%zz") ≢ err value_error
evaluate_robots-ne-value_error_example = evaluate_robots-ne-value_error file (codes "/%zz")

abbrev rule : Rule
rule = record {
  allowed = false;
  normalized = codes "/a*c";
  tokens = some b'/' ∷ some b'a' ∷ none ∷ some b'c' ∷ [];
  anchored = false;
  specificity = 3;
}

scan-Decides_example :
    (b : Bool) × (scan (rounds rule.tokens target.1) rule.tokens target.1 start ≡ some b)
    × ((b ≡ true) ↔ Matches rule.tokens target.1)
scan-Decides_example = scan-Decides rule.tokens target.1 tt

normalize-normalize_example : normalize false (codes "/abc") ≡ some target
normalize-normalize_example =
    normalize-normalize false (codes "/%61bc") (codes "/abc") target.1 (omega arith)
      target-normalized

abbrev group : Group
group = record { agents = codes "*" ∷ []; rules = rule ∷ [] }

selected_rules-Applies_example :
    Within rule (rules_of (selected_groups (group ∷ [])))
    ↔ ((g : Group) × Within g (group ∷ []) × Applies (group ∷ []) g × Within rule g.rules)
selected_rules-Applies_example = selected_rules-Applies (group ∷ []) rule

abbrev cached : CacheDecision
cached = record {
  reusable = true;
  reason = fresh;
  stored_at = some 5;
  expires_at = some 86400000005;
}

reusable-window_example :
    ((cached.reusable ≡ true) ↔ ((◌≤◌ 5 9) × (◌<◌ 9 (5 + day))))
    × (cached.expires_at ≡ some (5 + day))
reusable-window_example = reusable-window 5 9 cached (unfold evaluate_robots_cache in refl)

evaluate_robots_cache-invalid_example :
    (evaluate_robots_cache (some (utc 9)) (utc 5) ≡ err invalid_instant)
    ↔ IsRefused (some (utc 9)) (utc 5)
evaluate_robots_cache-invalid_example = evaluate_robots_cache-invalid (some (utc 9)) (utc 5)

abbrev missing_file : AccessDecision
missing_file = status_access true unavailable (some 404)

missing_access : evaluate_robots_access (some 404) none (codes "/a") ≡ ok missing_file
unfolding run evaluate_robots_access is_bad_input check_target dispatch
missing_access = refl

evaluate_robots_access-allowed_example :
    (missing_file.allowed ≡ true) ↔ (NoFile (some 404) ⊎ PolicyAllows (some 404) none (codes "/a"))
evaluate_robots_access-allowed_example =
    evaluate_robots_access-allowed (some 404) none (codes "/a") missing_file missing_access

bad_access :
    evaluate_robots_access (some 200) none (codes "/a")
    ≡ err (from_policy (policy_error invalid_target))
unfolding evaluate_robots_access is_bad_input
bad_access = refl

evaluate_robots_access-raises_example :
    ◌≡◌ {A = AccessRaised}
      (from_policy (policy_error invalid_target))
      (from_policy (policy_error invalid_target))
evaluate_robots_access-raises_example =
    evaluate_robots_access-raises (some 200) none (codes "/a")
      (from_policy (policy_error invalid_target)) bad_access

abbrev fetched : FetchedRobots
fetched = record {
  requested_site_url = codes "https://a.example/";
  robots_url = codes "https://a.example/robots.txt";
  final_url = codes "https://b.example/robots.txt";
  status_code = 404;
  content_type = none;
  body = none;
  redirect_chain = codes "https://a.example/robots.txt" ∷ codes "https://b.example/robots.txt" ∷ [];
}

abbrev opened : GateDecision
opened = record {
  allowed = true;
  reason = access;
  fetched_robots = some fetched;
  access_decision = some missing_file;
  fetch_error_code = none;
}

gate_opens : evaluate_robots_gate (some fetched) none (codes "/a") ≡ ok opened
unfolding run evaluate_robots_gate is_valid_fetched evaluate_robots_access is_bad_input check_target
    dispatch
gate_opens = refl

evaluate_robots_gate-allowed_example :
    (f : FetchedRobots) × (some fetched ≡ some f)
    × (◌≡◌ {A = Option RobotsFetchErrorCode} none none)
    × (is_valid_fetched f ≡ true)
    × (NoFile (some f.status_code) ⊎ PolicyAllows (some f.status_code) f.body (codes "/a"))
evaluate_robots_gate-allowed_example =
    evaluate_robots_gate-allowed (some fetched) none (codes "/a") opened gate_opens refl

gate_refuses : evaluate_robots_gate none none (codes "/a") ≡ err invalid_gate
unfolding evaluate_robots_gate
gate_refuses = refl

evaluate_robots_gate-raises_example :
    (◌≡◌ {A = GateRaised} invalid_gate invalid_gate)
    ⊎ (invalid_gate ≡ from_access (from_policy (policy_error invalid_target)))
evaluate_robots_gate-raises_example =
    evaluate_robots_gate-raises none none (codes "/a") invalid_gate gate_refuses

abbrev own_file : FetchedRobots
own_file = record fetched { requested_site_url = 40 ∷ [] }

-- The network, with a query in every address.
abbrev queried : Transport ℕ
queried = record net { raw_query_string = λ url. codes "q" }

abbrev bound : BoundRobotsDecision
bound = record {
  site_url = 40 ∷ [];
  target_url = 60 ∷ [];
  target_path = codes "/?q";
  gate_decision = record opened { fetched_robots = some own_file };
}

bound_opens : evaluate_bound_robots queried (40 ∷ []) (60 ∷ []) (some own_file) none ≡ ok bound
unfolding run evaluate_bound_robots evaluate_robots_gate is_valid_fetched evaluate_robots_access
    is_bad_input check_target dispatch
bound_opens = refl

evaluate_bound_robots-IsBound_example :
    (evaluate_bound_robots queried (40 ∷ []) (60 ∷ []) (some own_file) none ≡ ok bound) ↔ (
      IsGiven (40 ∷ []) (60 ∷ []) (some own_file) none
      × IsBound queried (40 ∷ []) (60 ∷ []) (some own_file) none bound)
evaluate_bound_robots-IsBound_example =
    evaluate_bound_robots-IsBound queried (40 ∷ []) (60 ∷ []) (some own_file) none bound
