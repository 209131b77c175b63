-- ===== src/Table/Ends.antt =====
-- When `table_insert` of server/device_mgr.c comes to an end: which matches and parameters its two
-- loops take without a null pointer and without an overrun of an array.
use p4runtime_grpcpp.Base.{
  ℕ, ◌+◌, ◌≤◌, ◌<◌, ◌≡◌, ◌⊎◌, inl, inr, refl, ap, ◌∙◌, List, [], ◌∷◌, ◌++◌, length, length-append,
  All, ok, arith, >>=-eq-ok, Option-cases, Returns, deref,
}
use p4runtime_grpcpp.IdMap.{Argument, Element, get_argument}
use p4runtime_grpcpp.Messages.{
  Platform, MatchRule, exact_rule, lpm_rule, ternary_rule, ActionParameter, strcpy, memcpy,
  push_back,
}
use p4runtime_grpcpp.Proto.{Status, MatchKind, exact, lpm, ternary, FieldMatch, Param}
use p4runtime_grpcpp.Table.Matches.{
  IsReady, add_match_ready, rule_of, rule_for, status_after, status_after_all, IsReadyParam,
}
use p4runtime_grpcpp.Table.{
  unimplemented_match, gen_match_rule_exact, gen_match_rule_lpm, gen_match_rule_ternary, add_match,
  add_matches, gen_action_param, add_params,
}

push_back-ends {ℓ} :
    {A : Type ℓ} (size : ℕ) (xs : List A) (x : A) (r : List A)
    → push_back size xs x ≡ ok r
    → (length r ≡ length xs + 1) × (length xs < size)
unfolding push_back
push_back-ends size xs x r run = ground (arith, length-append xs (x ∷ []))

-- The number of rules that a match of the kind becomes.
abbrev pub rule_count : MatchKind → ℕ
rule_count MatchKind.other = 0
rule_count _ = 1

abbrev pub rules_count : List FieldMatch → ℕ
rules_count [] = 0
rules_count (m ∷ ms) = rule_count m.kind + rules_count ms

length-rule_of : (a : Argument) (kind : MatchKind) → length (rule_of a kind) ≡ rule_count kind
length-rule_of a (exact value) = refl
length-rule_of a (lpm value prefix_len) = refl
length-rule_of a (ternary value mask) = refl
length-rule_of a MatchKind.other = refl

module _ (p : Platform) (e : Element) where
  -- The match is ready, or of a kind for which nothing of it is read.
  abbrev pub IsHarmless : FieldMatch → Type 0
  IsHarmless m = (m.kind ≡ MatchKind.other) ⊎ IsReady p e m

  add_match-ends :
      (id : ℕ) (kind : MatchKind) (status : Status) (rules : List MatchRule)
      (r : Status × List MatchRule)
      → let m : FieldMatch = record { field_id = id; kind = kind } in
        add_match p e status rules m ≡ ok r
        → length rules ≤ p.max_field_matches
        → IsHarmless m
          × (r.0 ≡ status_after status kind)
          × (length r.1 ≡ length rules + rule_count kind)
          × (length r.1 ≤ p.max_field_matches)
  unfolding add_match gen_match_rule_exact gen_match_rule_lpm gen_match_rule_ternary strcpy memcpy
      push_back
  add_match-ends id (exact value) status rules r run room =
      elim (Option-cases (get_argument e.args id)) [
        | inl missing ↦ ground (arith, missing)
        | inr (a, at) ↦
            ground (arith, at, length-append rules (exact_rule a.name a.bitwidth value ∷ []))
      ]
  add_match-ends id (lpm value prefix_len) status rules r run room =
      elim (Option-cases (get_argument e.args id)) [
        | inl missing ↦ ground (arith, missing)
        | inr (a, at) ↦
            ground (arith, at, length-append rules (lpm_rule a.name prefix_len value ∷ []))
      ]
  add_match-ends id (ternary value mask) status rules r run room =
      elim (Option-cases (get_argument e.args id)) [
        | inl missing ↦ ground (arith, missing)
        | inr (a, at) ↦
            ground (arith, at, length-append rules (ternary_rule a.name a.bitwidth value mask ∷ []))
      ]
  add_match-ends id MatchKind.other status rules r run room = ground arith

  is_ready : (m : FieldMatch) → IsHarmless m → ¬ (m.kind ≡ MatchKind.other) → IsReady p e m
  is_ready m (inl other) known = absurd (known other)
  is_ready m (inr ready) known = ready

  -- A match of a kind that becomes a rule, with room for it.
  add_match-one :
      (m : FieldMatch) (status : Status) (rules : List MatchRule)
      → IsReady p e m
      → length rules < p.max_field_matches
      → Returns
          (add_match p e status rules m)
          λ r. (r.0 ≡ status_after status m.kind) × (length r.1 ≡ length rules + rule_count m.kind)
  add_match-one m status rules ready room =
      let (a, at, _, _) = ready in
      (
        (status_after status m.kind, rules ++ rule_for e m),
        add_match_ready p e m.field_id m.kind status rules ready room,
        (refl, ground (arith, at, length-rule_of a m.kind, length-append rules (rule_for e m))),
      )

  add_match-harmless :
      (id : ℕ) (kind : MatchKind) (status : Status) (rules : List MatchRule)
      → let m : FieldMatch = record { field_id = id; kind = kind } in
        IsHarmless m
        → length rules + rule_count kind ≤ p.max_field_matches
        → Returns
            (add_match p e status rules m)
            λ r. (r.0 ≡ status_after status kind) × (length r.1 ≡ length rules + rule_count kind)
  unfolding add_match
  add_match-harmless id MatchKind.other status rules harmless room =
      ((unimplemented_match, rules), refl, (refl, omega arith))
  add_match-harmless id (exact value) status rules harmless room =
      add_match-one (record { field_id = id; kind = exact value }) status rules
        (is_ready _ harmless (λ e. cc)) (omega arith)
  add_match-harmless id (lpm value prefix_len) status rules harmless room =
      add_match-one (record { field_id = id; kind = lpm value prefix_len }) status rules
        (is_ready _ harmless (λ e. cc)) (omega arith)
  add_match-harmless id (ternary value mask) status rules harmless room =
      add_match-one (record { field_id = id; kind = ternary value mask }) status rules
        (is_ready _ harmless (λ e. cc)) (omega arith)

  -- The loop ends exactly if each match is ready or harmless and the array holds the rules.
  pub add_matches-ends :
      (ms : List FieldMatch) (status : Status) (rules : List MatchRule)
      (r : Status × List MatchRule)
      → add_matches p e status rules ms ≡ ok r
      → length rules ≤ p.max_field_matches
      → (r.0 ≡ status_after_all status ms)
        × All IsHarmless ms
        × (length rules + rules_count ms ≤ p.max_field_matches)
  unfolding add_matches
  add_matches-ends [] status rules r run room = (ground arith, tt, omega arith)
  add_matches-ends (m ∷ ms) status rules r run room =
      let (next, one, rest) = >>=-eq-ok (add_match p e status rules m) _ run in
      let (harmless, status_is, longer, fits) =
        add_match-ends m.field_id m.kind status rules next one room in
      let (last, all, fit) = add_matches-ends ms next.0 next.1 r rest fits in
      (last ∙ ap (λ x. status_after_all x ms) status_is, (harmless, all), omega arith)

  pub add_matches-harmless :
      (ms : List FieldMatch) (status : Status) (rules : List MatchRule)
      → All IsHarmless ms
      → length rules + rules_count ms ≤ p.max_field_matches
      → Returns (add_matches p e status rules ms) λ r. r.0 ≡ status_after_all status ms
  unfolding add_matches
  add_matches-harmless [] status rules harmless room = (_, refl, refl)
  add_matches-harmless (m ∷ ms) status rules harmless room =
      let (next, one, (status_is, longer)) =
        add_match-harmless m.field_id m.kind status rules harmless.0 (omega arith) in
      let (r, rest, last) = add_matches-harmless ms next.0 next.1 harmless.1 (omega arith) in
      (r, rw one rest, last ∙ ap (λ x. status_after_all x ms) status_is)

  gen_action_param-ends :
      (a : Argument) (q : Param) (r : ActionParameter)
      → gen_action_param p a q.value ≡ ok r
      → (length a.name < p.param_name) × (length q.value ≤ p.param_bitmap)
  unfolding gen_action_param strcpy memcpy
  gen_action_param-ends a q r run = ground arith

  pub add_params-ends :
      (qs : List Param) (done r : List ActionParameter)
      → add_params p e done qs ≡ ok r
      → length done ≤ p.max_action_params
      → All (IsReadyParam p e) qs × (length done + length qs ≤ p.max_action_params)
  unfolding add_params
  add_params-ends [] done r run room = (tt, omega arith)
  add_params-ends (q ∷ qs) done r run room =
      let (a, found, run₁) = >>=-eq-ok (deref (get_argument e.args q.param_id)) _ run in
      let (param, made, run₂) = >>=-eq-ok (gen_action_param p a q.value) _ run₁ in
      let (done', pushed, rest) = >>=-eq-ok (push_back p.max_action_params done param) _ run₂ in
      let (short, fits) = gen_action_param-ends a q param made in
      let (longer, room') = push_back-ends p.max_action_params done param done' pushed in
      let (all, fit) = add_params-ends qs done' r rest (omega arith) in
      (((a, ground arith, short, fits), all), omega arith)
