-- ===== src/Table/Matches.antt =====
-- The loop of `table_insert` over the matches, and the loop over the action's parameters.
use mathlib.Core.List.{append-nil, append_assoc}
use p4runtime_grpcpp.Base.{
  ℕ, ◌+◌, ◌≤◌, ◌<◌, ◌≡◌, refl, ap, sym, ◌∙◌, List, [], ◌∷◌, ◌++◌, none, some, Bytes, length,
  length-append, All, ok, arith, inl, inr, Option-cases,
}
use p4runtime_grpcpp.IdMap.{Argument, Element, get_argument}
use p4runtime_grpcpp.Messages.{
  Platform, MatchRule, exact_rule, lpm_rule, ternary_rule, ActionParameter, strcpy, memcpy,
  push_back,
}
use p4runtime_grpcpp.Proto.{Status, status_ok, MatchKind, exact, lpm, ternary, FieldMatch, Param}
use p4runtime_grpcpp.Table.{
  unimplemented_match, gen_match_rule_exact, gen_match_rule_lpm, gen_match_rule_ternary, add_match,
  add_matches, param_bytes, gen_action_param, add_params,
}

-- The rule that a match asks for, given the argument that it names: none, if the kind is not known.
abbrev pub rule_of : Argument → MatchKind → List MatchRule
rule_of a (exact value) = exact_rule a.name a.bitwidth value ∷ []
rule_of a (lpm value prefix_len) = lpm_rule a.name prefix_len value ∷ []
rule_of a (ternary value mask) = ternary_rule a.name a.bitwidth value mask ∷ []
rule_of a MatchKind.other = []

abbrev pub rule_for : Element → FieldMatch → List MatchRule
rule_for e m = elim (get_argument e.args m.field_id) [ none ↦ [] | some a ↦ rule_of a m.kind ]

abbrev pub rules_for : Element → List FieldMatch → List MatchRule
rules_for e [] = []
rules_for e (m ∷ ms) = rule_for e m ++ rules_for e ms

-- The status that a match leaves behind.
abbrev pub status_after : Status → MatchKind → Status
status_after status (exact value) = status_ok
status_after status (lpm value prefix_len) = status_ok
status_after status (ternary value mask) = status
status_after status MatchKind.other = unimplemented_match

abbrev pub status_after_all : Status → List FieldMatch → Status
status_after_all status [] = status
status_after_all status (m ∷ ms) = status_after_all (status_after status m.kind) ms

abbrev pub KindFits : Platform → MatchKind → Type 0
KindFits p (exact value) = length value ≤ p.match_bitmap
KindFits p (lpm value prefix_len) = length value ≤ p.match_bitmap
KindFits p (ternary value mask) = (length value ≤ p.match_bitmap) × (length mask ≤ p.match_bitmap)
KindFits p MatchKind.other = Unit

-- The match names a field of the table, and its name and bytes fit their arrays.
abbrev pub IsReady : Platform → Element → FieldMatch → Type 0
IsReady p e m =
    (a : Argument) × (get_argument e.args m.field_id ≡ some a)
    × (length a.name < p.match_name)
    × KindFits p m.kind

strcpy_fits : (size : ℕ) (s : Bytes) → length s < size → strcpy size s ≡ ok s
unfolding strcpy
strcpy_fits size s h = ground arith

memcpy_fits : (size : ℕ) (s : Bytes) → length s ≤ size → memcpy size s ≡ ok s
unfolding memcpy
memcpy_fits size s h = ground arith

push_back_fits {ℓ} :
    {A : Type ℓ} (size : ℕ) (xs : List A) (x : A)
    → length xs < size
    → push_back size xs x ≡ ok (xs ++ x ∷ [])
unfolding push_back
push_back_fits size xs x h = ground arith

length-rule_of-le : (a : Argument) (kind : MatchKind) → length (rule_of a kind) ≤ 1
length-rule_of-le a (exact value) = omega arith
length-rule_of-le a (lpm value prefix_len) = omega arith
length-rule_of-le a (ternary value mask) = omega arith
length-rule_of-le a MatchKind.other = omega arith

module _ (p : Platform) (e : Element) where
  length-rule_for-le : (m : FieldMatch) → length (rule_for e m) ≤ 1
  length-rule_for-le m = elim (Option-cases (get_argument e.args m.field_id)) [
    | inl missing ↦ ground (arith, missing)
    | inr (a, at) ↦ ground (arith, at, length-rule_of-le a m.kind)
  ]

  pub add_match_ready :
      (id : ℕ) (kind : MatchKind) (status : Status) (rules : List MatchRule)
      → let m : FieldMatch = record { field_id = id; kind = kind } in
        IsReady p e m
        → length rules < p.max_field_matches
        → add_match p e status rules m ≡ ok (status_after status kind, rules ++ rule_for e m)
  unfolding add_match gen_match_rule_exact gen_match_rule_lpm gen_match_rule_ternary
  add_match_ready id (exact value) status rules (a, at, short, fits) room = ground (
    arith,
    at,
    strcpy_fits p.match_name a.name short,
    memcpy_fits p.match_bitmap value fits,
    push_back_fits p.max_field_matches rules (exact_rule a.name a.bitwidth value) room,
  )
  add_match_ready id (lpm value prefix_len) status rules (a, at, short, fits) room = ground (
    arith,
    at,
    strcpy_fits p.match_name a.name short,
    memcpy_fits p.match_bitmap value fits,
    push_back_fits p.max_field_matches rules (lpm_rule a.name prefix_len value) room,
  )
  add_match_ready id (ternary value mask) status rules (a, at, short, fits) room = ground (
    arith,
    at,
    strcpy_fits p.match_name a.name short,
    memcpy_fits p.match_bitmap value fits.0,
    memcpy_fits p.match_bitmap mask fits.1,
    push_back_fits p.max_field_matches rules (ternary_rule a.name a.bitwidth value mask) room,
  )
  add_match_ready id MatchKind.other status rules (a, at, short, fits) room =
      ground (arith, at, append-nil rules)

  pub length-rules_for-le : (ms : List FieldMatch) → length (rules_for e ms) ≤ length ms
  length-rules_for-le [] = omega arith
  length-rules_for-le (m ∷ ms) =
      let one = length-rule_for-le m in
      omega (arith, length-append (rule_for e m) (rules_for e ms), length-rules_for-le ms)

  -- The loop on matches that are ready, as long as the array has room.
  pub add_matches_ready :
      (ms : List FieldMatch) (status : Status) (rules : List MatchRule)
      → All (IsReady p e) ms
      → length rules + length ms ≤ p.max_field_matches
      → add_matches p e status rules ms ≡ ok (status_after_all status ms, rules ++ rules_for e ms)
  unfolding add_matches
  add_matches_ready [] status rules ready room = rw (append-nil rules)
  add_matches_ready (m ∷ ms) status rules ready room =
      let step = add_match_ready m.field_id m.kind status rules ready.0 (omega arith) in
      let rules' : List MatchRule = rules ++ rule_for e m in
      let shorter = length-append rules (rule_for e m) in
      let rest =
        add_matches_ready ms (status_after status m.kind) rules' ready.1
          (omega (arith, length-rule_for-le m)) in
      rw step (rest ∙ ap (λ x. ok (status_after_all status (m ∷ ms), x)) (append_assoc rules _ _))

  -- A parameter is ready if the action knows it, and it fits its arrays.
  abbrev pub IsReadyParam : Param → Type 0
  IsReadyParam q =
      (a : Argument) × (get_argument e.args q.param_id ≡ some a)
      × (length a.name < p.param_name)
      × (length q.value ≤ p.param_bitmap)

  abbrev pub parameter_of : Argument → Param → ActionParameter
  parameter_of a q = record {
    name = a.name;
    length = a.bitwidth;
    bitmap = param_bytes p a.name q.value;
  }

  abbrev pub parameter_for : Param → List ActionParameter
  parameter_for q = elim (get_argument e.args q.param_id) [
    | none ↦ []
    | some a ↦ parameter_of a q ∷ []
  ]

  abbrev pub parameters_for : List Param → List ActionParameter
  parameters_for [] = []
  parameters_for (q ∷ qs) = parameter_for q ++ parameters_for qs

  gen_action_param_ready :
      (a : Argument) (q : Param)
      → length a.name < p.param_name
      → length q.value ≤ p.param_bitmap
      → gen_action_param p a q.value ≡ ok (parameter_of a q)
  unfolding gen_action_param
  gen_action_param_ready a q short fits =
      rw (strcpy_fits p.param_name a.name short, memcpy_fits p.param_bitmap q.value fits)

  pub add_params_ready :
      (qs : List Param) (done : List ActionParameter)
      → All IsReadyParam qs
      → length done + length qs ≤ p.max_action_params
      → add_params p e done qs ≡ ok (done ++ parameters_for qs)
  unfolding add_params
  add_params_ready [] done ready room = rw (append-nil done)
  add_params_ready (q ∷ qs) done ((a, at, short, fits), ready) room =
      let found : parameter_for q ≡ parameter_of a q ∷ [] = ground (arith, at) in
      let done' : List ActionParameter = done ++ parameter_of a q ∷ [] in
      let rest =
        add_params_ready qs done' ready
          (omega (arith, length-append done (parameter_of a q ∷ []))) in
      rw
        (
          at,
          gen_action_param_ready a q short fits,
          push_back_fits p.max_action_params done (parameter_of a q) (omega arith),
        )
        (rest
          ∙ ap ok (append_assoc done (parameter_of a q ∷ []) (parameters_for qs))
          ∙ ap (λ x. ok (done ++ x)) (ap (λ x. x ++ parameters_for qs) (sym found)))

  pub length-parameters_for :
      (qs : List Param) → All IsReadyParam qs → length (parameters_for qs) ≡ length qs
  length-parameters_for [] ready = refl
  length-parameters_for (q ∷ qs) ((a, at, _, _), ready) =
      let one : length (parameter_for q) ≡ 1 = ground (arith, at) in
      omega
        (arith, length-append (parameter_for q) (parameters_for qs), length-parameters_for qs ready)

-- The kinds of match that the server knows.
abbrev pub IsSupported : FieldMatch → Type 0
IsSupported m = ¬ (m.kind ≡ MatchKind.other)
