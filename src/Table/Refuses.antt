-- ===== src/Table/Refuses.antt =====
-- Which insertions `table_insert` of server/device_mgr.c refuses, and which it passes on.
use p4runtime_grpcpp.Base.{
  ◌≡◌, ◌⊎◌, inl, inr, refl, sym, ap, ◌∙◌, false, List, [], ◌∷◌, ◌++◌, none, some, Option-cases, All,
  Bytes, ok, deref, >>=-eq-ok, subst, arith,
}
use p4runtime_grpcpp.Device.{Device}
use p4runtime_grpcpp.IdMap.{Element, get_element}
use p4runtime_grpcpp.Messages.{Platform, ActionParameter, CtrlMsg, Call}
use p4runtime_grpcpp.Proto.{
  Status, status_ok, is_ok, MatchKind, exact, lpm, ternary, FieldMatch, Action, TableAction,
  TableEntry,
}
use p4runtime_grpcpp.Table.{
  unimplemented_match, invalid_action, unimplemented_action, add_matches, add_params, add_action,
  send, table_insert,
}
use p4runtime_grpcpp.Table.Ends.{add_matches-ends}
use p4runtime_grpcpp.Table.Insert.{status_after_all-append, table_insert-calls}
use p4runtime_grpcpp.Table.Matches.{status_after, status_after_all}

abbrev pub IsTernary : MatchKind → Type 0
IsTernary (ternary value mask) = Unit {0}
IsTernary _ = ⊥

-- The last of the matches that are not ternary is of a kind that is not known.
abbrev pub EndsUnknown : List FieldMatch → Type 0
EndsUnknown ms =
    (before : List FieldMatch) × (unknown : FieldMatch) × (after : List FieldMatch) × (ms
      ≡ before ++ unknown ∷ after)
    × (unknown.kind ≡ MatchKind.other)
    × All (λ (m : FieldMatch). IsTernary m.kind) after

-- The action is a plain one that the id map has.
abbrev pub KnowsAction : Device → TableAction → Type 0
KnowsAction dm table_action =
    (act : Action) × (elem : Element) × (table_action ≡ TableAction.action act)
    × (get_element dm.id_map act.action_id ≡ some elem)

-- Why an entry is refused, and with which status. What the action says comes first.
pub data RefusedWith (dm : Device) (entry : TableEntry) : Status → Type 0 where
  no_plain_action :
      entry.table_action ≡ TableAction.other → RefusedWith dm entry unimplemented_action
  unknown_action :
      (act : Action)
      → entry.table_action ≡ TableAction.action act
      → get_element dm.id_map act.action_id ≡ none
      → RefusedWith dm entry invalid_action
  unknown_match :
      KnowsAction dm entry.table_action
      → EndsUnknown entry.matches
      → RefusedWith dm entry unimplemented_match

ternary_keeps :
    (ms : List FieldMatch) (status : Status)
    → All (λ (m : FieldMatch). IsTernary m.kind) ms
    → status_after_all status ms ≡ status
ternary_keeps [] status all = refl
ternary_keeps (m ∷ ms) status (one, all) =
    ternary_keeps ms (status_after status m.kind) all ∙ kept m.kind one
  where
    kept : (kind : MatchKind) → IsTernary kind → status_after status kind ≡ status
    kept (ternary value mask) one = refl
    kept (exact value) one = absurd one
    kept (lpm value prefix_len) one = absurd one
    kept MatchKind.other one = absurd one

EndsUnknown-status :
    (ms : List FieldMatch) (status : Status)
    → EndsUnknown ms
    → status_after_all status ms ≡ unimplemented_match
EndsUnknown-status ms status (before, unknown, after, splits, other, all) =
    ap (status_after_all status) splits
    ∙ status_after_all-append status before (unknown ∷ after)
    ∙ ternary_keeps after _ all
    ∙ ap (status_after (status_after_all status before)) other

-- The status after the matches: `OK`, or that of a match that is not known, or the one before them.
status_cases :
    (ms : List FieldMatch) (status : Status)
    → (status_after_all status ms ≡ status_ok)
      ⊎ (EndsUnknown ms
          ⊎ (All (λ (m : FieldMatch). IsTernary m.kind) ms × (status_after_all status ms ≡ status)))
status_cases [] status = inr (inr (tt, refl))
status_cases (m ∷ ms) status = elim (status_cases ms (status_after status m.kind)) [
  | inl good ↦ inl good
  | inr (inl (before, unknown, after, splits, other, all)) ↦
      inr (inl (m ∷ before, unknown, after, ap (◌∷◌ m) splits, other, all))
  | inr (inr (all, is)) ↦ by_kind m.kind refl all is
]
  where
    by_kind :
        (kind : MatchKind)
        → m.kind ≡ kind
        → All (λ (m : FieldMatch). IsTernary m.kind) ms
        → status_after_all (status_after status m.kind) ms ≡ status_after status m.kind
        → (status_after_all status (m ∷ ms) ≡ status_ok)
          ⊎ (EndsUnknown (m ∷ ms)
              ⊎ (All (λ (m : FieldMatch). IsTernary m.kind) (m ∷ ms)
                  × (status_after_all status (m ∷ ms) ≡ status)))
    by_kind (exact value) e all is = inl (is ∙ ap (status_after status) e)
    by_kind (lpm value prefix_len) e all is = inl (is ∙ ap (status_after status) e)
    by_kind (ternary value mask) e all is =
        inr (inr ((subst IsTernary (sym e) tt, all), is ∙ ap (status_after status) e))
    by_kind MatchKind.other e all is = inr (inl ([], m, ms, refl, e, all))

-- What the switch over the action leaves.
add_action-status :
    (p : Platform) (dm : Device) (status : Status) (table_action : TableAction)
    (r : Status × Bytes × List ActionParameter)
    → add_action p dm status table_action ≡ ok r
    → ((table_action ≡ TableAction.other) × (r.0 ≡ unimplemented_action))
      ⊎ (((act : Action) × (table_action ≡ TableAction.action act)
            × (get_element dm.id_map act.action_id ≡ none)
            × (r.0 ≡ invalid_action))
          ⊎ (KnowsAction dm table_action × (r.0 ≡ status)))
unfolding add_action
add_action-status p dm status TableAction.other r run = inl (refl, ground arith)
add_action-status p dm status (TableAction.action act) r run =
    elim (Option-cases (get_element dm.id_map act.action_id)) [
      | inl unknown ↦ inr (inl (act, refl, unknown, ground (arith, unknown)))
      | inr (elem, found) ↦
          let (params, _, is) =
            >>=-eq-ok (add_params p elem [] act.params) (λ ps. ok (status, elem.value, ps))
              {result = r} (ground (arith, found, run)) in
          inr (inr ((act, elem, refl, found), ground (arith, is)))
    ]

send-status :
    (p : Platform) (dm : Device) (status : Status) (message : CtrlMsg) (r : Status × List Call)
    → send p dm status message ≡ ok r
    → r.0 ≡ status
unfolding send
send-status p dm status message r run = elim (Option-cases dm.cb) [
  | inl unset ↦ ground (arith, unset)
  | inr (cb, set) ↦ ground (arith, set)
]

not_other : (act : Action) → ¬ (TableAction.action act ≡ TableAction.other)
not_other act = λ e. cc

-- A known action and matches that leave the status `OK` are no reason to refuse.
not_refused :
    (dm : Device) (entry : TableEntry) (reason : Status)
    → KnowsAction dm entry.table_action
    → status_after_all status_ok entry.matches ≡ status_ok
    → ¬ RefusedWith dm entry reason
not_refused dm entry reason (act, elem, is, found) good (no_plain_action other) = cc
not_refused dm entry reason (act, elem, is, found) good (unknown_action act' is' unknown) =
    ground (arith, sym is ∙ is', found, unknown)
not_refused dm entry reason known good (unknown_match known' ends) =
    ground (arith, sym good ∙ EndsUnknown-status entry.matches status_ok ends)

-- The status that an insertion answers, and why.
abbrev Answered : Device → TableEntry → Status → Type 0
Answered dm entry status =
    RefusedWith dm entry status
    ⊎ ((status ≡ status_ok) × (¬ ((reason : Status) × RefusedWith dm entry reason)))

answered :
    (p : Platform) (dm : Device) (entry : TableEntry) (status : Status) (calls : List Call)
    → table_insert p dm entry ≡ ok (status, calls)
    → Answered dm entry status
unfolding table_insert
answered p dm entry status calls run =
    let (table, found, rest) = >>=-eq-ok (deref (get_element dm.id_map entry.table_id)) _ run in
    let ((left, rules), matches, rest') =
      >>=-eq-ok (add_matches p table status_ok [] entry.matches) _ rest in
    let (acted, action, sent) = >>=-eq-ok (add_action p dm left entry.table_action) _ rest' in
    let (left_is, _, _) =
      add_matches-ends p table entry.matches status_ok [] (left, rules) matches (omega arith) in
    let is : status ≡ acted.0 = send-status p dm acted.0 _ (status, calls) sent in
    elim (add_action-status p dm left entry.table_action acted action) [
      | inl (other, reason) ↦
          inl (subst (RefusedWith dm entry) (sym (is ∙ reason)) (no_plain_action other))
      | inr (inl (act, plain, unknown, reason)) ↦
          inl (subst (RefusedWith dm entry) (sym (is ∙ reason)) (unknown_action act plain unknown))
      | inr (inr (known, kept)) ↦ elim (status_cases entry.matches status_ok) [
        | inl good ↦ inr (
          is ∙ kept ∙ left_is ∙ good,
          λ refused. not_refused dm entry refused.0 known good refused.1,
        )
        | inr (inl ends) ↦
            let reason = EndsUnknown-status entry.matches status_ok ends in
            inl (
              subst (RefusedWith dm entry) (sym (is ∙ kept ∙ left_is ∙ reason))
                (unknown_match known ends))
        | inr (inr (all, good)) ↦ inr (
          is ∙ kept ∙ left_is ∙ good,
          λ refused. not_refused dm entry refused.0 known good refused.1,
        )
      ]
    ]

bad_reason :
    (dm : Device) (entry : TableEntry) (reason : Status)
    → RefusedWith dm entry reason
    → is_ok reason ≡ false
bad_reason dm entry reason (no_plain_action other) = refl
bad_reason dm entry reason (unknown_action act is unknown) = refl
bad_reason dm entry reason (unknown_match known ends) = refl

-- An insertion that comes to an end is refused exactly if its action is not a plain one, or is one
-- whose id is not known, or the last of its matches that are not ternary is of a kind that is not
-- known: then the status says so, what the action says coming first, and nothing is sent. Otherwise
-- the status is `OK`, and the callback is called once.
pub table_insert-refuses :
    (p : Platform) (dm : Device) (entry : TableEntry) (status : Status) (calls : List Call)
    → table_insert p dm entry ≡ ok (status, calls)
    → (RefusedWith dm entry status × (calls ≡ []))
      ⊎ ((¬ ((reason : Status) × RefusedWith dm entry reason))
          × (status ≡ status_ok)
          × ((c : Call) × (calls ≡ c ∷ []) × (dm.cb ≡ some c.callee)))
table_insert-refuses p dm entry status calls run = elim (answered p dm entry status calls run) [
  | inl refused ↦ elim (table_insert-calls p dm entry status calls run) [
    | inl (good, _) ↦ absurd (ground (arith, good, bad_reason dm entry status refused))
    | inr (_, nothing) ↦ inl (refused, nothing)
  ]
  | inr (good, no_reason) ↦ elim (table_insert-calls p dm entry status calls run) [
    | inl (_, one) ↦ inr (no_reason, good, one)
    | inr (bad, _) ↦ absurd (ground (arith, good, bad))
  ]
]
