-- ===== src/Table/Outcome.antt =====
-- Which insertions `table_insert` of server/device_mgr.c answers, and which end the process.
use p4runtime_grpcpp.Base.{
  Bytes, Run, ℕ, ◌≤◌, ◌≡◌, ◌⊎◌, ◌↔◌, inl, inr, refl, sym, Bool-cases, true, List, [], ◌∷◌, none,
  some, Option-cases, length, All, ok, deref, ◌>>=◌, >>=-eq-ok, subst, if◌then◌else◌, arith,
}
use p4runtime_grpcpp.Device.{Device}
use p4runtime_grpcpp.IdMap.{Element, get_element}
use p4runtime_grpcpp.Messages.{
  Platform, MatchRule, ActionParameter, add_table_entry, set_default_action, CtrlMsg, Call,
}
use p4runtime_grpcpp.Proto.{Status, status_ok, is_ok, TableAction, TableEntry}
use p4runtime_grpcpp.Table.{
  add_matches, add_params, send, table_insert, add_action, invalid_action, unimplemented_action,
}
use p4runtime_grpcpp.Table.Ends.{
  rules_count, IsHarmless, add_matches-ends, add_matches-harmless, add_params-ends,
}
use p4runtime_grpcpp.Table.Matches.{
  IsReadyParam, parameters_for, add_params_ready, status_after_all,
}

-- If a message is sent, there is a callback for it.
abbrev pub IsCalled : Device → Status → Type 0
IsCalled dm status = is_ok status ≡ true → (cb : ℕ) × (dm.cb ≡ some cb)

-- The action is one that is refused, or a known one whose parameters are ready and fit.
abbrev pub IsTakenAction : Platform → Device → Status → TableAction → Type 0
IsTakenAction p dm status TableAction.other = Unit
IsTakenAction p dm status (TableAction.action act) =
    (get_element dm.id_map act.action_id ≡ none)
    ⊎ ((elem : Element) × (get_element dm.id_map act.action_id ≡ some elem)
        × All (IsReadyParam p elem) act.params
        × (length act.params ≤ p.max_action_params)
        × IsCalled dm status)

-- The entry's table is known, none of its matches and parameters leads astray, and the arrays of
-- the message hold them.
abbrev pub IsTaken : Platform → Device → TableEntry → Type 0
IsTaken p dm entry =
    (table : Element) × (get_element dm.id_map entry.table_id ≡ some table)
    × All (IsHarmless p table) entry.matches
    × (rules_count entry.matches ≤ p.max_field_matches)
    × IsTakenAction p dm (status_after_all status_ok entry.matches) entry.table_action

send-IsCalled :
    (p : Platform) (dm : Device) (status : Status) (message : CtrlMsg) (r : Status × List Call)
    → send p dm status message ≡ ok r
    → IsCalled dm status
unfolding send
send-IsCalled p dm status message r run is = elim (Option-cases dm.cb) [
  | inl missing ↦ ground (arith, missing)
  | inr there ↦ there
]

IsCalled-send :
    (p : Platform) (dm : Device) (status : Status) (message : CtrlMsg)
    → IsCalled dm status
    → (r : Status × List Call) × (send p dm status message ≡ ok r)
unfolding send
IsCalled-send p dm status message called = elim (Bool-cases (is_ok status)) [
  | inl yes_ok ↦
      let (cb, is) = called yes_ok in
      ((status, record { callee = cb; message = message } ∷ []), ground (arith, yes_ok, is))
  | inr refused ↦ ((status, []), ground (arith, refused))
]

abbrev message_of : TableEntry → Element → Bytes → List MatchRule → List ActionParameter → CtrlMsg
message_of entry table action_name rules params = record {
  type = if entry.is_default_action then set_default_action else add_table_entry;
  table_name = table.value;
  field_matches = rules;
  action_name = action_name;
  action_params = params;
}

module _ (p : Platform) (dm : Device) (entry : TableEntry) where
  -- The switch over the action and the call of the callback.
  unfoldable acts : Status → List MatchRule → Element → TableAction → Run (Status × List Call)
  acts status rules table table_action = do
    (status', action_name, params) ← add_action p dm status table_action
    send p dm status' (message_of entry table action_name rules params)

  -- Where they end, the action is one that is taken.
  acts-IsTakenAction :
      (action : TableAction) (table : Element) (status : Status) (rules : List MatchRule)
      (r : Status × List Call)
      → acts status rules table action ≡ ok r
      → IsTakenAction p dm status action
  unfolding acts add_action
  acts-IsTakenAction TableAction.other table status rules r run = tt
  acts-IsTakenAction (TableAction.action act) table status rules r run =
      elim (Option-cases (get_element dm.id_map act.action_id)) [
        | inl unknown ↦ inl unknown
        | inr (elem, found) ↦
            let rest : (add_params p elem [] act.params >>= λ (params : List ActionParameter).
            send p dm status (message_of entry table elem.value rules params))
                ≡ ok r =
              ground (arith, found, run) in
            let (params, made, sent) = >>=-eq-ok (add_params p elem [] act.params) _ rest in
            let (ready, fit) = add_params-ends p elem act.params [] params made (omega arith) in
            inr (elem, found, ready, omega arith, send-IsCalled p dm status _ r sent)
      ]

  -- With an action that is taken they end.
  IsTakenAction-acts :
      (action : TableAction) (table : Element) (status : Status) (rules : List MatchRule)
      → IsTakenAction p dm status action
      → (r : Status × List Call) × (acts status rules table action ≡ ok r)
  unfolding acts add_action send
  IsTakenAction-acts TableAction.other table status rules taken = ((unimplemented_action, []), refl)
  IsTakenAction-acts (TableAction.action act) table status rules (inl unknown) =
      ((invalid_action, []), ground (arith, unknown))
  IsTakenAction-acts (TableAction.action act) table status rules
        (inr (elem, found, ready, fit, called)) =
      let params = add_params_ready p elem act.params [] ready (omega arith) in
      let (r, sent) =
        IsCalled-send p dm status
          (message_of entry table elem.value rules (parameters_for p elem act.params)) called in
      (r, ground (arith, found, params, sent))

-- An insertion comes to an end exactly if its table is known, each match is of a kind that is not
-- known or names a field of the table and fits its arrays, there is room for the rules, and the
-- action is not a plain one, or is not known, or is known with each of its parameters, which fit
-- their arrays, and with a callback if the matches leave the status `OK`.
pub table_insert-ends_iff :
    (p : Platform) (dm : Device) (entry : TableEntry)
    → ((r : Status × List Call) × (table_insert p dm entry ≡ ok r)) ↔ IsTaken p dm entry
unfolding table_insert acts
table_insert-ends_iff p dm entry = (
  λ ended.
      let (r, run) = ended in
      let (table, found, rest) = >>=-eq-ok (deref (get_element dm.id_map entry.table_id)) _ run in
      let ((status, rules), matches, acted) =
        >>=-eq-ok (add_matches p table status_ok [] entry.matches) _ rest in
      let (status_is, harmless, fit) =
        add_matches-ends p table entry.matches status_ok [] (status, rules) matches (omega arith) in
      (
        table,
        ground (arith, found),
        harmless,
        omega arith,
        subst (λ (s : Status). IsTakenAction p dm s entry.table_action) status_is
            (acts-IsTakenAction p dm entry entry.table_action table status rules r acted),
      ),
  λ taken.
      let (table, known, harmless, fit, action) = taken in
      let ((status, rules), matches, status_is) =
        add_matches-harmless p table entry.matches status_ok [] harmless (omega arith) in
      let (r, acted) =
        IsTakenAction-acts p dm entry entry.table_action table status rules (
          subst (λ (s : Status). IsTakenAction p dm s entry.table_action) (sym status_is) action) in
      (r, rw (known, matches) acted),
)
