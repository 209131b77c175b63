-- ===== src/Table.antt =====
-- The table entries of server/device_mgr.c: `table_insert` with the functions that build its
-- message, `table_modify`, `table_delete` and `table_write`.
pub mod Matches
pub mod Insert
pub mod Null
pub mod Refuses
pub mod Ends
pub mod Outcome
pub mod Lookups
use p4runtime_grpcpp.Base.{
  ℕ, Bool, true, not, List, [], ◌∷◌, none, some, Bytes, codes, eq_bytes, length, Run, ok, deref,
  ◌>>=◌, ◌==◌, ◌&&◌, if◌then◌else◌,
}
use p4runtime_grpcpp.Base.Int.{ℤ}
use p4runtime_grpcpp.Device.{Device, P4Ids}
use p4runtime_grpcpp.IdMap.{Argument, Element, get_element, get_argument}
use p4runtime_grpcpp.Messages.{
  Platform, MatchRule, exact_rule, lpm_rule, ternary_rule, ActionParameter, CtrlMsg,
  add_table_entry, set_default_action, Call, strcpy, memcpy, push_back,
}
use p4runtime_grpcpp.Proto.{
  StatusCode, Status, status_of, status_ok, is_ok, MatchKind, exact, lpm, ternary, FieldMatch,
  Param, TableAction, TableEntry, UpdateType,
}

abbrev pub unimplemented_match : Status
unimplemented_match = status_of StatusCode.unimplemented "MatchType is not implemented"

abbrev pub invalid_action : Status
invalid_action = status_of StatusCode.invalid_argument "Invalid ActionId"

abbrev pub unimplemented_action : Status
unimplemented_action = status_of StatusCode.unimplemented "ActionType is not implemented"

abbrev pub table_modify : Device → TableEntry → Status
table_modify dm entry = status_of StatusCode.unimplemented "table_modify is not implemented"

abbrev pub table_delete : Device → TableEntry → Status
table_delete dm entry = status_of StatusCode.unimplemented "table_delete is not implemented"

-- `check_p4_id`, which lets every id pass.
abbrev pub check_p4_id : ℕ → P4Ids → Bool
check_p4_id id type = true

module _ (p : Platform) where
  unfoldable pub gen_match_rule_exact : Argument → Bytes → Run MatchRule
  gen_match_rule_exact arg value = do
    name ← strcpy p.match_name arg.name
    bitmap ← memcpy p.match_bitmap value
    ok (exact_rule name arg.bitwidth bitmap)

  unfoldable pub gen_match_rule_lpm : Argument → Bytes → ℤ → Run MatchRule
  gen_match_rule_lpm arg value prefix_len = do
    name ← strcpy p.match_name arg.name
    bitmap ← memcpy p.match_bitmap value
    ok (lpm_rule name prefix_len bitmap)

  unfoldable pub gen_match_rule_ternary : Argument → Bytes → Bytes → Run MatchRule
  gen_match_rule_ternary arg value mask = do
    name ← strcpy p.match_name arg.name
    bitmap ← memcpy p.match_bitmap value
    mask_bytes ← memcpy p.match_bitmap mask
    ok (ternary_rule name arg.bitwidth bitmap mask_bytes)

  -- `*tmp16 = htons(*tmp16)` on the first two bytes: on a host that is little-endian they change
  -- places.
  unfoldable pub htons_bytes : Bytes → Bytes
  htons_bytes (a ∷ b ∷ rest) = if p.big_endian then a ∷ b ∷ rest else b ∷ a ∷ rest
  htons_bytes s = s

  -- The bytes of a parameter, as they stand in the message: those of a parameter that is called
  -- `type`, and has two, change their order.
  unfoldable pub param_bytes : Bytes → Bytes → Bytes
  param_bytes name value =
      if eq_bytes name (codes "type") && (length value == 2) then htons_bytes value else value

  unfoldable pub gen_action_param : Argument → Bytes → Run ActionParameter
  gen_action_param arg value = do
    name ← strcpy p.param_name arg.name
    bitmap ← memcpy p.param_bitmap value
    ok (record { name = name; length = arg.bitwidth; bitmap = param_bytes arg.name bitmap })

  -- One round of the loop over the matches. An exact or an LPM match sets the status to `OK`, a
  -- ternary match leaves it, and any other match is passed over.
  unfoldable pub add_match :
      Element → Status → List MatchRule → FieldMatch → Run (Status × List MatchRule)
  add_match elem status rules m =
      let arg = get_argument elem.args m.field_id in
      elim (m.kind) [
        | exact value ↦ do
          a ← deref arg
          rule ← gen_match_rule_exact a value
          rules' ← push_back p.max_field_matches rules rule
          ok (status_ok, rules')
        | lpm value prefix_len ↦ do
          a ← deref arg
          rule ← gen_match_rule_lpm a value prefix_len
          rules' ← push_back p.max_field_matches rules rule
          ok (status_ok, rules')
        | ternary value mask ↦ do
          a ← deref arg
          rule ← gen_match_rule_ternary a value mask
          rules' ← push_back p.max_field_matches rules rule
          ok (status, rules')
        | MatchKind.other ↦ ok (unimplemented_match, rules)
      ]

  unfoldable pub add_matches :
      Element → Status → List MatchRule → List FieldMatch → Run (Status × List MatchRule)
  add_matches elem status rules [] = ok (status, rules)
  add_matches elem status rules (m ∷ ms) = do
    (status', rules') ← add_match elem status rules m
    add_matches elem status' rules' ms

  unfoldable pub add_params :
      Element → List ActionParameter → List Param → Run (List ActionParameter)
  add_params elem done [] = ok done
  add_params elem done (q ∷ qs) = do
    arg ← deref (get_argument elem.args q.param_id)
    param ← gen_action_param arg q.value
    done' ← push_back p.max_action_params done param
    add_params elem done' qs

  -- The switch over the action: the status that it leaves, the name of the action and its parameters.
  -- Where it leaves them as they were there is no parameter, and nothing was written to the name.
  unfoldable pub add_action :
      Device → Status → TableAction → Run (Status × Bytes × List ActionParameter)
  add_action dm status (TableAction.action act) = elim (get_element dm.id_map act.action_id) [
    | none ↦ ok (invalid_action, [], [])
    | some elem ↦ do params ← add_params elem [] act.params; ok (status, elem.value, params)
  ]
  add_action dm status TableAction.other = ok (unimplemented_action, [], [])

  -- `if (status.ok()) dm->cb(&ctrl_m);`
  unfoldable pub send : Device → Status → CtrlMsg → Run (Status × List Call)
  send dm status message =
      if is_ok status
      then (do cb ← deref dm.cb; ok (status, record { callee = cb; message = message } ∷ []))
      else ok (status, [])

  -- The status, and the calls of the callback.
  unfoldable pub table_insert : Device → TableEntry → Run (Status × List Call)
  table_insert dm entry = do
    elem ← deref (get_element dm.id_map entry.table_id)
    (status, rules) ← add_matches elem status_ok [] entry.matches
    (status', action_name, params) ← add_action dm status entry.table_action
    send dm status' (record {
      type = if entry.is_default_action then set_default_action else add_table_entry;
      table_name = elem.value;
      field_matches = rules;
      action_name = action_name;
      action_params = params;
    })

  unfoldable pub table_write : Device → UpdateType → TableEntry → Run (Status × List Call)
  table_write dm type entry =
      if not (check_p4_id entry.table_id P4Ids.table)
      then ok (status_of StatusCode.unknown "P4ID is not unknown", [])
      else elim type [
        | UpdateType.unspecified ↦ ok (status_of StatusCode.invalid_argument "Invalid argument", [])
        | UpdateType.insert ↦ table_insert dm entry
        | UpdateType.modify ↦ ok (table_modify dm entry, [])
        | UpdateType.delete ↦ ok (table_delete dm entry, [])
        | UpdateType.unrecognized ↦ ok (status_of StatusCode.unknown "Unknown update message", [])
      ]
