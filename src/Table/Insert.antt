-- ===== src/Table/Insert.antt =====
-- `table_insert` of server/device_mgr.c: what reaches the data plane, and what does not.
use mathlib.Core.List.{append_assoc}
use p4runtime_grpcpp.Base.{
  ℕ, ◌≤◌, ◌<◌, ◌≡◌, ◌⊎◌, refl, ap, sym, ◌∙◌, Bool, true, false, List, [], ◌∷◌, ◌++◌, some, length,
  length-append, All, ok, arith, if◌then◌else◌,
}
use p4runtime_grpcpp.Device.{Device}
use p4runtime_grpcpp.IdMap.{Element, get_element}
use p4runtime_grpcpp.Messages.{Platform, CtrlMsg, add_table_entry, set_default_action, Call}
use p4runtime_grpcpp.Proto.{
  Status, status_ok, is_ok, MatchKind, exact, lpm, ternary, FieldMatch, Action, TableAction,
  TableEntry,
}
use p4runtime_grpcpp.Table.Matches.{
  rules_for, status_after_all, IsReady, IsReadyParam, parameters_for, add_matches_ready,
  add_params_ready, length-rules_for-le, length-parameters_for, status_after, rule_for, IsSupported,
}
use p4runtime_grpcpp.Table.{unimplemented_match, send, table_insert, add_action}

-- An entry whose table, fields, action and parameters are known, and which fits the arrays.
pub record IsReadyEntry (p : Platform) (dm : Device) (entry : TableEntry) : Type 0 where
  pub table : Element
  pub table_known : get_element dm.id_map entry.table_id ≡ some table
  pub matches : All (IsReady p table) entry.matches
  pub matches_fit : length entry.matches ≤ p.max_field_matches
  pub act : Action
  pub has_action : entry.table_action ≡ TableAction.action act
  pub action_elem : Element
  pub action_known : get_element dm.id_map act.action_id ≡ some action_elem
  pub params : All (IsReadyParam p action_elem) act.params
  pub params_fit : length act.params ≤ p.max_action_params
  pub callback : ℕ
  pub callback_set : dm.cb ≡ some callback

-- The message that the entry asks for.
abbrev pub message_for :
    (p : Platform) (dm : Device) (entry : TableEntry) → IsReadyEntry p dm entry → CtrlMsg
message_for p dm entry r = record {
  type = if entry.is_default_action then set_default_action else add_table_entry;
  table_name = r.table.value;
  field_matches = rules_for r.table entry.matches;
  action_name = r.action_elem.value;
  action_params = parameters_for p r.action_elem r.act.params;
}

-- A ready entry runs to the end. Its status is the one that the matches leave, and the message goes
-- to the callback exactly if that is `OK`.
pub table_insert_ready :
    (p : Platform) (dm : Device) (entry : TableEntry) (r : IsReadyEntry p dm entry)
    → let status = status_after_all status_ok entry.matches in
      table_insert p dm entry
      ≡ ok (
        status,
        if is_ok status
            then record { callee = r.callback; message = message_for p dm entry r } ∷ []
            else [],
      )
unfolding table_insert add_action send
table_insert_ready p dm entry r =
    let matches =
      add_matches_ready p r.table entry.matches status_ok [] r.matches
        (omega (arith, r.matches_fit)) in
    let params =
      add_params_ready p r.action_elem r.act.params [] r.params (omega (arith, r.params_fit)) in
    ground (arith, r.table_known, r.has_action, r.action_known, r.callback_set, matches, params)

-- Where `table_insert` ends: the callback is called once, with one message, if the status is `OK`,
-- and not at all otherwise.
pub table_insert-calls :
    (p : Platform) (dm : Device) (entry : TableEntry) (status : Status) (calls : List Call)
    → table_insert p dm entry ≡ ok (status, calls)
    → ((is_ok status ≡ true) × ((c : Call) × (calls ≡ c ∷ []) × (dm.cb ≡ some c.callee)))
      ⊎ ((is_ok status ≡ false) × (calls ≡ []))
unfolding table_insert add_action send
table_insert-calls p dm entry status calls run = ground arith

pub status_after_all-append :
    (status : Status) (ms ns : List FieldMatch)
    → status_after_all status (ms ++ ns) ≡ status_after_all (status_after_all status ms) ns
status_after_all-append status [] ns = refl
status_after_all-append status (m ∷ ms) ns =
    status_after_all-append (status_after status m.kind) ms ns

rules_for-append :
    (e : Element) (ms ns : List FieldMatch)
    → rules_for e (ms ++ ns) ≡ rules_for e ms ++ rules_for e ns
rules_for-append e [] ns = refl
rules_for-append e (m ∷ ms) ns =
    ap (◌++◌ (rule_for e m)) (rules_for-append e ms ns)
    ∙ sym (append_assoc (rule_for e m) (rules_for e ms) (rules_for e ns))

status_after_supported :
    (ms : List FieldMatch) → All IsSupported ms → status_after_all status_ok ms ≡ status_ok
status_after_supported [] h = refl
status_after_supported (m ∷ ms) h =
    let keep : status_after status_ok m.kind ≡ status_ok = ground (arith, h.0) in
    rw keep (status_after_supported ms h.1)

length-rules_for-supported :
    (p : Platform) (e : Element) (ms : List FieldMatch)
    → All (IsReady p e) ms
    → All IsSupported ms
    → length (rules_for e ms) ≡ length ms
length-rules_for-supported p e [] ready h = refl
length-rules_for-supported p e (m ∷ ms) ((a, at, _, _), ready) h =
    let one : length (rule_for e m) ≡ 1 = ground (arith, at, h.0) in
    omega (
      arith,
      length-append (rule_for e m) (rules_for e ms),
      length-rules_for-supported p e ms ready h.1,
    )

-- A ready entry without a match of another kind is installed: the status is `OK`, the callback is
-- called once, and the message has one rule for each match and one parameter for each parameter.
pub table_insert_supported :
    (p : Platform) (dm : Device) (entry : TableEntry) (r : IsReadyEntry p dm entry)
    → All IsSupported entry.matches
    → let message = message_for p dm entry r in
      (table_insert p dm entry
        ≡ ok (status_ok, record { callee = r.callback; message = message } ∷ []))
      × (length message.field_matches ≡ length entry.matches)
      × (length message.action_params ≡ length r.act.params)
table_insert_supported p dm entry r supported = (
  rw (table_insert_ready p dm entry r, status_after_supported entry.matches supported) refl,
  length-rules_for-supported p r.table entry.matches r.matches supported,
  length-parameters_for p r.action_elem r.act.params r.params,
)

dropped-lt :
    (p : Platform) (e : Element) (before after : List FieldMatch) (u : FieldMatch)
    → u.kind ≡ MatchKind.other
    → length (rules_for e (before ++ u ∷ after)) < length (before ++ u ∷ after)
dropped-lt p e before after u other =
    let nothing : length (rule_for e u) ≡ 0 = ground (arith, other) in
    omega (
      arith,
      ap length (rules_for-append e before (u ∷ after)),
      length-append (rules_for e before) (rules_for e (u ∷ after)),
      length-append (rule_for e u) (rules_for e after),
      length-append before (u ∷ after),
      length-rules_for-le p e before,
      length-rules_for-le p e after,
    )

-- An exact or an LPM match, which sets the status to `OK` whatever it was.
abbrev pub sets_ok : MatchKind → Bool
sets_ok (exact value) = true
sets_ok (lpm value prefix_len) = true
sets_ok _ = false

status_after-sets_ok :
    (status : Status) (kind : MatchKind)
    → sets_ok kind ≡ true
    → status_after status kind ≡ status_ok
status_after-sets_ok status (exact value) h = refl
status_after-sets_ok status (lpm value prefix_len) h = refl
status_after-sets_ok status (ternary value mask) h = cc
status_after-sets_ok status MatchKind.other h = cc

-- In a ready entry a match of another kind is lost, if an exact or an LPM match stands behind it at
-- the end of the list: the status is `OK`, and the data plane gets a message with fewer rules than
-- there are matches.
pub table_insert_drops :
    (p : Platform) (dm : Device) (entry : TableEntry) (r : IsReadyEntry p dm entry)
    (before between : List FieldMatch) (u last : FieldMatch)
    → entry.matches ≡ before ++ u ∷ (between ++ last ∷ [])
    → u.kind ≡ MatchKind.other
    → sets_ok last.kind ≡ true
    → let message = message_for p dm entry r in
      (table_insert p dm entry
        ≡ ok (status_ok, record { callee = r.callback; message = message } ∷ []))
      × (length message.field_matches < length entry.matches)
table_insert_drops p dm entry r before between u last e other resets =
    let status : status_after_all status_ok entry.matches ≡ status_ok =
      ap (status_after_all status_ok) e
      ∙ status_after_all-append status_ok before (u ∷ (between ++ last ∷ []))
      ∙ status_after_all-append _ between (last ∷ [])
      ∙ status_after-sets_ok _ last.kind resets in
    (
      rw (table_insert_ready p dm entry r, status) refl,
      rw e (dropped-lt p r.table before (between ++ last ∷ []) u other),
    )

-- Where the last match of a ready entry is of another kind, nothing is sent, and the status is that
-- of `unimplemented_match`.
table_insert_unsupported :
    (p : Platform) (dm : Device) (entry : TableEntry) (r : IsReadyEntry p dm entry)
    (before : List FieldMatch) (last : FieldMatch)
    → entry.matches ≡ before ++ last ∷ []
    → last.kind ≡ MatchKind.other
    → table_insert p dm entry ≡ ok (unimplemented_match, [])
table_insert_unsupported p dm entry r before last e other =
    let status : status_after_all status_ok entry.matches ≡ unimplemented_match =
      ap (status_after_all status_ok) e
      ∙ status_after_all-append status_ok before (last ∷ [])
      ∙ ground (arith, other) in
    rw (table_insert_ready p dm entry r, status) refl
