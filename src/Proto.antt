-- ===== src/Proto.antt =====
-- The messages of P4Runtime as server/device_mgr.c and server/pi_server.cc use them: for each
-- message the fields that the code reads or writes. The classes themselves are generated.
use p4runtime_grpcpp.Base.{ℕ, Bool, true, false, List, [], Option, none, some, Bytes}
use p4runtime_grpcpp.Base.Int.{ℤ}
use Prim.Native.String.{String}

pub data StatusCode : Type 0 where
  ok unknown invalid_argument failed_precondition permission_denied already_exists unimplemented :
      StatusCode

pub record Status : Type 0 where
  pub code : StatusCode
  pub message : String
  pub details : Bytes

abbrev pub status_of : StatusCode → String → Status
status_of code message = record { code = code; message = message; details = [] }

abbrev pub status_ok : Status
status_ok = status_of StatusCode.ok ""

abbrev pub code_ok : StatusCode → Bool
code_ok StatusCode.ok = true
code_ok _ = false

abbrev pub is_ok : Status → Bool
is_ok s = code_ok s.code

-- The kinds of match that the code names, and all the others.
pub data MatchKind : Type 0 where
  exact : (value : Bytes) → MatchKind
  lpm : (value : Bytes) → (prefix_len : ℤ) → MatchKind
  ternary : (value mask : Bytes) → MatchKind
  other : MatchKind

pub record FieldMatch : Type 0 where
  pub field_id : ℕ
  pub kind : MatchKind

pub record Param : Type 0 where
  pub param_id : ℕ
  pub value : Bytes

pub record Action : Type 0 where
  pub action_id : ℕ
  pub params : List Param

-- `other` also stands for an action that is not set.
pub data TableAction : Type 0 where
  action : Action → TableAction
  other : TableAction

pub record TableEntry : Type 0 where
  pub table_id : ℕ
  pub matches : List FieldMatch
  pub table_action : TableAction
  pub is_default_action : Bool

pub record CounterData : Type 0 where
  pub byte_count : ℤ
  pub packet_count : ℤ

pub record CounterEntry : Type 0 where
  pub counter_id : ℕ
  pub index : Option ℤ
  pub counter_data : Option CounterData

pub data Entity : Type 0 where
  table_entry : TableEntry → Entity
  counter_entry : CounterEntry → Entity
  direct_counter_entry : Entity
  digest_entry : (digest_id : ℕ) → Entity
  other : Entity

pub data UpdateType : Type 0 where
  unspecified insert modify delete unrecognized : UpdateType

pub record Update : Type 0 where
  pub type : UpdateType
  pub entity : Entity

pub data Atomicity : Type 0 where
  continue_on_error rollback_on_error dataplane_atomic : Atomicity

pub record WriteRequest : Type 0 where
  pub device_id : ℕ
  pub atomicity : Atomicity
  pub updates : List Update

pub record ReadRequest : Type 0 where
  pub device_id : ℕ
  pub entities : List Entity

pub record ReadResponse : Type 0 where
  pub entities : List Entity

pub record MatchField : Type 0 where
  pub id : ℕ
  pub name : Bytes
  pub bitwidth : ℕ

-- A table, an action, a counter or a digest of P4Info: its preamble, and its match fields or
-- parameters.
pub record Preamble : Type 0 where
  pub id : ℕ
  pub name : Bytes

pub record P4Table : Type 0 where
  pub preamble : Preamble
  pub match_fields : List MatchField

pub record P4Action : Type 0 where
  pub preamble : Preamble
  pub params : List MatchField

pub record P4Info : Type 0 where
  pub tables : List P4Table
  pub actions : List P4Action
  pub counters : List Preamble
  pub digests : List Preamble

abbrev pub empty_p4info : P4Info
empty_p4info = record { tables = []; actions = []; counters = []; digests = [] }

pub record PipelineConfig : Type 0 where
  pub p4info : Option P4Info
  pub p4_device_config : Bytes
  pub cookie : Option ℕ

-- The accessors, which answer the default where a field is not set.
abbrev pub p4info_of : PipelineConfig → P4Info
p4info_of c = elim (c.p4info) [ none ↦ empty_p4info | some i ↦ i ]

abbrev pub cookie_of : PipelineConfig → ℕ
cookie_of c = elim (c.cookie) [ none ↦ 0 | some k ↦ k ]

pub data SetAction : Type 0 where
  unspecified verify verify_and_save verify_and_commit commit reconcile_and_commit : SetAction

pub data ResponseType : Type 0 where
  all cookie_only p4info_and_cookie device_config_and_cookie unrecognized : ResponseType
