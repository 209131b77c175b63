-- ===== src/Messages.antt =====
-- The messages that T4P4S takes from the control plane, as server/device_mgr.c fills them in, and
-- what the code relies on without being able to see it: the sizes of their arrays in messages.h,
-- and the byte order of the host.
use p4runtime_grpcpp.Base.Int.{ℤ}
use p4runtime_grpcpp.Base.{
  ℕ, Bool, List, [], ◌∷◌, ◌++◌, Bytes, length, leb, if◌then◌else◌, Run, ok, fault, overflow,
}

pub record Platform : Type 0 where
  pub max_field_matches : ℕ
  pub max_action_params : ℕ
  pub match_name : ℕ
  pub match_bitmap : ℕ
  pub param_name : ℕ
  pub param_bitmap : ℕ
  pub big_endian : Bool

-- `struct p4_field_match_exact`, `_lpm` and `_ternary`. A bitmap holds the bytes that were copied
-- to it; behind them the block is as `malloc` gave it.
pub data MatchRule : Type 0 where
  exact_rule : (name : Bytes) → (length : ℕ) → (bitmap : Bytes) → MatchRule
  lpm_rule : (name : Bytes) → (prefix_length : ℤ) → (bitmap : Bytes) → MatchRule
  ternary_rule : (name : Bytes) → (length : ℕ) → (bitmap mask : Bytes) → MatchRule

pub record ActionParameter : Type 0 where
  pub name : Bytes
  pub length : ℕ
  pub bitmap : Bytes

pub data CtrlType : Type 0 where
  add_table_entry set_default_action : CtrlType

-- `action_type` is `P4_AT_ACTION` in each message that is sent.
pub record CtrlMsg : Type 0 where
  pub type : CtrlType
  pub table_name : Bytes
  pub field_matches : List MatchRule
  pub action_name : Bytes
  pub action_params : List ActionParameter

-- A call of the callback at the address `callee`.
pub record Call : Type 0 where
  pub callee : ℕ
  pub message : CtrlMsg

-- `strcpy` of a C string to an array of `size` bytes.
unfoldable pub strcpy : ℕ → Bytes → Run Bytes
strcpy size s = if leb size (length s) then fault overflow else ok s

-- `memcpy` of a whole buffer to an array of `size` bytes.
unfoldable pub memcpy : ℕ → Bytes → Run Bytes
memcpy size s = if leb (length s) size then ok s else fault overflow

-- `a[n] = x; n++` for an array of `size` cells, of which `n` are in use.
unfoldable pub push_back {ℓ} : {A : Type ℓ} → ℕ → List A → A → Run (List A)
push_back size xs x = if leb size (length xs) then fault overflow else ok (xs ++ x ∷ [])
