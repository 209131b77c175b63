-- ===== src/Device.antt =====
-- `device_mgr_t` of server/device_mgr.h, the globals of server/device_mgr.c, and `dev_mgr_init` and
-- `dev_mgr_init_with_t4p4s`.
use p4runtime_grpcpp.Base.{ℕ, Bool, List, Option, some, Bytes}
use p4runtime_grpcpp.Base.Int.{ℤ}
use p4runtime_grpcpp.ConfigFile.{ConfigFile}
use p4runtime_grpcpp.DigestMap.{DigestMap}
use p4runtime_grpcpp.IdMap.{IdMap, init_map}
use p4runtime_grpcpp.Proto.{P4Info}

-- `p4_ids`: what an id is the id of.
pub data P4Ids : Type 0 where
  table counter : P4Ids

-- What a call of `get_counter_by_name` answers: the array, if the pointer is not null, as far as it
-- may be read, and `*size` after the call, which was -1 before it.
pub record CounterArray : Type 0 where
  pub values : Option (List ℕ)
  pub size : ℤ

-- The counter's name, and whether its bytes or its packets are asked for.
abbrev pub CounterRead : Type 0
CounterRead = Bytes → Bool → CounterArray

-- `cb` is an address, `stream` names the stream that the pointer was taken from.
pub record Device : Type 0 where
  pub device_id : ℕ
  pub digest_map : DigestMap
  pub id_map : IdMap
  pub cb : Option ℕ
  pub get_counter_by_name : Option CounterRead
  pub has_p4info : ℕ
  pub p4info : P4Info
  pub stream : Option ℕ

-- `saved_device_config`, `has_config_cookie` and `config_cookie`.
pub record Saved : Type 0 where
  pub device_config : ConfigFile
  pub has_config_cookie : Bool
  pub config_cookie : ℕ

unfoldable pub dev_mgr_init : Device → Device
dev_mgr_init dm = record dm { id_map = init_map; has_p4info = 0 }

unfoldable pub dev_mgr_init_with_t4p4s : Device → ℕ → CounterRead → ℕ → Device
unfolding dev_mgr_init
dev_mgr_init_with_t4p4s dm cb get_counter_by_name device_id = record (dev_mgr_init dm) {
  cb = some cb;
  get_counter_by_name = some get_counter_by_name;
  device_id = device_id;
}
