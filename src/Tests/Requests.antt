-- ===== src/Tests/Requests.antt =====
-- Writes, reads and steps of the server at concrete values.
use p4runtime_grpcpp.Base.{
  map, Returns, codes, false, eq_bytes, ◌*◌, ◌^◌, inl, inr, ◌≡◌, refl, List, [], ◌∷◌, some, none,
  ok, ◌>>=◌, arith,
}
use p4runtime_grpcpp.Base.Int.{pos, negsuc}
use p4runtime_grpcpp.Counter.{counter_read, counter_read_one, read_value, load, is_missing}
use p4runtime_grpcpp.Device.{Device, dev_mgr_init, dev_mgr_init_with_t4p4s}
use p4runtime_grpcpp.DigestMap.{Digest}
use p4runtime_grpcpp.Digests.{P4Digest, htonl, byte_length}
use p4runtime_grpcpp.Digests.Send.{FieldsFit}
use p4runtime_grpcpp.IdMap.{get_element, get_from, home, init_map}
use p4runtime_grpcpp.Manager.{unknown_entity, dev_mgr_read_one, dev_mgr_read, dev_mgr_write}
use p4runtime_grpcpp.Manager.Merge.{Merge, nothing, left, right, request_of, dev_mgr_write-Merge}
use p4runtime_grpcpp.Manager.Read.{Reads, done, more, dev_mgr_read-stops}
use p4runtime_grpcpp.Manager.Write.{activations, sent, dev_mgr_write-sent}
use p4runtime_grpcpp.Messages.{Call}
use p4runtime_grpcpp.Pipeline.{initial_status, dev_mgr_set_pipeline_config}
use p4runtime_grpcpp.Pipeline.AddDigests.{last_named}
use p4runtime_grpcpp.Proto.{
  Update, status_ok, Entity, counter_entry, UpdateType, continue_on_error, WriteRequest,
  ReadRequest, ReadResponse, SetAction, ResponseType, CounterEntry,
}
use p4runtime_grpcpp.Server.{
  Server, arbitration, no_pipeline_config_status, empty_config, write, read, set_config, get_config,
  stream_message, open_stream, close_stream,
}
use p4runtime_grpcpp.Server.Configured.{Takes, unconfigured-refuses}
use p4runtime_grpcpp.Server.Reach.{
  sets, opens, messages, closes, Reach, here, next, IsValid, Progress, started-IsValid,
  Reach-Progress,
}
use p4runtime_grpcpp.Tests.{
  small_info, small_platform, small_device, small_config, empty_device, empty_server, good_disk,
  two_values, entry_with, no_response,
}
use p4runtime_grpcpp.Tests.Pipelines.{taken}

-- An entry that cannot be installed, a digest, and an entity that is not known.
abbrev three_updates : WriteRequest
three_updates = record {
  device_id = 1;
  atomicity = continue_on_error;
  updates =
      record { type = UpdateType.modify; entity = Entity.table_entry (entry_with []) }
      ∷ record { type = UpdateType.insert; entity = Entity.digest_entry 9 }
      ∷ record { type = UpdateType.insert; entity = Entity.other }
      ∷ [];
}

dev_mgr_write-sent_example : dev_mgr_write small_platform small_device three_updates ≡ (
    sent small_platform small_device three_updates.updates >>= λ (calls : List Call). ok (
      status_ok,
      record small_device {
        digest_map = activations small_device.digest_map three_updates.updates;
      },
      calls,
    ))
dev_mgr_write-sent_example = dev_mgr_write-sent small_platform small_device three_updates refl

-- A request for a digest, and one that changes an entry and asks for nothing else.
abbrev asks : List Update
asks = record { type = UpdateType.insert; entity = Entity.digest_entry 9 } ∷ []

abbrev changes : List Update
changes =
    record { type = UpdateType.modify; entity = Entity.table_entry (entry_with []) }
    ∷ record { type = UpdateType.insert; entity = Entity.other }
    ∷ []

abbrev mixed : List Update
mixed =
    record { type = UpdateType.modify; entity = Entity.table_entry (entry_with []) }
    ∷ record { type = UpdateType.insert; entity = Entity.digest_entry 9 }
    ∷ record { type = UpdateType.insert; entity = Entity.other }
    ∷ []

abbrev after_asks : Device
after_asks = record small_device { digest_map = activations small_device.digest_map asks }

dev_mgr_write-Merge_example :
    Returns
      (dev_mgr_write small_platform small_device (request_of 1 mixed))
      λ r. (r.0 ≡ status_ok) × (r.1 ≡ after_asks) × Merge [] [] r.2
dev_mgr_write-Merge_example =
    dev_mgr_write-Merge small_platform small_device after_asks after_asks 1 asks changes mixed
      status_ok status_ok [] [] (right (left (right nothing)))
      (dev_mgr_write-sent small_platform small_device (request_of 1 asks) refl)
      (dev_mgr_write-sent small_platform after_asks (request_of 1 changes) refl)

abbrev negative_counter : CounterEntry
negative_counter = record { counter_id = 3; index = some (negsuc 0); counter_data = none }

abbrev first_counter : CounterEntry
first_counter = record { counter_id = 3; index = some (pos 0); counter_data = none }

abbrev first_response : ReadResponse
first_response = record {
  entities =
      counter_entry (record first_counter {
        counter_data = some (record { byte_count = pos 10; packet_count = pos 1 });
      })
      ∷ [];
}

first_read :
    dev_mgr_read_one small_device (counter_entry first_counter) no_response
    ≡ ok (status_ok, first_response)
unfolding dev_mgr_read_one counter_read counter_read_one read_value load is_missing get_element
    get_from home init_map
first_read = refl

first_Reads : Reads small_device (counter_entry first_counter ∷ []) no_response first_response
first_Reads = more status_ok first_read refl (done first_response)

other_read :
    dev_mgr_read_one small_device Entity.other first_response ≡ ok (unknown_entity, first_response)
unfolding dev_mgr_read_one
other_read = refl

abbrev reads_first : ReadRequest
reads_first = record { device_id = 1; entities = counter_entry first_counter ∷ [] }

abbrev reads_other : ReadRequest
reads_other = record {
  device_id = 1;
  entities = counter_entry first_counter ∷ Entity.other ∷ counter_entry first_counter ∷ [];
}

dev_mgr_read-stops_example :
    (dev_mgr_read small_device reads_other no_response ≡ ok (status_ok, first_response))
    × ((rows : List CounterEntry) × (first_response.entities ≡ map counter_entry rows))
dev_mgr_read-stops_example =
    dev_mgr_read-stops small_device reads_other (counter_entry first_counter ∷ [])
      (counter_entry first_counter ∷ []) Entity.other no_response first_response first_response
      unknown_entity refl first_Reads other_read refl

abbrev pub started : Server
started = record empty_server { dm = dev_mgr_init_with_t4p4s empty_device 77 two_values 1 }

-- A stream opens, and a request brings a configuration with `COMMIT`, which is not taken.
abbrev committed : Server
committed = open_stream started 4

commit_ignored :
    set_config good_disk committed 1 SetAction.commit small_config ≡ ok (initial_status, committed)
unfolding set_config dev_mgr_set_pipeline_config dev_mgr_init_with_t4p4s dev_mgr_init
commit_ignored = refl

abbrev quiet_steps : Reach small_platform started committed
quiet_steps =
    next (next here (opens 4 refl))
      (sets good_disk 1 SetAction.commit small_config initial_status committed commit_ignored)

quiet_steps-quiet : ¬ Takes quiet_steps
quiet_steps-quiet (inl (inl started_at)) = started_at
quiet_steps-quiet (inl (inr opening)) = opening
quiet_steps-quiet (inr commit) = cc

unconfigured-refuses_example :
    (write small_platform committed three_updates ≡ ok (no_pipeline_config_status, committed, []))
    × (read committed reads_first ≡ ok (no_pipeline_config_status, []))
    × (get_config good_disk committed ResponseType.all
        ≡ (no_pipeline_config_status, empty_config, committed))
unconfigured-refuses_example =
    unconfigured-refuses small_platform good_disk empty_server committed 77 two_values 1 quiet_steps
      three_updates reads_first ResponseType.all quiet_steps-quiet

-- The server after it took the small configuration.
abbrev pub configured : Server
configured = record empty_server { dm = taken.0.1; saved = taken.0.2 }

pub set_configured :
    set_config good_disk empty_server 1 SetAction.verify small_config ≡ ok (taken.0.0, configured)
unfolding set_config
set_configured = rw taken.1 refl

-- The digest of the small configuration, with a field of 16 bits in network byte order.
abbrev pub mac_digest : P4Digest
mac_digest = record {
  field_list_name = codes "mac";
  list_size = 1;
  fields = record { value = 1 ∷ 2 ∷ 3 ∷ []; length = 16 * 2 ^ 24 } ∷ [];
}

abbrev pub mac_off : Digest
mac_off = record { name = codes "mac"; id = 9; active = false }

pub mac_named : last_named small_info.digests (codes "mac") ≡ some mac_off
unfolding eq_bytes
mac_named = refl

pub mac_digest-FieldsFit : FieldsFit small_platform 1 mac_digest.fields
unfolding byte_length htonl
mac_digest-FieldsFit = (omega arith, tt)

-- The configuration, a stream that opens, an arbitration, and the end of the stream.
abbrev opened : Server
opened = open_stream configured 4

abbrev heard : Server
heard = (stream_message opened 4 (arbitration 1 0 6)).1

empty_server-IsValid : IsValid empty_server
unfolding dev_mgr_init_with_t4p4s
empty_server-IsValid = started-IsValid empty_server 77 two_values 1 tt

message_heard : ((stream_message opened 4 (arbitration 1 0 6)).0 ≡ none) × (heard.live ≡ 4 ∷ [])
unfolding stream_message
message_heard = let same = taken.2.2.device_id in (ground (arith, same), ground (arith, same))

steps : Reach small_platform empty_server (close_stream heard 4)
steps =
    next
      (next
        (next
          (next here
            (sets good_disk 1 SetAction.verify small_config taken.0.0 configured set_configured))
          (opens 4 refl))
        (messages 4 (arbitration 1 0 6) refl message_heard.0))
      (closes 4 (rw message_heard.1 refl))

Reach-Progress_example : Progress empty_server (close_stream heard 4)
Reach-Progress_example =
    Reach-Progress small_platform empty_server (close_stream heard 4) empty_server-IsValid steps
