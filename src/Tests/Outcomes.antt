-- ===== src/Tests/Outcomes.antt =====
-- Which insertions and reads of server/device_mgr.c come to an end, at concrete values.
use p4runtime_grpcpp.Base.{◌≡◌, ◌↔◌, inl, inr, refl, true, List, [], ◌∷◌, none, some, ok}
use p4runtime_grpcpp.Base.Int.{pos, negsuc}
use p4runtime_grpcpp.Counter.{counter_read}
use p4runtime_grpcpp.Counter.Inside.{IsAbsent}
use p4runtime_grpcpp.Counter.Outcome.{IsAnswered, counter_read-ends_iff, counter_read-refuses}
use p4runtime_grpcpp.Counter.Refuses.{ReadOutcome, negative_index, counter_read-outcome}
use p4runtime_grpcpp.Digests.{P4Digest, DigestList, StreamWrite, dev_mgr_send_digest}
use p4runtime_grpcpp.Digests.Ends.{IsDelivered}
use p4runtime_grpcpp.IdMap.{get_element, get_from, home, init_map}
use p4runtime_grpcpp.Messages.{Call}
use p4runtime_grpcpp.Proto.{
  WriteRequest, ReadRequest, UpdateType, Entity, continue_on_error, Status, exact, MatchKind,
  CounterEntry, ReadResponse,
}
use p4runtime_grpcpp.Server.{Server, write, read}
use p4runtime_grpcpp.Server.Ends.{SurvivesWrite, SurvivesRead, survives_iff}
use p4runtime_grpcpp.Table.{table_insert}
use p4runtime_grpcpp.Table.Outcome.{IsTaken, table_insert-ends_iff}
use p4runtime_grpcpp.Tests.{
  small_platform, small_server, small_device, cnt, two_values, ip_match, entry_with, no_response,
}

table_insert-ends_iff_example :
    ((r : Status × List Call) × (table_insert small_platform small_device
          (entry_with (ip_match MatchKind.other ∷ []))
        ≡ ok r))
    ↔ IsTaken small_platform small_device (entry_with (ip_match MatchKind.other ∷ []))
table_insert-ends_iff_example =
    table_insert-ends_iff small_platform small_device (entry_with (ip_match MatchKind.other ∷ []))

abbrev second_value : CounterEntry
second_value = record { counter_id = 3; index = some (pos 1); counter_data = none }

counter_read-ends_iff_example :
    ((r : Status × ReadResponse) × (counter_read small_device second_value no_response ≡ ok r))
    ↔ IsAnswered small_device second_value
counter_read-ends_iff_example = counter_read-ends_iff small_device second_value no_response

abbrev below_zero : CounterEntry
below_zero = record { counter_id = 3; index = some (negsuc 0); counter_data = none }

cnt_known : get_element small_device.id_map 3 ≡ some cnt
unfolding get_element get_from home init_map
cnt_known = refl

bytes_present : ¬ IsAbsent (two_values cnt.value true)
bytes_present (inl null) = cc
bytes_present (inr unset) = cc

below_zero_runs :
    counter_read small_device below_zero no_response ≡ ok (negative_index, no_response)
below_zero_runs = counter_read-refuses small_device below_zero no_response _ (
    inr (cnt, two_values, cnt_known, refl, inr (0, refl, (λ absent. bytes_present absent.0), refl)))

counter_read-outcome_example :
    ReadOutcome small_device below_zero no_response (negative_index, no_response)
counter_read-outcome_example =
    counter_read-outcome small_device below_zero no_response (negative_index, no_response)
      below_zero_runs

abbrev writes : WriteRequest
writes = record {
  device_id = 1;
  atomicity = continue_on_error;
  updates =
      record {
        type = UpdateType.insert;
        entity = Entity.table_entry (entry_with (ip_match (exact (1 ∷ [])) ∷ []));
      }
      ∷ [];
}

abbrev reads : ReadRequest
reads = record { device_id = 1; entities = Entity.counter_entry second_value ∷ [] }

abbrev no_digest : P4Digest
no_digest = record { field_list_name = []; list_size = 1; fields = [] }

survives_iff_example :
    (((r : Status × Server × List Call) × (write small_platform small_server writes ≡ ok r))
      ↔ SurvivesWrite small_platform small_server writes)
    × (((r : Status × List ReadResponse) × (read small_server reads ≡ ok r))
        ↔ SurvivesRead small_server reads)
    × (((r : List (StreamWrite DigestList)) × (dev_mgr_send_digest small_platform [] 100
              small_device no_digest
            ≡ ok r))
        ↔ IsDelivered small_platform [] small_device no_digest)
survives_iff_example = survives_iff small_platform small_server writes reads 100 no_digest
