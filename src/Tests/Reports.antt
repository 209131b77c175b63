-- ===== src/Tests/Reports.antt =====
-- What the server of server/pi_server.cc installs and reports after a history, at concrete values.
use p4runtime_grpcpp.Base.{
  ◌⊎◌, List, fault, overflow, true, c_str, inl, inr, map, ◌++◌, ◌≡◌, refl, [], ◌∷◌, none, some, ok,
  arith,
}
use p4runtime_grpcpp.Base.Int.{pos}
use p4runtime_grpcpp.Counter.Values.{entries_from, with_values}
use p4runtime_grpcpp.Digests.{dev_mgr_send_digest, mem}
use p4runtime_grpcpp.Digests.Send.{subscription}
use p4runtime_grpcpp.Pipeline.{initial_status}
use p4runtime_grpcpp.Pipeline.Load.{first_with}
use p4runtime_grpcpp.Proto.{SetAction, CounterEntry, status_ok, counter_entry}
use p4runtime_grpcpp.Server.{arbitration, stream_message, Server, set_config, read, write}
use p4runtime_grpcpp.Server.Delivers.{IsSubscribed, history-delivers}
use p4runtime_grpcpp.Server.History.{Request, set, heard, quiet, history, all_brought}
use p4runtime_grpcpp.Server.Installed.{history-installs}
use p4runtime_grpcpp.Server.Installs.{IsDescribed, described_message, insertion}
use p4runtime_grpcpp.Server.Refines.{FitsMap}
use p4runtime_grpcpp.Server.Reported.{IsAsked, IsReported, counters_request, history-reports}
use p4runtime_grpcpp.Server.Spec.{Refines, replay, fresh}
use p4runtime_grpcpp.Server.Subscribes.{delivered}
use p4runtime_grpcpp.Server.Takes.{FitsIfTaken, history-takes}
use p4runtime_grpcpp.Tests.{small_config, good_disk, cnt, small_platform, empty_server, two_values}
use p4runtime_grpcpp.Tests.Histories.{
  listening, asked_run, asked_run-FitsMap, asked_run-DigestsDiffer,
}
use p4runtime_grpcpp.Tests.Installs.{entry, entry-IsDescribed}
use p4runtime_grpcpp.Tests.Requests.{
  configured, mac_digest, mac_off, mac_named, mac_digest-FieldsFit,
}

-- The history brings what the small configuration describes.
abbrev asked_described : IsDescribed small_platform (all_brought (history asked_run)) entry
asked_described = entry-IsDescribed

history-installs_example :
    write small_platform listening (insertion 1 entry)
    ≡ ok (
      status_ok,
      listening,
      record {
        callee = 77;
        message =
            described_message small_platform
              (all_brought (history asked_run))
              entry
              asked_described;
      }
          ∷ [],
    )
history-installs_example =
    history-installs small_platform empty_server listening 77 two_values 1 1 asked_run entry
      (refl, refl) asked_run-FitsMap asked_run-DigestsDiffer asked_described

abbrev second_value : CounterEntry
second_value = record { counter_id = 3; index = some (pos 1); counter_data = none }

abbrev every_value : CounterEntry
every_value = record { counter_id = 3; index = none; counter_data = none }

abbrev counted :
    (entry : CounterEntry)
    → IsAsked entry (10 ∷ 20 ∷ []) (1 ∷ 2 ∷ [])
    → first_with (all_brought (history asked_run)) entry.counter_id ≡ some cnt
    → IsReported (all_brought (history asked_run)) two_values entry
counted entry asks known = record {
  elem = cnt;
  known = known;
  byte_counts = 10 ∷ 20 ∷ [];
  packet_counts = 1 ∷ 2 ∷ [];
  bytes = refl;
  packets = refl;
  fits_bytes = (omega arith, omega arith);
  fits_packets = (omega arith, omega arith);
  asks = asks;
}

cnt_brought : first_with (all_brought (history asked_run)) 3 ≡ some cnt
unfolding c_str
cnt_brought = refl

-- The whole counter, and its second value.
history-reports_example :
    read listening (counters_request 1 (every_value ∷ second_value ∷ []))
    ≡ ok (
      status_ok,
      record {
        entities =
            map counter_entry
              (entries_from 3 0 (10 ∷ 20 ∷ []) (1 ∷ 2 ∷ []) ++ with_values second_value 20 2 ∷ []);
      }
          ∷ [],
    )
history-reports_example =
    history-reports small_platform empty_server listening 77 two_values 1 1 asked_run every_value
      (second_value ∷ []) (refl, refl) asked_run-FitsMap asked_run-DigestsDiffer
      (
        counted every_value (inl (refl, refl)) cnt_brought,
        (counted second_value (inr (1, 20, 2, refl, refl, refl)) cnt_brought, tt),
      )

asked_run-IsSubscribed : IsSubscribed 9 small_config (history asked_run)
asked_run-IsSubscribed = record {
  before = [];
  device_id = 1;
  action = SetAction.verify;
  between = quiet ∷ heard 4 (arbitration configured.dm.device_id 0 6) ∷ [];
  request = subscription 1 9;
  since = [];
  splits = refl;
  takes = refl;
  none_between = (λ taken. taken, (λ taken. taken, tt));
  goes_on = refl;
  asks = refl;
  none_since = tt;
}

listening_keeps : (listening.dm.stream ≡ some 4) × (mem 4 listening.live ≡ true)
unfolding stream_message
listening_keeps = (ground arith, ground arith)

history-delivers_example :
    dev_mgr_send_digest small_platform listening.live 100 listening.dm mac_digest
    ≡ ok (delivered small_platform 4 100 mac_digest 9)
history-delivers_example =
    history-delivers small_platform empty_server listening 77 two_values 1 asked_run small_config 4
      100 mac_digest mac_off (refl, refl) asked_run-FitsMap asked_run-DigestsDiffer mac_named
      asked_run-IsSubscribed listening_keeps.0 listening_keeps.1 mac_digest-FieldsFit

-- The same configuration again.
abbrev asked_again : List Request
asked_again = history asked_run ++ set 1 SetAction.verify small_config ∷ []

asked_again-FitsMap : FitsMap asked_again
asked_again-FitsMap b lt = ground arith

history-takes_example :
    (FitsIfTaken SetAction.verify small_config
      × (s : Server) × (set_config good_disk listening 1 SetAction.verify small_config
          ≡ ok (initial_status, s))
      × Refines s (replay (fresh 77 two_values 1) asked_again))
    ⊎ ((¬ FitsIfTaken SetAction.verify small_config)
        × (set_config good_disk listening 1 SetAction.verify small_config ≡ fault overflow))
history-takes_example =
    history-takes small_platform good_disk empty_server listening 77 two_values 1 1 SetAction.verify
      small_config asked_run (refl, refl) asked_again-FitsMap
      ((tt, tt), (tt, (tt, (tt, ((tt, tt), tt)))))
