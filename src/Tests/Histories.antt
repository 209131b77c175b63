-- ===== src/Tests/Histories.antt =====
-- The server of server/pi_server.cc and the example of server/test_server.c over whole histories, at
-- concrete values.
use p4runtime_grpcpp.Base.{
  sym, subst, ◌≡◌, refl, true, List, [], ◌∷◌, none, some, ok, All, codes, take, Returns, arith,
  ◌==◌, if◌then◌else◌,
}
use p4runtime_grpcpp.Device.{Device, dev_mgr_init_with_t4p4s, dev_mgr_init}
use p4runtime_grpcpp.DigestMap.{Digest}
use p4runtime_grpcpp.DigestMap.Laws.{UniqueIds}
use p4runtime_grpcpp.Digests.{StreamWrite, DigestList, mem, dev_mgr_send_digest}
use p4runtime_grpcpp.Digests.Send.{subscription, members_of}
use p4runtime_grpcpp.ExampleServer.{main, dummy_get_counter_by_name}
use p4runtime_grpcpp.ExampleServer.Reads.{no_values, main-no_values}
use p4runtime_grpcpp.IdMap.{init_map}
use p4runtime_grpcpp.IdMap.Bucket.{hashed_to-le}
use p4runtime_grpcpp.IdMap.Capacity.{by_count}
use p4runtime_grpcpp.IdMap.Lookup.{init_map-IsProbed}
use p4runtime_grpcpp.Pipeline.{initial_status, dev_mgr_set_pipeline_config}
use p4runtime_grpcpp.Pipeline.AddDigests.{last_named, add_digests-UniqueIds}
use p4runtime_grpcpp.Pipeline.Load.{elements_of, Loaded}
use p4runtime_grpcpp.Pipeline.Set.{Configured, set_config-Loaded}
use p4runtime_grpcpp.Process.{
  no_process, blocks, run_default, run_addr_gnmi, wait, deref_server, deref_data,
}
use p4runtime_grpcpp.Proto.{
  PipelineConfig, p4info_of, SetAction, status_ok, ReadRequest, counter_entry,
}
use p4runtime_grpcpp.Server.{
  Server, arbitration, no_pipeline_config_status, read, set_config, write, stream_message,
  open_stream,
}
use p4runtime_grpcpp.Server.Asked.{AskedIn, LastIn, ArbitratedIn}
use p4runtime_grpcpp.Server.History.{history, all_brought, DigestsDiffer}
use p4runtime_grpcpp.Server.Reach.{sets, opens, messages, writes, Reach, here, next}
use p4runtime_grpcpp.Server.Rearranged.{Rearranged}
use p4runtime_grpcpp.Server.Refines.{FitsMap, started-replay}
use p4runtime_grpcpp.Server.Solicited.{digest-solicited}
use p4runtime_grpcpp.Server.Spec.{Refines, replay, fresh}
use p4runtime_grpcpp.Server.Subscribes.{
  arbitrated, subscribed, delivered, write-subscribed, subscription-delivers,
}
use p4runtime_grpcpp.Tests.{
  small_platform, small_info, small_config, empty_device, empty_server, nothing_saved, good_disk,
  two_values,
}
use p4runtime_grpcpp.Tests.Pipelines.{taken, small_info-FitsInfo}
use p4runtime_grpcpp.Tests.Requests.{
  started, configured, set_configured, mac_digest, mac_off, mac_named, mac_digest-FieldsFit,
}

-- A configuration, a stream that arbitrates, and a write that asks for the digest.
abbrev master : Server
master = arbitrated configured 4 0 6

abbrev pub listening : Server
listening = subscribed master 9

pub goes_on :
    (stream_message (open_stream configured 4) 4 (arbitration configured.dm.device_id 0 6)).0 ≡ none
unfolding stream_message
goes_on = ground arith

pub listens :
    (write small_platform master (subscription 1 9) ≡ ok (status_ok, listening, []))
    × (dev_mgr_send_digest small_platform listening.live 100 listening.dm mac_digest
        ≡ ok (delivered small_platform 4 100 mac_digest 9))
listens =
    subscription-delivers small_platform good_disk empty_server configured 1 1 4 0 6 100
      SetAction.verify small_config taken.0.0 mac_digest mac_off refl set_configured (tt, tt)
      mac_named mac_digest-FieldsFit

pub started_configured :
    set_config good_disk started 1 SetAction.verify small_config ≡ ok (taken.0.0, configured)
unfolding dev_mgr_init_with_t4p4s dev_mgr_init
started_configured = set_configured

abbrev pub asked_run : Reach small_platform started listening
asked_run =
    next
      (next
        (next
          (next here (
            sets good_disk 1 SetAction.verify small_config taken.0.0 configured started_configured))
          (opens 4 refl))
        (messages 4 (arbitration configured.dm.device_id 0 6) refl goes_on))
      (writes (subscription 1 9) status_ok listening [] listens.0)

pub asked_run-FitsMap : FitsMap (history asked_run)
asked_run-FitsMap b lt = omega (arith, hashed_to-le b (all_brought (history asked_run)))

pub asked_run-DigestsDiffer : All DigestsDiffer (history asked_run)
asked_run-DigestsDiffer = ((tt, tt), (tt, (tt, (tt, tt))))

started-replay_example : Refines listening (replay (fresh 77 two_values 1) (history asked_run))
started-replay_example =
    started-replay small_platform empty_server listening 77 two_values 1 asked_run (refl, refl)
      asked_run-FitsMap asked_run-DigestsDiffer

abbrev message : StreamWrite DigestList
message = record {
  stream = 4;
  response = record {
    digest_id = 9;
    list_id = 0;
    members = members_of small_platform (take mac_digest.list_size mac_digest.fields);
    timestamp = 100;
  };
}

abbrev nothing_more : List (StreamWrite DigestList)
nothing_more = []

digest-solicited_example :
    (nothing_more ≡ [])
    × (mem 4 listening.live ≡ true)
    × ArbitratedIn 4 (history asked_run)
    × (config : PipelineConfig) × LastIn config (history asked_run)
    × (d : Digest) × (last_named (p4info_of config).digests (codes "mac") ≡ some d)
    × (9 ≡ d.id)
    × AskedIn d.id (history asked_run)
digest-solicited_example =
    digest-solicited small_platform empty_server listening 77 two_values 1 asked_run 100 mac_digest
      message [] (refl, refl) asked_run-FitsMap asked_run-DigestsDiffer listens.1

-- The digest is asked for before the stream opens.
abbrev asking : Server
asking = subscribed configured 9

configured_writes : write small_platform configured (subscription 1 9) ≡ ok (status_ok, asking, [])
configured_writes =
    let (_, _, (_, _, made)) = taken in
    write-subscribed small_platform configured 1 9 made.has_p4info (
      subst UniqueIds (sym made.digest_map)
        (add_digests-UniqueIds (p4info_of small_config).digests (tt, tt)))

abbrev arbitrated_late : Server
arbitrated_late = arbitrated asking 4 0 6

asking_goes_on :
    (stream_message (open_stream asking 4) 4 (arbitration asking.dm.device_id 0 6)).0 ≡ none
unfolding stream_message
asking_goes_on = ground arith

abbrev late_run : Reach small_platform started arbitrated_late
late_run =
    next
      (next
        (next
          (next here (
            sets good_disk 1 SetAction.verify small_config taken.0.0 configured started_configured))
          (writes (subscription 1 9) status_ok asking [] configured_writes))
        (opens 4 refl))
      (messages 4 (arbitration asking.dm.device_id 0 6) refl asking_goes_on)

-- The example server with what memory held, on the port that it asked for.
abbrev example_device : Device
example_device = dev_mgr_init_with_t4p4s empty_device 88 (dummy_get_counter_by_name 13) 1

abbrev example_server : Server
example_server = record { dm = example_device; saved = nothing_saved; live = [] }

main_runs :
    main empty_device no_process 88 13 (some 50051)
    ≡ ok (example_device, run_default no_process (some 50051), blocks)
unfolding main wait deref_server deref_data run_addr_gnmi
main_runs = refl

example_taken :
    Returns
      (dev_mgr_set_pipeline_config good_disk example_device nothing_saved SetAction.verify
        small_config)
      λ r.
        (r.0 ≡ initial_status)
        × Loaded init_map (elements_of small_info) r.1.id_map
        × Configured example_device small_config r.1 r.2
unfolding dev_mgr_init_with_t4p4s dev_mgr_init
example_taken =
    set_config-Loaded good_disk example_device nothing_saved SetAction.verify small_config refl
      by_count init_map-IsProbed small_info-FitsInfo

abbrev example_configured : Server
example_configured = record { dm = example_taken.0.1; saved = example_taken.0.2; live = [] }

example_set :
    set_config good_disk example_server 1 SetAction.verify small_config
    ≡ ok (example_taken.0.0, example_configured)
unfolding set_config dev_mgr_init_with_t4p4s dev_mgr_init
example_set = rw example_taken.1 refl

-- A counter that is known, and one that is not, behind it.
abbrev counters_asked : ReadRequest
counters_asked = record {
  device_id = 1;
  entities =
      counter_entry (record { counter_id = 3; index = none; counter_data = none })
      ∷ counter_entry (record { counter_id = 4; index = none; counter_data = none })
      ∷ [];
}

abbrev configured_example : Reach small_platform example_server example_configured
configured_example = next here (
    sets good_disk 1 SetAction.verify small_config example_taken.0.0 example_configured example_set)

main-no_values_example : read example_configured counters_asked ≡ (
    if example_configured.dm.has_p4info == 0
    then ok (no_pipeline_config_status, [])
    else no_values example_configured counters_asked.entities)
main-no_values_example =
    main-no_values small_platform empty_device example_device no_process
      (run_default no_process (some 50051)) 88 13 (some 50051) blocks nothing_saved
      example_configured configured_example counters_asked main_runs
