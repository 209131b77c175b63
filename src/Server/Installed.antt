-- ===== src/Server/Installed.antt =====
-- server/pi_server.cc: an entry on its way to the data plane, whatever came before.
use p4runtime_grpcpp.Base.{ℕ, ◌≡◌, [], ◌∷◌, All, ok}
use p4runtime_grpcpp.Device.{CounterRead, dev_mgr_init_with_t4p4s}
use p4runtime_grpcpp.Messages.{Platform}
use p4runtime_grpcpp.Proto.{TableEntry, status_ok}
use p4runtime_grpcpp.Server.History.{history, all_brought, DigestsDiffer}
use p4runtime_grpcpp.Server.Installs.{IsDescribed, described_message, insertion, write_described}
use p4runtime_grpcpp.Server.Reach.{Reach}
use p4runtime_grpcpp.Server.Refines.{IsUnused, FitsMap, started-replay}
use p4runtime_grpcpp.Server.Spec.Brought.{brought-known}
use p4runtime_grpcpp.Server.{Server, write}

-- From the start of a server whose memory holds no digest and no stream on, whatever came before,
-- where its configurations bring at most four elements for each hash value in all, and none has two
-- digests with one id: an entry whose table and action the configurations brought, with matches and
-- parameters of theirs that fit the arrays and are of kinds that the server knows, is installed.
-- The write is answered `OK`, the server stays as it is, and the data plane's callback is called
-- once, with the names that came first under the ids, and the rules and parameters that the entry
-- asks for.
pub history-installs :
    (p : Platform) (s s' : Server) (cb : ℕ) (counters : CounterRead) (device_id write_id : ℕ)
    (reach : Reach p (record s { dm = dev_mgr_init_with_t4p4s s.dm cb counters device_id }) s')
    (entry : TableEntry)
    → IsUnused s
    → FitsMap (history reach)
    → All DigestsDiffer (history reach)
    → (d : IsDescribed p (all_brought (history reach)) entry)
    → write p s' (insertion write_id entry)
      ≡ ok (
        status_ok,
        s',
        record { callee = cb; message = described_message p (all_brought (history reach)) entry d }
            ∷ [],
      )
history-installs p s s' cb counters device_id write_id reach entry unused few differ d =
    let r = started-replay p s s' cb counters device_id reach unused few differ in
    let (is_set, cb_is, _, finds) =
      brought-known s' cb counters device_id entry.table_id (history reach) d.table r d.has_table in
    write_described p (all_brought (history reach)) s' entry cb write_id d is_set cb_is finds
