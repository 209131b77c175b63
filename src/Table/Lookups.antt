-- ===== src/Table/Lookups.antt =====
-- What `table_insert` of server/device_mgr.c takes from the id map.
use p4runtime_grpcpp.Base.{ℕ, ◌≡◌, ap, refl, arith}
use p4runtime_grpcpp.Device.{Device}
use p4runtime_grpcpp.IdMap.View.{view, lookup}
use p4runtime_grpcpp.IdMap.{get_element}
use p4runtime_grpcpp.Messages.{Platform}
use p4runtime_grpcpp.Proto.{TableAction, TableEntry}
use p4runtime_grpcpp.Table.{table_insert, add_action, send}

-- With what the two maps find under the ids of the entry.
insert_alike :
    (p : Platform) (dm dm' : Device) (entry : TableEntry) (action : TableAction)
    → entry.table_action ≡ action
    → ((q : ℕ) → get_element dm.id_map q ≡ get_element dm'.id_map q)
    → dm.cb ≡ dm'.cb
    → table_insert p dm entry ≡ table_insert p dm' entry
unfolding table_insert add_action send
insert_alike p dm dm' entry (TableAction.action act) is find cb =
    ground (arith, is, find entry.table_id, find act.action_id, cb)
insert_alike p dm dm' entry TableAction.other is find cb = ground (arith, is, find entry.table_id)

-- Two devices with the same callback whose id maps no lookup tells apart answer an insertion alike,
-- and send the data plane the same.
pub table_insert-view :
    (p : Platform) (dm dm' : Device) (entry : TableEntry)
    → view dm.id_map ≡ view dm'.id_map
    → dm.cb ≡ dm'.cb
    → table_insert p dm entry ≡ table_insert p dm' entry
unfolding lookup
table_insert-view p dm dm' entry same cb =
    insert_alike p dm dm' entry entry.table_action refl (λ q. ap (lookup q) same) cb
