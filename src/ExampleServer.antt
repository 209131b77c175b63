-- ===== src/ExampleServer.antt =====
-- The example of server/test_server.c: a server of which no data plane is part.
pub mod Reads
use p4runtime_grpcpp.Base.{ℕ, Bool, [], ◌∷◌, Option, some, Bytes, Run, ok, ◌>>=◌}
use p4runtime_grpcpp.Base.Int.{negsuc}
use p4runtime_grpcpp.Device.{Device, CounterArray, CounterRead, dev_mgr_init_with_t4p4s}
use p4runtime_grpcpp.Process.{Process, Reply, run_default, wait}

-- `dummy_get_counter_by_name`: memory for one number, in which nothing was written, so that `rest` is
-- what was there. `*size` stays -1.
abbrev pub dummy_get_counter_by_name : ℕ → CounterRead
dummy_get_counter_by_name rest name is_bytes = record { values = some (rest ∷ []); size = negsuc 0 }

-- `main`: the device, what the process holds, and what `PIGrpcServerWait` answers. `dummy_callback` is
-- the address of the callback, and `bound` the port that gRPC bound.
unfoldable pub main : Device → Process → ℕ → ℕ → Option ℕ → Run (Device × Process × Reply)
main dm p dummy_callback rest bound = do
  let dm' = dev_mgr_init_with_t4p4s dm dummy_callback (dummy_get_counter_by_name rest) 1
  let p' = run_default p bound
  reply ← wait p'
  ok (dm', p', reply)
