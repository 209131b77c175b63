-- ===== src/Process.antt =====
-- The life cycle of the server in server/pi_server.cc: `struct ServerData`, the pointer to it, and the
-- functions from `PIGrpcServerRunAddrGnmi` to `PIGrpcServerCleanup`.
pub mod Phases
use p4runtime_grpcpp.Base.{
  ℕ, zero, suc, List, [], ◌∷◌, ◌++◌, Option, none, some, Bytes, codes, length, get_elem?, Run, ok,
  fault, null_pointer, dangling, deref, ◌>>=◌,
}

-- A server that `BuildAndStart` gave, before and after its `Shutdown`.
pub data GrpcServer : Type 0 where
  serving stopped : GrpcServer

-- `server` is null if `BuildAndStart` could not start one.
pub record ServerData : Type 0 where
  pub server_address : Bytes
  pub server_port : ℕ
  pub server : Option GrpcServer

-- The blocks that `new` gave, in order, and nothing where one was deleted; `server_data` is the number
-- of a block, or null.
pub record Process : Type 0 where
  pub blocks : List (Option ServerData)
  pub server_data : Option ℕ

abbrev pub no_process : Process
no_process = record { blocks = []; server_data = none }

-- What the call answers: nothing, a number, or, of `Wait`, that its thread blocks, since it does not
-- return while the server serves.
pub data Reply : Type 0 where
  nothing blocks : Reply
  number : ℕ → Reply

abbrev pub set_at {ℓ} : {A : Type ℓ} → ℕ → A → List A → List A
set_at n x [] = []
set_at zero x (y ∷ ys) = x ∷ ys
set_at (suc n) x (y ∷ ys) = y ∷ set_at n x ys

-- The block at an address that is not null.
abbrev pub block_at : List (Option ServerData) → ℕ → Run ServerData
block_at bs k = elim (get_elem? bs k) [
  | none ↦ fault dangling
  | some block ↦ elim block [ none ↦ fault dangling | some d ↦ ok d ]
]

-- `*server_data`, with its address.
unfoldable pub deref_data : Process → Run (ℕ × ServerData)
deref_data p = do k ← deref p.server_data; d ← block_at p.blocks k; ok (k, d)

-- `*server_data->server`.
unfoldable pub deref_server : Process → Run (ℕ × ServerData × GrpcServer)
deref_server p = do (k, d) ← deref_data p; server ← deref d.server; ok (k, d, server)

-- The data that `PIGrpcServerRunAddrGnmi` makes, where `bound` is the port that `BuildAndStart` bound,
-- if it could start a server.
abbrev pub started_data : Bytes → Option ℕ → ServerData
started_data address none = record { server_address = address; server_port = 0; server = none }
started_data address (some port) = record {
  server_address = address;
  server_port = port;
  server = some serving;
}

unfoldable pub run_addr_gnmi : Process → Bytes → Option ℕ → Process
run_addr_gnmi p address bound = record {
  blocks = p.blocks ++ some (started_data address bound) ∷ [];
  server_data = some (length p.blocks);
}

abbrev pub run_addr : Process → Bytes → Option ℕ → Process
run_addr p address bound = run_addr_gnmi p address bound

abbrev pub run_default : Process → Option ℕ → Process
run_default p bound = run_addr_gnmi p (codes "127.0.0.1:50051") bound

unfoldable pub get_port : Process → Run ℕ
get_port p = do (k, d) ← deref_data p; ok d.server_port

abbrev pub get_packet_in_count : ℕ → ℕ
get_packet_in_count device_id = 0

abbrev pub get_packet_out_count : ℕ → ℕ
get_packet_out_count device_id = 0

unfoldable pub wait : Process → Run Reply
wait p = do
  (k, d, server) ← deref_server p
  ok (elim server [ serving ↦ blocks | stopped ↦ nothing ])

unfoldable pub shutdown : Process → Run Process
shutdown p = do
  (k, d, server) ← deref_server p
  ok (record p { blocks = set_at k (some (record d { server = some stopped })) p.blocks })

-- The deadline bounds how long the calls that run may take; afterwards the server is shut down.
unfoldable pub force_shutdown : Process → ℕ → Run Process
force_shutdown p deadline_seconds = shutdown p

-- `delete` of a null pointer does nothing.
unfoldable pub cleanup : Process → Run Process
cleanup p = elim (p.server_data) [
  | none ↦ ok p
  | some k ↦ do d ← block_at p.blocks k; ok (record p { blocks = set_at k none p.blocks })
]

pub data LifeCall : Type 0 where
  call_run : (bound : Option ℕ) → LifeCall
  call_run_addr call_run_addr_gnmi : (address : Bytes) (bound : Option ℕ) → LifeCall
  call_get_port call_wait call_shutdown call_cleanup : LifeCall
  call_packets_in call_packets_out : (device_id : ℕ) → LifeCall
  call_force_shutdown : (deadline_seconds : ℕ) → LifeCall

unfoldable pub call : Process → LifeCall → Run (Process × Reply)
call p (call_run bound) = ok (run_default p bound, nothing)
call p (call_run_addr address bound) = ok (run_addr p address bound, nothing)
call p (call_run_addr_gnmi address bound) = ok (run_addr_gnmi p address bound, nothing)
call p call_get_port = do port ← get_port p; ok (p, number port)
call p call_wait = do reply ← wait p; ok (p, reply)
call p call_shutdown = do p' ← shutdown p; ok (p', nothing)
call p (call_force_shutdown deadline_seconds) = do
  p' ← force_shutdown p deadline_seconds
  ok (p', nothing)
call p call_cleanup = do p' ← cleanup p; ok (p', nothing)
call p (call_packets_in device_id) = ok (p, number (get_packet_in_count device_id))
call p (call_packets_out device_id) = ok (p, number (get_packet_out_count device_id))

-- Calls in the order in which they begin, and what they answer. The calls behind a `Wait` that blocks
-- are those of other threads: it looks at the server and changes nothing.
unfoldable pub calls : Process → List LifeCall → Run (Process × List Reply)
calls p [] = ok (p, [])
calls p (c ∷ cs) = do
  (p', reply) ← call p c
  (p'', replies) ← calls p' cs
  ok (p'', reply ∷ replies)
