-- ===== src/Process/Phases.antt =====
-- The phases that the life cycle of server/pi_server.cc goes through, without its memory.
use p4runtime_grpcpp.Base.{ℕ, List, [], ◌∷◌, Option, none, some, get_elem?, Run, ok, fault}
use p4runtime_grpcpp.Process.{
  serving, stopped, ServerData, Process, Reply, nothing, blocks, number, LifeCall, call_run,
  call_run_addr, call_run_addr_gnmi, call_get_port, call_wait, call_shutdown, call_cleanup,
  call_packets_in, call_packets_out, call_force_shutdown,
}

-- Before the first run, after one that could not start a server, while a server is up, after its
-- shutdown, and after the cleanup.
pub data Phase : Type 0 where
  unset deleted : Phase
  failed up down : (port : ℕ) → Phase

abbrev pub phase_of_data : ServerData → Phase
phase_of_data d = elim (d.server) [
  | none ↦ failed d.server_port
  | some server ↦ elim server [ serving ↦ up d.server_port | stopped ↦ down d.server_port ]
]

abbrev pub phase_of_block : Option (Option ServerData) → Phase
phase_of_block none = deleted
phase_of_block (some none) = deleted
phase_of_block (some (some d)) = phase_of_data d

abbrev pub phase_of : Process → Phase
phase_of p = elim (p.server_data) [ none ↦ unset | some k ↦ phase_of_block (get_elem? p.blocks k) ]

abbrev pub after_run : Option ℕ → Phase
after_run none = failed 0
after_run (some port) = up port

-- What a call does in a phase, and nothing where it has no meaning.
abbrev pub step : Phase → LifeCall → Option (Phase × Reply)
step phase (call_run bound) = some (after_run bound, nothing)
step phase (call_run_addr address bound) = some (after_run bound, nothing)
step phase (call_run_addr_gnmi address bound) = some (after_run bound, nothing)
step phase (call_packets_in device_id) = some (phase, number 0)
step phase (call_packets_out device_id) = some (phase, number 0)
step phase call_get_port = elim phase [
  | failed port ↦ some (failed port, number port)
  | up port ↦ some (up port, number port)
  | down port ↦ some (down port, number port)
  | _ ↦ none
]
step phase call_wait = elim phase [
  | up port ↦ some (up port, blocks)
  | down port ↦ some (down port, nothing)
  | _ ↦ none
]
step phase call_shutdown = elim phase [
  | up port ↦ some (down port, nothing)
  | down port ↦ some (down port, nothing)
  | _ ↦ none
]
step phase (call_force_shutdown deadline_seconds) = elim phase [
  | up port ↦ some (down port, nothing)
  | down port ↦ some (down port, nothing)
  | _ ↦ none
]
step phase call_cleanup = elim phase [
  | unset ↦ some (unset, nothing)
  | deleted ↦ none
  | _ ↦ some (deleted, nothing)
]

abbrev pub steps : Phase → List LifeCall → Option (Phase × List Reply)
steps phase [] = some (phase, [])
steps phase (c ∷ cs) = elim (step phase c) [
  | none ↦ none
  | some r ↦ elim (steps r.0 cs) [ none ↦ none | some rs ↦ some (rs.0, r.1 ∷ rs.1) ]
]

-- What is seen of a run of the code.
abbrev pub seen {ℓ} : {A : Type ℓ} → Run (Process × A) → Option (Phase × A)
seen (ok r) = some (phase_of r.0, r.1)
seen (fault reason) = none

abbrev at_block : ℕ → List (Option ServerData) → Process
at_block k bs = record { blocks = bs; server_data = some k }
