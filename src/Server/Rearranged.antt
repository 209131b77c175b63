-- ===== src/Server/Rearranged.antt =====
-- server/pi_server.cc: how far the order of requests matters.
use p4runtime_grpcpp.Base.{ℕ, List, ◌∷◌}
use p4runtime_grpcpp.Proto.{WriteRequest}
use p4runtime_grpcpp.Server.History.{Request, wrote, heard, quiet}
use p4runtime_grpcpp.Server.Reach.{Reach}
use p4runtime_grpcpp.Server.Spec.{Spec}
use p4runtime_grpcpp.Server.{Server, StreamRequest}

-- The histories differ in the order of writes that no configuration separates, in how often a write came
-- there, in how stream messages fall among the writes, and in what changes nothing.
pub data Rearranged : List Request → List Request → Type 0 where
  same : {rs : List Request} → Rearranged rs rs
  keep : {rs qs : List Request} (r : Request) → Rearranged rs qs → Rearranged (r ∷ rs) (r ∷ qs)
  swap_writes :
      {rs : List Request} (w v : WriteRequest)
      → Rearranged (wrote w ∷ wrote v ∷ rs) (wrote v ∷ wrote w ∷ rs)
  again :
      {rs : List Request} (w : WriteRequest) → Rearranged (wrote w ∷ wrote w ∷ rs) (wrote w ∷ rs)
  swap_heard :
      {rs : List Request} (w : WriteRequest) (stream : ℕ) (m : StreamRequest)
      → Rearranged (wrote w ∷ heard stream m ∷ rs) (heard stream m ∷ wrote w ∷ rs)
  drop_quiet : {rs : List Request} → Rearranged (quiet ∷ rs) rs
  back : {rs qs : List Request} → Rearranged rs qs → Rearranged qs rs
  both : {rs qs os : List Request} → Rearranged rs qs → Rearranged qs os → Rearranged rs os
