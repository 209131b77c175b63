-- ===== src/Manager/Read.antt =====
-- `dev_mgr_read` of server/device_mgr.c: where the loop stops, and what it answers.
use mathlib.Core.List.{append-nil, append_assoc, map-append}
use p4runtime_grpcpp.Base.{
  inl, inr, map, arith, ◌≡◌, refl, ap, sym, ◌∙◌, true, false, List, [], ◌∷◌, ◌++◌, ok,
}
use p4runtime_grpcpp.Counter.Refuses.{counter_read-outcome, bad_reason}
use p4runtime_grpcpp.Device.{Device}
use p4runtime_grpcpp.Manager.{dev_mgr_read_one, read_entities, dev_mgr_read}
use p4runtime_grpcpp.Proto.{
  Status, status_ok, is_ok, Entity, ReadRequest, ReadResponse, CounterEntry, counter_entry,
}

-- The entities are read one after the other, each with status `OK`, from one response to the next.
pub data Reads (dm : Device) : List Entity → ReadResponse → ReadResponse → Type 0 where
  done : (r : ReadResponse) → Reads dm [] r r
  more :
      {e : Entity} {es : List Entity} {r r₁ r₂ : ReadResponse} (status : Status)
      → dev_mgr_read_one dm e r ≡ ok (status, r₁)
      → is_ok status ≡ true
      → Reads dm es r₁ r₂
      → Reads dm (e ∷ es) r r₂

pub read_entities-Reads :
    {dm : Device} {es : List Entity} {r r₁ : ReadResponse} (rest : List Entity)
    → Reads dm es r r₁
    → read_entities dm (es ++ rest) r ≡ read_entities dm rest r₁
unfolding read_entities
read_entities-Reads rest (done r) = refl
read_entities-Reads rest (more status run good reads) =
    rw (run, good) (read_entities-Reads rest reads)

read_entities_stop :
    (dm : Device) (e : Entity) (es : List Entity) (r r₁ : ReadResponse) (status : Status)
    → dev_mgr_read_one dm e r ≡ ok (status, r₁)
    → is_ok status ≡ false
    → read_entities dm (e ∷ es) r ≡ ok (status, r₁)
unfolding read_entities
read_entities_stop dm e es r r₁ status run bad = rw (run, bad)

-- All the entities are answered, if none fails.
pub dev_mgr_read-Reads :
    (dm : Device) (request : ReadRequest) (r r₁ : ReadResponse)
    → Reads dm request.entities r r₁
    → dev_mgr_read dm request r ≡ ok (status_ok, r₁)
unfolding dev_mgr_read
dev_mgr_read-Reads dm request r r₁ reads =
    let all : read_entities dm request.entities r ≡ ok (status_ok, r₁) =
      ap (λ es. read_entities dm es r) (sym (append-nil request.entities))
      ∙ read_entities-Reads [] reads
      ∙ unfold read_entities in refl in
    rw all

-- An entity that is read with `OK` is a counter, whose entries go behind those that were there.
read_one-appends :
    (dm : Device) (e : Entity) (r r₁ : ReadResponse) (status : Status)
    → dev_mgr_read_one dm e r ≡ ok (status, r₁)
    → is_ok status ≡ true
    → (rows : List CounterEntry) × (r₁.entities ≡ r.entities ++ map counter_entry rows)
unfolding dev_mgr_read_one
read_one-appends dm (Entity.counter_entry entry) r r₁ status run good =
    elim (counter_read-outcome dm entry r (status, r₁) run) [
      | inl (refused, _) ↦ absurd (ground (arith, bad_reason dm entry status refused, good))
      | inr (_, _, _, _, _, _, (rows, are, _)) ↦ (rows, are)
    ]
read_one-appends dm (Entity.table_entry entry) r r₁ status run good = absurd (ground arith)
read_one-appends dm (Entity.digest_entry digest_id) r r₁ status run good = absurd (ground arith)
read_one-appends dm Entity.direct_counter_entry r r₁ status run good = absurd (ground arith)
read_one-appends dm Entity.other r r₁ status run good = absurd (ground arith)

-- One that fails leaves the response as it was.
read_one-fails :
    (dm : Device) (e : Entity) (r r₁ : ReadResponse) (status : Status)
    → dev_mgr_read_one dm e r ≡ ok (status, r₁)
    → is_ok status ≡ false
    → r₁ ≡ r
unfolding dev_mgr_read_one
read_one-fails dm (Entity.counter_entry entry) r r₁ status run bad =
    elim (counter_read-outcome dm entry r (status, r₁) run) [
      | inl (_, same) ↦ same
      | inr (_, good, _, _, _, _, _) ↦ absurd (ground (arith, good, bad))
    ]
read_one-fails dm (Entity.table_entry entry) r r₁ status run bad = ground arith
read_one-fails dm (Entity.digest_entry digest_id) r r₁ status run bad = ground arith
read_one-fails dm Entity.direct_counter_entry r r₁ status run bad = ground arith
read_one-fails dm Entity.other r r₁ status run bad = ground arith

Reads-appends :
    {dm : Device} {es : List Entity} {r r₁ : ReadResponse}
    → Reads dm es r r₁
    → (rows : List CounterEntry) × (r₁.entities ≡ r.entities ++ map counter_entry rows)
Reads-appends (done r) = ([], sym (append-nil r.entities))
Reads-appends {dm} {es} {r} (more {e = e} {r₁ = middle} status run good reads) =
    let (first, first_are) = read_one-appends dm e r middle status run good in
    let (rest, rest_are) = Reads-appends reads in
    (
      first ++ rest,
      rest_are
          ∙ ap (λ es. es ++ map counter_entry rest) first_are
          ∙ append_assoc r.entities (map counter_entry first) (map counter_entry rest)
          ∙ ap (◌++◌ r.entities) (sym (map-append counter_entry first rest)),
    )

-- The first entity that fails ends a read, whatever comes behind it: the response is the one that
-- the entities before it left, which is the one from before the read with counter entries behind,
-- and the status is `OK` all the same.
pub dev_mgr_read-stops :
    (dm : Device) (request : ReadRequest) (before behind : List Entity) (e : Entity)
    (r r₁ r₂ : ReadResponse) (status : Status)
    → request.entities ≡ before ++ e ∷ behind
    → Reads dm before r r₁
    → dev_mgr_read_one dm e r₁ ≡ ok (status, r₂)
    → is_ok status ≡ false
    → (dev_mgr_read dm request r ≡ ok (status_ok, r₁))
      × ((rows : List CounterEntry) × (r₁.entities ≡ r.entities ++ map counter_entry rows))
unfolding dev_mgr_read
dev_mgr_read-stops dm request before behind e r r₁ r₂ status is reads run bad =
    let all : read_entities dm request.entities r ≡ ok (status, r₂) =
      ap (λ es. read_entities dm es r) is
      ∙ read_entities-Reads (e ∷ behind) reads
      ∙ read_entities_stop dm e behind r₁ r₂ status run bad in
    (
      rw all
          (ap (λ (x : ReadResponse). ok (status_ok, x)) (read_one-fails dm e r₁ r₂ status run bad)),
      Reads-appends reads,
    )
