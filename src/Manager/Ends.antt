-- ===== src/Manager/Ends.antt =====
-- Which requests `dev_mgr_write` and `dev_mgr_read` of server/device_mgr.c answer, and which end the
-- process.
use p4runtime_grpcpp.Base.{
  ◌≡◌, ◌↔◌, refl, sym, ap, ◌∙◌, inl, inr, true, false, List, [], ◌∷◌, ◌++◌, All, ok, >>=-eq-ok,
  Bool-cases, arith,
}
use p4runtime_grpcpp.Counter.Outcome.{IsAnswered, counter_read-ends_iff}
use p4runtime_grpcpp.Device.{Device}
use p4runtime_grpcpp.Manager.Read.{Reads, done, more, read_entities-Reads}
use p4runtime_grpcpp.Manager.Write.{sent_by, sent}
use p4runtime_grpcpp.Manager.{dev_mgr_read_one, read_entities}
use p4runtime_grpcpp.Messages.{Platform, Call}
use p4runtime_grpcpp.Proto.{Status, status_ok, is_ok, Entity, UpdateType, Update, ReadResponse}
use p4runtime_grpcpp.Table.Outcome.{IsTaken, table_insert-ends_iff}
use p4runtime_grpcpp.Table.{table_insert}

-- What an update of the type may hold: any entity, but of a table entry to insert one that is taken.
abbrev pub IsTakenAs : Platform → Device → UpdateType → Entity → Type 0
IsTakenAs p dm UpdateType.insert (Entity.table_entry entry) = IsTaken p dm entry
IsTakenAs p dm type entity = Unit {0}

abbrev pub IsTakenUpdate : Platform → Device → Update → Type 0
IsTakenUpdate p dm u = IsTakenAs p dm u.type u.entity

sent_by-ends_iff :
    (p : Platform) (dm : Device) (type : UpdateType) (entity : Entity)
    → let u : Update = record { type = type; entity = entity } in
      ((calls : List Call) × (sent_by p dm u ≡ ok calls)) ↔ IsTakenAs p dm type entity
sent_by-ends_iff p dm UpdateType.insert (Entity.table_entry entry) = (
  λ ended.
      let (_, run, _) = >>=-eq-ok (table_insert p dm entry) _ ended.1 in
      (table_insert-ends_iff p dm entry).0 (_, run),
  λ taken.
      let ((status, calls), run) = (table_insert-ends_iff p dm entry).1 taken in
      (calls, rw run refl),
)
sent_by-ends_iff p dm UpdateType.insert (Entity.counter_entry entry) = (λ h. tt, λ h. ([], refl))
sent_by-ends_iff p dm UpdateType.insert Entity.direct_counter_entry = (λ h. tt, λ h. ([], refl))
sent_by-ends_iff p dm UpdateType.insert (Entity.digest_entry digest_id) = (λ h. tt, λ h. ([], refl))
sent_by-ends_iff p dm UpdateType.insert Entity.other = (λ h. tt, λ h. ([], refl))
sent_by-ends_iff p dm type entity = (λ h. tt, λ h. ([], ground arith))

pub sent-ends_iff :
    (p : Platform) (dm : Device) (us : List Update)
    → ((calls : List Call) × (sent p dm us ≡ ok calls)) ↔ All (IsTakenUpdate p dm) us
sent-ends_iff p dm [] = (λ h. tt, λ h. ([], refl))
sent-ends_iff p dm (u ∷ us) =
    let one = sent_by-ends_iff p dm u.type u.entity in
    let rest = sent-ends_iff p dm us in
    (
      λ ended.
          let (calls, run, behind) = >>=-eq-ok (sent_by p dm u) _ ended.1 in
          let (more_calls, run', _) = >>=-eq-ok (sent p dm us) _ behind in
          (one.0 (calls, run), rest.0 (more_calls, run')),
      λ (head, tail).
          let (calls, run) = one.1 head in
          let (more_calls, run') = rest.1 tail in (calls ++ more_calls, rw (run, run') refl),
    )

-- A counter may be asked for if its read is answered, and anything else is refused.
abbrev pub IsAnsweredEntity : Device → Entity → Type 0
IsAnsweredEntity dm (Entity.counter_entry entry) = IsAnswered dm entry
IsAnsweredEntity dm entity = Unit {0}

read_one-ends_iff :
    (dm : Device) (entity : Entity) (response : ReadResponse)
    → ((r : Status × ReadResponse) × (dev_mgr_read_one dm entity response ≡ ok r))
      ↔ IsAnsweredEntity dm entity
unfolding dev_mgr_read_one
read_one-ends_iff dm (Entity.counter_entry entry) response = counter_read-ends_iff dm entry response
read_one-ends_iff dm (Entity.table_entry entry) response = (λ h. tt, λ h. (_, refl))
read_one-ends_iff dm Entity.direct_counter_entry response = (λ h. tt, λ h. (_, refl))
read_one-ends_iff dm (Entity.digest_entry digest_id) response = (λ h. tt, λ h. (_, refl))
read_one-ends_iff dm Entity.other response = (λ h. tt, λ h. (_, refl))

-- Each entity that the loop comes to is answered.
abbrev pub AreAnswered : Device → List Entity → ReadResponse → Type 0
AreAnswered dm es r =
    (before : List Entity) (e : Entity) (behind : List Entity) (r₁ : ReadResponse)
    → es ≡ before ++ e ∷ behind
    → Reads dm before r r₁
    → IsAnsweredEntity dm e

-- The loop at an entity, by what its status is.
read_entities_goes :
    (dm : Device) (e : Entity) (es : List Entity) (r r₁ : ReadResponse) (status : Status)
    → dev_mgr_read_one dm e r ≡ ok (status, r₁)
    → is_ok status ≡ true
    → read_entities dm (e ∷ es) r ≡ read_entities dm es r₁
unfolding read_entities
read_entities_goes dm e es r r₁ status run good = rw (run, good) refl

read_entities_halts :
    (dm : Device) (e : Entity) (es : List Entity) (r r₁ : ReadResponse) (status : Status)
    → dev_mgr_read_one dm e r ≡ ok (status, r₁)
    → is_ok status ≡ false
    → read_entities dm (e ∷ es) r ≡ ok (status, r₁)
unfolding read_entities
read_entities_halts dm e es r r₁ status run bad = rw (run, bad) refl

ended-AreAnswered :
    (dm : Device) (es : List Entity) (r : ReadResponse) (x : Status × ReadResponse)
    → read_entities dm es r ≡ ok x
    → AreAnswered dm es r
unfolding read_entities
ended-AreAnswered dm es r x run before e behind r₁ is reads =
    let here : read_entities dm (e ∷ behind) r₁ ≡ ok x =
      sym (read_entities-Reads (e ∷ behind) reads)
      ∙ ap (λ l. read_entities dm l r) (sym is)
      ∙ run in
    let (y, one, _) = >>=-eq-ok (dev_mgr_read_one dm e r₁) _ here in
    (read_one-ends_iff dm e r₁).0 (y, one)

read_entities_none : (dm : Device) (r : ReadResponse) → read_entities dm [] r ≡ ok (status_ok, r)
unfolding read_entities
read_entities_none dm r = refl

AreAnswered-ends :
    (dm : Device) (es : List Entity) (r : ReadResponse)
    → AreAnswered dm es r
    → (x : Status × ReadResponse) × (read_entities dm es r ≡ ok x)
AreAnswered-ends dm [] r all = ((status_ok, r), read_entities_none dm r)
AreAnswered-ends dm (e ∷ es) r all =
    let ((status, r₁), run) = (read_one-ends_iff dm e r).1 (all [] e es r refl (done r)) in
    elim (Bool-cases (is_ok status)) [
      | inl good ↦
          let (x, rest) = AreAnswered-ends dm es r₁ (λ before e' behind r₂ is reads.
            all (e ∷ before) e' behind r₂ (ap (◌∷◌ e) is) (more status run good reads)) in
          (x, read_entities_goes dm e es r r₁ status run good ∙ rest)
      | inr bad ↦ (_, read_entities_halts dm e es r r₁ status run bad)
    ]

pub read_entities-ends_iff :
    (dm : Device) (es : List Entity) (r : ReadResponse)
    → ((x : Status × ReadResponse) × (read_entities dm es r ≡ ok x)) ↔ AreAnswered dm es r
read_entities-ends_iff dm es r =
    (λ ended. ended-AreAnswered dm es r ended.0 ended.1, AreAnswered-ends dm es r)
