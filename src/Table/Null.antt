-- ===== src/Table/Null.antt =====
-- `table_insert` of server/device_mgr.c where an id is not known.
use p4runtime_grpcpp.Base.{
  ℕ, ◌≤◌, ◌≡◌, ◌⊎◌, inl, inr, refl, ap, ◌∙◌, List, [], ◌∷◌, ◌++◌, none, some, length, All, fault,
  ◌>>=◌, Run-cases, null_pointer, arith,
}
use p4runtime_grpcpp.Device.{Device}
use p4runtime_grpcpp.IdMap.{Element, get_element, get_argument}
use p4runtime_grpcpp.Messages.{Platform, MatchRule}
use p4runtime_grpcpp.Proto.{
  Status, status_ok, MatchKind, exact, lpm, ternary, FieldMatch, TableEntry,
}
use p4runtime_grpcpp.Table.{add_match, add_matches, table_insert}
use p4runtime_grpcpp.Table.Matches.{IsReady, IsSupported, add_matches_ready}

-- The entry's matches run into one whose field the table does not have.
pub record MissesField (p : Platform) (table : Element) (ms : List FieldMatch) : Type 0 where
  pub before : List FieldMatch
  pub missing : FieldMatch
  pub after : List FieldMatch
  pub split : ms ≡ before ++ missing ∷ after
  pub ready : All (IsReady p table) before
  pub fit : length before ≤ p.max_field_matches
  pub supported : IsSupported missing
  pub no_field : get_argument table.args missing.field_id ≡ none

module _ (p : Platform) (e : Element) where
  add_matches-append :
      (xs ms : List FieldMatch) (status : Status) (rules : List MatchRule)
      → add_matches p e status rules (xs ++ ms) ≡ (
          add_matches p e status rules xs >>= λ (r : Status × List MatchRule).
          add_matches p e r.0 r.1 ms)
  unfolding add_matches
  add_matches-append [] ms status rules = refl
  add_matches-append (x ∷ xs) ms status rules = elim (Run-cases (add_match p e status rules x)) [
    | inl ((status', rules'), run) ↦ rw run (add_matches-append xs ms status' rules')
    | inr (reason, run) ↦ rw run refl
  ]

  add_match_null :
      (id : ℕ) (kind : MatchKind) (status : Status) (rules : List MatchRule)
      → ¬ (kind ≡ MatchKind.other)
      → get_argument e.args id ≡ none
      → add_match p e status rules (record { field_id = id; kind = kind }) ≡ fault null_pointer
  unfolding add_match
  add_match_null id (exact value) status rules supported no_field = ground (arith, no_field)
  add_match_null id (lpm value prefix_len) status rules supported no_field =
      ground (arith, no_field)
  add_match_null id (ternary value mask) status rules supported no_field = ground (arith, no_field)
  add_match_null id MatchKind.other status rules supported no_field = absurd (supported refl)

  add_matches_null :
      (ms : List FieldMatch) (status : Status)
      → MissesField p e ms
      → add_matches p e status [] ms ≡ fault null_pointer
  unfolding add_matches
  add_matches_null ms status misses =
      let u : FieldMatch = misses.missing in
      let reached =
        add_matches_ready p e misses.before status [] misses.ready (omega (arith, misses.fit)) in
      ap (add_matches p e status []) misses.split
      ∙ add_matches-append misses.before (u ∷ misses.after) status []
      ∙ rw (reached, add_match_null u.field_id u.kind _ _ misses.supported misses.no_field) refl

-- A table id that is not known is followed as a null pointer; so is the field of a match of a known
-- kind that the table does not have, if the matches before it are ready and fit the array.
pub table_insert_null :
    (p : Platform) (dm : Device) (entry : TableEntry)
    → (get_element dm.id_map entry.table_id ≡ none)
      ⊎ ((table : Element) × (get_element dm.id_map entry.table_id ≡ some table)
          × MissesField p table entry.matches)
    → table_insert p dm entry ≡ fault null_pointer
unfolding table_insert
table_insert_null p dm entry (inl unknown) = rw unknown
table_insert_null p dm entry (inr (table, known, misses)) =
    rw (known, add_matches_null p table entry.matches status_ok misses)
