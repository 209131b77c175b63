-- ===== src/Pipeline/Load.antt =====
-- What `dev_mgr_set_pipeline_config` leaves in the id map: the elements of the P4Info, behind those
-- that were there.
use mathlib.Core.List.{append_assoc}
use p4runtime_grpcpp.Base.{
  subst, ℕ, ◌+◌, ◌≤◌, ◌≡◌, refl, ap, ◌∙◌, List, [], ◌∷◌, ◌++◌, map, length, length-append, All,
  Option, none, some, or_else, arith, ◌==◌, if◌then◌else◌, ok, Returns, c_str,
}
use p4runtime_grpcpp.IdMap.Add.{fill-IsAdded, store-store, used, used-store}
use p4runtime_grpcpp.IdMap.Capacity.{Capacity}
use p4runtime_grpcpp.IdMap.Lookup.{IsProbed}
use p4runtime_grpcpp.IdMap.{Element, IdMap, get_element, add_element, new_element, store}
use p4runtime_grpcpp.Pipeline.Fill.{Fits, fill-extend}
use p4runtime_grpcpp.Pipeline.{argument_of, fill, add_tables, add_actions, add_counters, add_info}
use p4runtime_grpcpp.Proto.{MatchField, Preamble, P4Table, P4Action, P4Info}

-- The first element with the key.
abbrev pub first_with : List Element → ℕ → Option Element
first_with [] q = none
first_with (e ∷ es) q = or_else (if e.key == q then some e else none) (first_with es q)

pub first_with-append :
    (es fs : List Element) (q : ℕ)
    → first_with (es ++ fs) q ≡ or_else (first_with es q) (first_with fs q)
first_with-append [] fs q = refl
first_with-append (e ∷ es) fs q = ground (arith, first_with-append es fs q)

-- The element that a part of the P4Info describes.
abbrev pub described : Preamble → List MatchField → Element
described p fs = record { value = c_str p.name; key = p.id; args = map argument_of fs }

abbrev pub table_element : P4Table → Element
table_element t = described t.preamble t.match_fields

abbrev pub action_element : P4Action → Element
action_element a = described a.preamble a.params

abbrev pub counter_element : Preamble → Element
counter_element c = described c []

abbrev pub elements_of : P4Info → List Element
elements_of info =
    map table_element info.tables
    ++ (map action_element info.actions ++ map counter_element info.counters)

-- The map `m'` is `m` with the elements behind, a first one of a key before a later one.
pub record Loaded (m : IdMap) (es : List Element) (m' : IdMap) : Type 0 where
  pub probed : IsProbed m'
  pub used_le : used m' ≤ used m + length es
  pub loads : (q : ℕ) → get_element m' q ≡ or_else (get_element m q) (first_with es q)

pub Loaded-nil : (m : IdMap) → IsProbed m → Loaded m [] m
Loaded-nil m probed = record { probed = probed; used_le = omega arith; loads = λ q. ground arith }

pub Loaded-append :
    (m m₁ m₂ : IdMap) (es fs : List Element)
    → Loaded m es m₁
    → Loaded m₁ fs m₂
    → Loaded m (es ++ fs) m₂
Loaded-append m m₁ m₂ es fs l r = record {
  probed = r.probed;
  used_le = omega (arith, length-append es fs, l.used_le, r.used_le);
  loads = λ q. ground (arith, l.loads q, r.loads q, first_with-append es fs q);
}

-- The arrays of the element's arguments are large enough.
abbrev pub FitsFields : List MatchField → Type 0
FitsFields fs = Fits (new_element 0 []) fs

add_tables-cons :
    (t : P4Table) (ts : List P4Table) (m m₁ m₂ : IdMap) (i : ℕ)
    → add_element m t.preamble.id (c_str t.preamble.name) ≡ (some i, m₁)
    → fill m₁ i t.match_fields ≡ ok m₂
    → add_tables m (t ∷ ts) ≡ add_tables m₂ ts
unfolding add_tables
add_tables-cons t ts m m₁ m₂ i added filled = ground arith

add_actions-cons :
    (a : P4Action) (acts : List P4Action) (m m₁ m₂ : IdMap) (i : ℕ)
    → add_element m a.preamble.id (c_str a.preamble.name) ≡ (some i, m₁)
    → fill m₁ i a.params ≡ ok m₂
    → add_actions m (a ∷ acts) ≡ add_actions m₂ acts
unfolding add_actions
add_actions-cons a acts m m₁ m₂ i added filled = ground arith

no_fields : FitsFields []
no_fields = record { count = omega arith; names = tt }

-- The argument lists and the names of a P4Info fit their arrays.
abbrev pub FitsArrays : P4Info → Type 0
FitsArrays info =
    All (λ (t : P4Table). FitsFields t.match_fields) info.tables
    × All (λ (a : P4Action). FitsFields a.params) info.actions

-- What a P4Info must satisfy: its argument lists and names fit, and the map has room for it, and for
-- what comes after it.
pub record FitsInfo (c : Capacity) (m : IdMap) (info : P4Info) (after : List Element) : Type 0 where
  pub tables : All (λ (t : P4Table). FitsFields t.match_fields) info.tables
  pub actions : All (λ (a : P4Action). FitsFields a.params) info.actions
  pub room : c.HasRoom m (elements_of info ++ after)

module _ (c : Capacity) where
  -- One element: it finds room, its arguments are stored, the map has it, and there is room for those
  -- behind it.
  pub load_one :
      (m : IdMap) (p : Preamble) (fs : List MatchField) (es : List Element)
      → IsProbed m
      → FitsFields fs
      → c.HasRoom m (described p fs ∷ es)
      → (i : ℕ) × (add_element m p.id (c_str p.name)
          ≡ (some i, store m i (new_element p.id (c_str p.name))))
        × (fill (store m i (new_element p.id (c_str p.name))) i fs
            ≡ ok (store m i (described p fs)))
        × Loaded m (described p fs ∷ []) (store m i (described p fs))
        × c.HasRoom (store m i (described p fs)) es
  load_one m p fs es probed fits room =
      let new : Element = new_element p.id (c_str p.name) in
      let (i, run, rest) = c.next m (described p fs) es (c_str p.name) room in
      let added = fill-IsAdded m (described p fs) i (c_str p.name) (store m i new) probed run in
      (
        i,
        run,
        fill-extend (store m i new) i new fs (ground arith)
              (record { count = fits.count; names = fits.names })
            ∙ ap ok (store-store m i new (described p fs)),
        record {
          probed = added.probed;
          used_le = omega (arith, used-store m i (described p fs) added.was_free);
          loads = λ q. ground (arith, added.stores q);
        },
        rest,
      )

  pub add_tables-Loaded :
      (ts : List P4Table) (m : IdMap) (es : List Element)
      → IsProbed m
      → All (λ (t : P4Table). FitsFields t.match_fields) ts
      → c.HasRoom m (map table_element ts ++ es)
      → Returns (add_tables m ts) λ m'. Loaded m (map table_element ts) m' × c.HasRoom m' es
  unfolding add_tables
  add_tables-Loaded [] m es probed fits room = (m, refl, (Loaded-nil m probed, room))
  add_tables-Loaded (t ∷ ts) m es probed fits room =
      let (i, added, filled, one, left) =
        load_one m t.preamble t.match_fields (map table_element ts ++ es) probed fits.0 room in
      let (m', run, (rest, more)) = add_tables-Loaded ts _ es one.probed fits.1 left in
      (
        m',
        add_tables-cons t ts m _ _ i added filled ∙ run,
        (Loaded-append m _ m' _ _ one rest, more),
      )

  add_actions-Loaded :
      (acts : List P4Action) (m : IdMap) (es : List Element)
      → IsProbed m
      → All (λ (a : P4Action). FitsFields a.params) acts
      → c.HasRoom m (map action_element acts ++ es)
      → Returns (add_actions m acts) λ m'. Loaded m (map action_element acts) m' × c.HasRoom m' es
  unfolding add_actions
  add_actions-Loaded [] m es probed fits room = (m, refl, (Loaded-nil m probed, room))
  add_actions-Loaded (a ∷ acts) m es probed fits room =
      let (i, added, filled, one, left) =
        load_one m a.preamble a.params (map action_element acts ++ es) probed fits.0 room in
      let (m', run, (rest, more)) = add_actions-Loaded acts _ es one.probed fits.1 left in
      (
        m',
        add_actions-cons a acts m _ _ i added filled ∙ run,
        (Loaded-append m _ m' _ _ one rest, more),
      )

  add_counters-Loaded :
      (cs : List Preamble) (m : IdMap) (es : List Element)
      → IsProbed m
      → c.HasRoom m (map counter_element cs ++ es)
      → Loaded m (map counter_element cs) (add_counters m cs) × c.HasRoom (add_counters m cs) es
  unfolding add_counters
  add_counters-Loaded [] m es probed room = (Loaded-nil m probed, room)
  add_counters-Loaded (p ∷ cs) m es probed room =
      let (i, added, filled, one, left) =
        load_one m p [] (map counter_element cs ++ es) probed no_fields room in
      let (rest, more) = add_counters-Loaded cs _ es one.probed left in
      rw added (Loaded-append m _ _ _ _ one rest, more)

  pub add_info-Loaded :
      (m : IdMap) (info : P4Info) (es : List Element)
      → IsProbed m
      → FitsInfo c m info es
      → Returns (add_info m info) λ m'. Loaded m (elements_of info) m' × c.HasRoom m' es
  unfolding add_info
  add_info-Loaded m info es probed fits =
      let tables : List Element = map table_element info.tables in
      let actions : List Element = map action_element info.actions in
      let counters : List Element = map counter_element info.counters in
      let apart : (tables ++ (actions ++ counters)) ++ es
          ≡ tables ++ (actions ++ (counters ++ es)) =
        append_assoc tables (actions ++ counters) es
        ∙ ap (◌++◌ tables) (append_assoc actions counters es) in
      let (m₁, run₁, (l₁, room₁)) =
        add_tables-Loaded info.tables m _ probed fits.tables
          (subst (c.HasRoom m) apart fits.room) in
      let (m₂, run₂, (l₂, room₂)) =
        add_actions-Loaded info.actions m₁ _ l₁.probed fits.actions room₁ in
      let (l₃, room₃) = add_counters-Loaded info.counters m₂ es l₂.probed room₂ in
      (
        add_counters m₂ info.counters,
        rw (run₁, run₂) refl,
        (Loaded-append m m₁ _ _ _ l₁ (Loaded-append m₁ m₂ _ _ _ l₂ l₃), room₃),
      )
