-- ===== src/Pipeline/Grow.antt =====
-- What every run of `dev_mgr_set_pipeline_config` that ends keeps of the id map, whether all the
-- elements found room or not.
use native.Mathlib.Decide.{ℕ_discrete}
use p4runtime_grpcpp.Base.{
  ℕ, ◌<◌, ◌≡◌, refl, ◌∙◌, sym, subst, List, [], ◌∷◌, map, length, length-map, All, some, arith, ok,
  ◌>>=◌, >>=-eq-ok, c_str, inl, inr,
}
use p4runtime_grpcpp.IdMap.Add.{add_element-cases, fill-IsAdded, store-store}
use p4runtime_grpcpp.IdMap.Args.{FitsArgs}
use p4runtime_grpcpp.IdMap.Lookup.{IsProbed}
use p4runtime_grpcpp.IdMap.{
  Argument, Element, IdMap, get_element, add_element, new_element, store, max_name,
}
use p4runtime_grpcpp.Pipeline.Fill.{fill-cases}
use p4runtime_grpcpp.Pipeline.Load.{described}
use p4runtime_grpcpp.Pipeline.{argument_of, fill, add_tables, add_actions, add_counters, add_info}
use p4runtime_grpcpp.Proto.{MatchField, Preamble, P4Table, P4Action, P4Info}

-- The map can be probed, and no element overruns its arrays.
pub record IsSound (m : IdMap) : Type 0 where
  pub probed : IsProbed m
  pub fits : (j : ℕ) (e : Element) → m.slot j ≡ some e → FitsArgs e

-- A sound map of which every lookup that found something still finds the same.
pub record Grows (m m' : IdMap) : Type 0 where
  pub sound : IsSound m'
  pub keeps : (q : ℕ) (e : Element) → get_element m q ≡ some e → get_element m' q ≡ some e

pub Grows-refl : (m : IdMap) → IsSound m → Grows m m
Grows-refl m s = record { sound = s; keeps = λ q e h. h }

Grows-trans : (m m₁ m₂ : IdMap) → Grows m m₁ → Grows m₁ m₂ → Grows m m₂
Grows-trans m m₁ m₂ g h = record {
  sound = h.sound;
  keeps = λ q e found. h.keeps q e (g.keeps q e found);
}

All-names :
    (fs : List MatchField)
    → All (λ (f : MatchField). length (argument_of f).name < max_name) fs
    → All (λ (a : Argument). length a.name < max_name) (map argument_of fs)
All-names [] h = tt
All-names (f ∷ fs) h = (h.0, All-names fs h.1)

-- One element that was added and filled.
grow_one :
    (m m' : IdMap) (i : ℕ) (p : Preamble) (fs : List MatchField)
    → IsSound m
    → add_element m p.id (c_str p.name) ≡ (some i, store m i (new_element p.id (c_str p.name)))
    → fill (store m i (new_element p.id (c_str p.name))) i fs ≡ ok m'
    → Grows m m'
grow_one m m' i p fs s run filled =
    let new : Element = new_element p.id (c_str p.name) in
    let e : Element = described p fs in
    elim (fill-cases (store m i new) i new fs (ground arith) (omega arith)) [
      | inr (_, overrun) ↦ absurd (ground arith)
      | inl (fits, done) ↦
          let is : store m i e ≡ m' = sym (store-store m i new e) ∙ ground arith in
          let added = fill-IsAdded m e i (c_str p.name) (store m i new) s.probed run in
          let whole : FitsArgs e = record {
            count = omega (arith, fits.count, length-map fs argument_of);
            names = All-names fs fits.names;
          } in
          subst (Grows m) is (record {
            sound = record {
              probed = added.probed;
              fits = λ j d at. elim (ℕ_discrete i j) [
                | yes same ↦ let is : e ≡ d = ground arith in subst FitsArgs is whole
                | no other ↦ s.fits j d (ground arith)
              ];
            };
            keeps = λ q d found. ground (arith, added.stores q);
          })
    ]

grow_tables : (ts : List P4Table) (m m' : IdMap) → IsSound m → add_tables m ts ≡ ok m' → Grows m m'
unfolding add_tables
grow_tables [] m m' s run = subst (Grows m) (ground arith) (Grows-refl m s)
grow_tables (t ∷ ts) m m' s run =
    let p : Preamble = t.preamble in
    elim (add_element-cases m p.id (c_str p.name)) [
      | inl full ↦ subst (Grows m) (ground arith) (Grows-refl m s)
      | inr (i, added) ↦
          let (m₁, filled, rest) =
            >>=-eq-ok (fill (store m i (new_element p.id (c_str p.name))) i t.match_fields)
              (λ m₁. add_tables m₁ ts) (ground arith) in
          let one = grow_one m m₁ i p t.match_fields s added filled in
          Grows-trans m m₁ m' one (grow_tables ts m₁ m' one.sound rest)
    ]

grow_actions :
    (acts : List P4Action) (m m' : IdMap) → IsSound m → add_actions m acts ≡ ok m' → Grows m m'
unfolding add_actions
grow_actions [] m m' s run = subst (Grows m) (ground arith) (Grows-refl m s)
grow_actions (a ∷ acts) m m' s run =
    let p : Preamble = a.preamble in
    elim (add_element-cases m p.id (c_str p.name)) [
      | inl full ↦ grow_actions acts m m' s (ground arith)
      | inr (i, added) ↦
          let (m₁, filled, rest) =
            >>=-eq-ok (fill (store m i (new_element p.id (c_str p.name))) i a.params)
              (λ m₁. add_actions m₁ acts) (ground arith) in
          let one = grow_one m m₁ i p a.params s added filled in
          Grows-trans m m₁ m' one (grow_actions acts m₁ m' one.sound rest)
    ]

grow_counters : (cs : List Preamble) (m : IdMap) → IsSound m → Grows m (add_counters m cs)
unfolding add_counters
grow_counters [] m s = Grows-refl m s
grow_counters (c ∷ cs) m s = elim (add_element-cases m c.id (c_str c.name)) [
  | inl full ↦ rw full (grow_counters cs m s)
  | inr (i, added) ↦
      let m₁ : IdMap = store m i (new_element c.id (c_str c.name)) in
      let one = grow_one m m₁ i c [] s added (unfold fill in refl) in
      rw added (Grows-trans m m₁ _ one (grow_counters cs m₁ one.sound))
]

-- Whatever P4Info is taken: an id that the map knew keeps its element.
pub add_info-Grows :
    (m m' : IdMap) (info : P4Info) → IsSound m → add_info m info ≡ ok m' → Grows m m'
unfolding add_info
add_info-Grows m m' info s run =
    let (m₁, run₁, rest) =
      >>=-eq-ok (add_tables m info.tables)
        (λ m₁. add_actions m₁ info.actions >>= λ m₂. ok (add_counters m₂ info.counters)) run in
    let (m₂, run₂, last) =
      >>=-eq-ok (add_actions m₁ info.actions) (λ m₂. ok (add_counters m₂ info.counters)) rest in
    let g₁ = grow_tables info.tables m m₁ s run₁ in
    let g₂ = grow_actions info.actions m₁ m₂ g₁.sound run₂ in
    let g₃ = grow_counters info.counters m₂ g₂.sound in
    Grows-trans m m₁ m' g₁ (Grows-trans m₁ m₂ m' g₂ (subst (Grows m₂) (ground arith) g₃))
