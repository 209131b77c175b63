-- ===== src/Pipeline/Fill.antt =====
-- The loops of `dev_mgr_set_pipeline_config` that fill one element through its pointer.
use mathlib.Core.List.{append-nil, append_assoc}
use p4runtime_grpcpp.Base.{
  ℕ, ◌+◌, ◌≤◌, ◌<◌, ◌≡◌, ◌⊎◌, inl, inr, ap, List, [], ◌∷◌, ◌++◌, map, length, length-append, All,
  arith, some, ok, fault, overflow, sym, ◌∙◌,
}
use p4runtime_grpcpp.IdMap.Add.{store-store, store_same}
use p4runtime_grpcpp.IdMap.Args.{push_argument-cases}
use p4runtime_grpcpp.IdMap.{Element, IdMap, store, max_args, max_name}
use p4runtime_grpcpp.Pipeline.{argument_of, fill}
use p4runtime_grpcpp.Proto.{MatchField}

abbrev pub extend : Element → List MatchField → Element
extend e fs = record e { args = e.args ++ map argument_of fs }

-- There is room for all the arguments behind those that are there, and for their names.
pub record Fits (e : Element) (fs : List MatchField) : Type 0 where
  pub count : length e.args + length fs ≤ max_args
  pub names : All (λ (f : MatchField). length (argument_of f).name < max_name) fs

extend-cons :
    (e : Element) (f : MatchField) (fs : List MatchField)
    → extend (record e { args = e.args ++ argument_of f ∷ [] }) fs ≡ extend e (f ∷ fs)
extend-cons e f fs d = record e {
  args = append_assoc e.args (argument_of f ∷ []) (map argument_of fs) d;
}

extend-nil : (e : Element) → extend e [] ≡ e
extend-nil e d = record e { args = append-nil e.args d }

-- Either all the arguments are stored behind the pointer, or an array is overrun.
pub fill-cases :
    (m : IdMap) (i : ℕ) (e : Element) (fs : List MatchField)
    → m.slot i ≡ some e
    → length e.args ≤ max_args
    → (Fits e fs × (fill m i fs ≡ ok (store m i (extend e fs))))
      ⊎ ((¬ Fits e fs) × (fill m i fs ≡ fault overflow))
unfolding fill
fill-cases m i e [] at le = inl (
  record { count = omega arith; names = tt },
  ap ok (sym (ap (store m i) (extend-nil e) ∙ store_same m i e at)),
)
fill-cases m i e (f ∷ fs) at le = elim (push_argument-cases e (argument_of f)) [
  | inr (why, run) ↦ inr (λ fits. too_big why fits.count fits.names.0, rw (at, run))
  | inl (room, short, run) ↦
      let e' : Element = record e { args = e.args ++ argument_of f ∷ [] } in
      let grown : length e'.args ≡ length e.args + 1 = length-append e.args (argument_of f ∷ []) in
      elim (fill-cases (store m i e') i e' fs (ground arith) (omega arith)) [
        | inl (fits, rest) ↦ inl (
          record { count = omega (arith, fits.count); names = (short, fits.names) },
          rw (at, run)
              (rest
                ∙ ap ok (store-store m i e' (extend e' fs) ∙ ap (store m i) (extend-cons e f fs))),
        )
        | inr (no_fit, rest) ↦ inr (
          λ fits. no_fit (record { count = omega (arith, fits.count); names = fits.names.1 }),
          rw (at, run) rest,
        )
      ]
]
  where
    too_big :
        (max_args ≤ length e.args) ⊎ (max_name ≤ length (argument_of f).name)
        → length e.args + length (f ∷ fs) ≤ max_args
        → length (argument_of f).name < max_name
        → ⊥
    too_big (inl full) count short = omega arith
    too_big (inr long) count short = omega arith

pub fill-extend :
    (m : IdMap) (i : ℕ) (e : Element) (fs : List MatchField)
    → m.slot i ≡ some e
    → Fits e fs
    → fill m i fs ≡ ok (store m i (extend e fs))
fill-extend m i e fs at fits = elim (fill-cases m i e fs at (omega (arith, fits.count))) [
  | inl (_, run) ↦ run
  | inr (no_fit, _) ↦ absurd (no_fit fits)
]
