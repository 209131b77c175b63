-- ===== src/IdMap/Bucket.antt =====
-- Room by buckets, as utils/map.h means it: `REDUNDANCY_MAP` slots for each hash value.
use native.Mathlib.Decide.{dec_lt}
use p4runtime_grpcpp.Base.{
  ℕ, zero, suc, ◌+◌, ◌*◌, ◌%◌, ◌≤◌, ◌<◌, ◌≡◌, refl, length, List, [], ◌∷◌, ◌++◌, Option, none, some,
  arith, Bytes, Bool-cases, inl, inr, ◌==◌, if◌then◌else◌,
}
use p4runtime_grpcpp.IdMap.Add.{
  add_element-cases, add_element_free, add_element-none_iff, used_from, used_from-IsFull,
  used_from-update, used_from-none,
}
use p4runtime_grpcpp.IdMap.Capacity.{Capacity}
use p4runtime_grpcpp.IdMap.Lookup.{home-le}
use p4runtime_grpcpp.IdMap.Probe.{IsFull}
use p4runtime_grpcpp.IdMap.{
  Element, IdMap, max_hash_size, redundancy_map, home, update, add_element, new_element, store,
  init_map,
}

-- The hash value of a key.
abbrev pub bucket : ℕ → ℕ
bucket key = key % max_hash_size

-- The slots of a bucket that are used.
abbrev pub occupancy : IdMap → ℕ → ℕ
occupancy m b = used_from redundancy_map m.slot (b * redundancy_map)

abbrev pub hashed_to : ℕ → List Element → ℕ
hashed_to b [] = 0
hashed_to b (e ∷ es) = (if bucket e.key == b then 1 else 0) + hashed_to b es

-- No bucket gets more than its four elements.
abbrev pub FitsBuckets : IdMap → List Element → Type 0
FitsBuckets m es = (b : ℕ) → b < max_hash_size → occupancy m b + hashed_to b es ≤ redundancy_map

home-bucket : (key : ℕ) → home key ≡ bucket key * 4
unfolding home
home-bucket key = refl

used_from_congr :
    (n : ℕ) (f g : ℕ → Option Element) (s : ℕ)
    → ((j : ℕ) → s ≤ j → j < s + n → f j ≡ g j)
    → used_from n f s ≡ used_from n g s
unfolding used_from
used_from_congr zero f g s same = refl
used_from_congr (suc n) f g s same = ground (
  arith,
  same s (omega arith) (omega arith),
  used_from_congr n f g (suc s) (λ j lo hi. same j (omega arith) (omega arith)),
)

-- An element that is stored in its bucket is one more there, and none more elsewhere.
occupancy-store :
    (m : IdMap) (i b : ℕ) (e : Element)
    → m.slot i ≡ none
    → home e.key ≤ i
    → i < home e.key + 4
    → occupancy (store m i e) b ≤ occupancy m b + (if bucket e.key == b then 1 else 0)
occupancy-store m i b e free lo hi =
    let at = home-bucket e.key in
    elim (Bool-cases (bucket e.key == b)) [
      | inl same ↦ ground (arith, same, used_from-update 4 m.slot (b * 4) i e free)
      | inr other ↦
          let elsewhere =
            used_from_congr 4 (update m.slot i e) m.slot (b * 4) (λ j from to. ground arith) in
          ground (arith, other, elsewhere)
    ]

-- While a bucket has a free slot, a key of the bucket goes there.
add_element-bucket :
    (m : IdMap) (key : ℕ) (value : Bytes)
    → occupancy m (bucket key) < 4
    → (i : ℕ) × (add_element m key value ≡ (some i, store m i (new_element key value)))
      × (i < home key + 4)
add_element-bucket m key value room =
    let at = home-bucket key in
    let not_full : ¬ IsFull m.slot (home key) (home key + 4) =
      λ full. ground (arith, used_from-IsFull 4 m.slot (home key) (home key + 4) refl full) in
    elim (add_element-cases m key value) [
      | inl none_left ↦
          let full = (add_element-none_iff m key value).0 none_left in
          absurd (not_full (λ j lo hi. full j lo (omega (arith, home-le key))))
      | inr (i, run) ↦ elim (dec_lt i (home key + 4)) [
        | yes within ↦ (i, run, within)
        | no beyond ↦
            let (_, _, _, full) = add_element_free m key i value _ run in
            absurd (not_full (λ j lo hi. full j lo (omega arith)))
      ]
    ]

pub FitsBuckets-next :
    (m : IdMap) (e : Element) (es : List Element) (value : Bytes)
    → FitsBuckets m (e ∷ es)
    → (i : ℕ) × (add_element m e.key value ≡ (some i, store m i (new_element e.key value)))
      × FitsBuckets (store m i e) es
FitsBuckets-next m e es value fits =
    let here = fits (bucket e.key) (omega arith) in
    let (i, run, within) = add_element-bucket m e.key value (ground arith) in
    let (lo, _, free, _) = add_element_free m e.key i value _ run in
    (i, run, λ b lt. ground (arith, fits b lt, occupancy-store m i b e free lo within))

abbrev pub by_bucket : Capacity
by_bucket = record { HasRoom = FitsBuckets; next = FitsBuckets-next }

occupancy-init_map : (b : ℕ) → occupancy init_map b ≡ 0
unfolding init_map
occupancy-init_map b = used_from-none 4 (b * 4)

-- In the map as it is initialised there is room for four elements of each hash value.
pub init_map-FitsBuckets :
    (es : List Element)
    → ((b : ℕ) → b < max_hash_size → hashed_to b es ≤ redundancy_map)
    → FitsBuckets init_map es
init_map-FitsBuckets es few b lt = omega (arith, few b lt, occupancy-init_map b)

pub hashed_to-le : (b : ℕ) (es : List Element) → hashed_to b es ≤ length es
hashed_to-le b [] = omega arith
hashed_to-le b (e ∷ es) = ground (arith, hashed_to-le b es)

hashed_to-append :
    (b : ℕ) (es fs : List Element) → hashed_to b (es ++ fs) ≡ hashed_to b es + hashed_to b fs
hashed_to-append b [] fs = omega arith
hashed_to-append b (e ∷ es) fs = omega (arith, hashed_to-append b es fs)

-- Where there is room for more, there is room.
pub FitsBuckets-append :
    (m : IdMap) (es fs : List Element) → FitsBuckets m (es ++ fs) → FitsBuckets m es
FitsBuckets-append m es fs fits b lt = omega (arith, fits b lt, hashed_to-append b es fs)
