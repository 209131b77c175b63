-- ===== src/IdMap/View.antt =====
-- The map of utils/map.c up to what its lookups tell: where the elements stand is forgotten.
use mathlib.Core.Quot
use mathlib.Core.Quot.{Quot, Quot-set}
use native.Mathlib.Nat.{ℕ_set}
use p4runtime_grpcpp.Base.{ℕ, ◌≡◌, Option, Bytes}
use p4runtime_grpcpp.IdMap.{Element, IdMap, get_element}

abbrev pub SameLookups : IdMap → IdMap → Type 0
SameLookups m m' = (q : ℕ) → get_element m q ≡ get_element m' q

abbrev pub View : Type 0
View = Quot SameLookups

abbrev pub view : IdMap → View
view = Quot.mk

pub Bytes-set : IsSet Bytes
Bytes-set = hlevel ℕ_set

pub Element-set : IsSet Element
Element-set = hlevel ℕ_set

pub Found-set : IsSet (Option Element)
Found-set = hlevel Element-set

-- What a lookup finds, of a map of which only the lookups are known.
unfoldable pub lookup : ℕ → View → Option Element
lookup q = Quot.lift Found-set (λ m. get_element m q) (λ m m' same. same q)

pub View-ext : (v w : View) → ((q : ℕ) → lookup q v ≡ lookup q w) → v ≡ w
unfolding lookup
View-ext = Quot.ind (λ v. hlevel Quot-set) (λ m. Quot.ind (λ w. hlevel Quot-set) (λ m'. Quot.sound))
