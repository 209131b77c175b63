-- ===== src/IdMap/Args.antt =====
-- `get_argument` of utils/map.c, and the arguments that server/device_mgr.c stores in an element.
use p4runtime_grpcpp.Base.{
  ℕ, ◌≤◌, ◌<◌, ◌≡◌, ◌⊎◌, inl, inr, some, refl, arith, or_else, List, [], ◌∷◌, ◌++◌, length,
  length-append, All, ok, fault, overflow, leb, Bool-cases, subst,
}
use p4runtime_grpcpp.IdMap.{Argument, Element, max_args, max_name, get_argument, push_argument}

pub get_argument-append :
    (as₁ as₂ : List Argument) (id : ℕ)
    → get_argument (as₁ ++ as₂) id ≡ or_else (get_argument as₁ id) (get_argument as₂ id)
unfolding get_argument
get_argument-append [] as₂ id = refl
get_argument-append (a ∷ as₁) as₂ id = ground (arith, get_argument-append as₁ as₂ id)

-- What is found carries the id that was asked for.
pub get_argument-id :
    (args : List Argument) (id : ℕ) (a : Argument) → get_argument args id ≡ some a → a.id ≡ id
unfolding get_argument
get_argument-id [] id a h = cc
get_argument-id (b ∷ args) id a h = ground (arith, get_argument-id args id a)

-- The array bounds of `element_t`: ten arguments, names of 49 bytes and a terminator.
pub record FitsArgs (e : Element) : Type 0 where
  pub count : length e.args ≤ max_args
  pub names : All (λ (a : Argument). length a.name < max_name) e.args

All-snoc {ℓ} :
    {A : Type ℓ} (P : A → Type 0) (xs : List A) (x : A) → All P xs → P x → All P (xs ++ x ∷ [])
All-snoc P [] x h p = (p, tt)
All-snoc P (y ∷ xs) x h p = (h.0, All-snoc P xs x h.1 p)

-- An argument is stored behind the others exactly when there is a cell left and its name fits;
-- otherwise an array is overrun.
pub push_argument-cases :
    (e : Element) (a : Argument)
    → ((length e.args < max_args)
        × (length a.name < max_name)
        × (push_argument e a ≡ ok (record e { args = e.args ++ a ∷ [] })))
      ⊎ (((max_args ≤ length e.args) ⊎ (max_name ≤ length a.name))
          × (push_argument e a ≡ fault overflow))
unfolding push_argument
push_argument-cases e a = elim (Bool-cases (leb max_args (length e.args))) [
  | inl full ↦ inr (inl (ground arith), rw full)
  | inr room ↦ elim (Bool-cases (leb max_name (length a.name))) [
    | inl long ↦ inr (inr (ground arith), rw (room, long))
    | inr fits ↦ inl (ground arith, ground arith, rw (room, fits))
  ]
]

pub push_argument-FitsArgs :
    (e e' : Element) (a : Argument) → FitsArgs e → push_argument e a ≡ ok e' → FitsArgs e'
push_argument-FitsArgs e e' a fits h = elim (push_argument-cases e a) [
  | inr (_, f) ↦ absurd (ground arith)
  | inl (room, short, run) ↦
      let is : record e { args = e.args ++ a ∷ [] } ≡ e' = ground arith in
      subst FitsArgs is (record {
        count = omega (arith, length-append e.args (a ∷ []));
        names = All-snoc _ e.args a fits.names short;
      })
]
