-- ===== src/ConfigFile/Handles.antt =====
-- `struct ConfigFile` of server/device_mgr.c: the life of its file handle, from the constructor over
-- `change_config` to the destructor.
use p4runtime_grpcpp.Base.{
  ℕ, suc, ◌+◌, ◌≡◌, refl, Bool, true, false, List, [], ◌∷◌, Option, none, some, Run, ok, fault,
  dangling, ◌>>=◌, ◌==◌, if◌then◌else◌, arith,
}

-- The files of the process: those that are open, and the number of the next one.
pub record Files : Type 0 where
  pub open_files : List ℕ
  pub next : ℕ

-- The list without the number, if it is there.
remove : ℕ → List ℕ → Option (List ℕ)
remove k [] = none
remove k (j ∷ js) =
    let rest = remove k js in
    if k == j then some js else elim rest [ none ↦ none | some left ↦ some (j ∷ left) ]

-- `fclose` of a file that is not open any more is not defined.
fclose : Files → ℕ → Run Files
fclose files k = elim (remove k files.open_files) [
  | none ↦ fault dangling
  | some left ↦ ok (record files { open_files = left })
]

-- `tmpfile`, which may fail.
abbrev tmpfile : Files → Bool → Files × Option ℕ
tmpfile files true =
    (record { open_files = files.next ∷ files.open_files; next = suc files.next }, some files.next)
tmpfile files false = (files, none)

-- `if (fp != nullptr) std::fclose(fp);`, also the destructor.
close_fp : Files → Option ℕ → Run Files
close_fp files none = ok files
close_fp files (some k) = fclose files k

-- What `change_config` does with `fp`.
change_fp : Files → Option ℕ → Bool → Run (Files × Option ℕ)
change_fp files fp tmpfile_ok = do closed ← close_fp files fp; ok (tmpfile closed tmpfile_ok)

change_all : Files → Option ℕ → List Bool → Run (Files × Option ℕ)
change_all files fp [] = ok (files, fp)
change_all files fp (answer ∷ answers) = do
  (files', fp') ← change_fp files fp answer
  change_all files' fp' answers

-- The constructor, configurations, and the destructor: `fp` is null at first.
pub lifetime : Files → List Bool → Run Files
lifetime files answers = do (files', fp) ← change_all files none answers; close_fp files' fp

abbrev pub count_true : List Bool → ℕ
count_true [] = 0
count_true (b ∷ bs) = (if b then 1 else 0) + count_true bs

-- The files that were open before the object was there, and its own.
abbrev with_fp : List ℕ → Option ℕ → List ℕ
with_fp others none = others
with_fp others (some k) = k ∷ others

change_fp-with_fp :
    (others : List ℕ) (next : ℕ) (fp : Option ℕ) (answer : Bool)
    → change_fp (record { open_files = with_fp others fp; next = next }) fp answer
      ≡ ok (
        record {
          open_files = with_fp others (if answer then some next else none);
          next = if answer then suc next else next;
        },
        if answer then some next else none,
      )
unfolding change_fp close_fp fclose remove
change_fp-with_fp others next none true = refl
change_fp-with_fp others next none false = refl
change_fp-with_fp others next (some k) true = ground arith
change_fp-with_fp others next (some k) false = ground arith

change_all-with_fp :
    (answers : List Bool) (others : List ℕ) (next : ℕ) (fp : Option ℕ)
    → (last : Option ℕ) × (change_all
          (record { open_files = with_fp others fp; next = next })
          fp
          answers
        ≡ ok (record { open_files = with_fp others last; next = count_true answers + next }, last))
unfolding change_all
change_all-with_fp [] others next fp = (fp, ground arith)
change_all-with_fp (answer ∷ answers) others next fp =
    let fp' : Option ℕ = if answer then some next else none in
    let next' : ℕ = if answer then suc next else next in
    let (last, rest) = change_all-with_fp answers others next' fp' in
    let counted : count_true answers + next' ≡ count_true (answer ∷ answers) + next =
      ground arith in
    (last, rw (change_fp-with_fp others next fp answer, rest, counted) refl)

close_fp-with_fp :
    (others : List ℕ) (next : ℕ) (fp : Option ℕ)
    → close_fp (record { open_files = with_fp others fp; next = next }) fp
      ≡ ok (record { open_files = others; next = next })
unfolding close_fp fclose remove
close_fp-with_fp others next none = refl
close_fp-with_fp others next (some k) = ground arith

-- From its constructor to its destructor, over any configurations and whatever `tmpfile` answers,
-- the object closes no file that is not open, and each file that it opened: what is open at the end
-- is what was open before.
pub lifetime-open_files :
    (files : Files) (answers : List Bool)
    → lifetime files answers ≡ ok (record files { next = count_true answers + files.next })
unfolding lifetime
lifetime-open_files files answers =
    let (last, run) = change_all-with_fp answers files.open_files files.next none in
    rw (run, close_fp-with_fp files.open_files (count_true answers + files.next) last) refl
