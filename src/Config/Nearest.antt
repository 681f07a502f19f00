-- ===== src/Config/Nearest.antt =====
-- Which file `FindAndLoad` of internal/config/config.go reads.
use mutation_judge.Base.{
  ℕ, suc, ◌+◌, ◌≡◌, refl, ap, ◌∙◌, true, false, List, [], ◌∷◌, ◌++◌, none, some, Text, All, arith,
  length, codes,
}
use mutation_judge.Config.{Std}
use mutation_judge.Config.Find.{Dir, is_there, first_there, config_names, load_found, find_and_load}

-- None of the names is in the directory.
abbrev pub Lacks : Dir → List Text → Type 0
Lacks dir = All (λ name. is_there (dir name) ≡ false)

first_there-append :
    (dir : Dir) (earlier : List Text) (name : Text) (later : List Text)
    → Lacks dir earlier
    → is_there (dir name) ≡ true
    → first_there dir (earlier ++ name ∷ later) ≡ some name
unfolding first_there
first_there-append dir [] name later h there = rw (there, first_there) refl
first_there-append dir (m ∷ earlier) name later h there =
    rw (h.0, first_there-append dir earlier name later h.1 there, first_there) refl

first_there-Lacks : (dir : Dir) (names : List Text) → Lacks dir names → first_there dir names ≡ none
unfolding first_there
first_there-Lacks dir [] h = refl
first_there-Lacks dir (m ∷ names) h = rw (h.0, first_there-Lacks dir names h.1, first_there) refl

-- A directory that the search leaves for its parent: no file of settings, and no go.mod.
abbrev pub IsPassed : Dir → Type 0
IsPassed dir = Lacks dir config_names × (is_there (dir (codes "go.mod")) ≡ false)

-- `FindAndLoad` reads the first of the six names that is there, in the nearest directory from the start
-- upwards that has one of them, where no directory below has one or is the root of a module.
pub find_and_load-nearest :
    (std : Std) (up : ℕ) (below : List Dir) (dir : Dir) (above : List Dir) (earlier : List Text)
    (name : Text) (later : List Text)
    → All IsPassed below
    → config_names ≡ earlier ++ name ∷ later
    → Lacks dir earlier
    → is_there (dir name) ≡ true
    → find_and_load std up (below ++ dir ∷ above)
      ≡ (load_found std name (dir name), some (up + length below, name))
unfolding find_and_load
find_and_load-nearest std up [] dir above earlier name later h names lacks there =
    let found : first_there dir config_names ≡ some name =
      ap (first_there dir) names ∙ first_there-append dir earlier name later lacks there in
    rw (found, find_and_load)
      (ap (λ n. (load_found std name (dir name), some (n, name))) (omega arith))
find_and_load-nearest std up (b ∷ below) dir above earlier name later h names lacks there =
    rw (first_there-Lacks b config_names h.0.0, h.0.1, find_and_load)
      (find_and_load-nearest std (suc up) below dir above earlier name later h.1 names lacks there
        ∙ ap (λ n. (load_found std name (dir name), some (n, name))) (omega arith))
