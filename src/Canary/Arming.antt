-- ===== src/Canary/Arming.antt =====
-- What `arm_traps` leaves.
use sentinel_antivirus.Prelude.{
  ◌≡◌, refl, sym, ap, ◌∙◌, inl, inr, true, false, none, List, [], ◌∷◌, ◌==◌, nat_eq, pair_eq,
  Bool-cases, beq_refl, is_empty, All, Text, text_eq,
}
use mathlib.Core.Path.{subst}
use sentinel_antivirus.Dict.{Dict, lookup, has_key, insert, lookup-insert}
use sentinel_antivirus.Dict.Entries.{
  AllEntries, AllEntries-insert, AllEntries-weaken, AllEntries-both,
}
use sentinel_antivirus.Dict.Unique.{IsDict-insert}
use sentinel_antivirus.Canary.Templates.{CanaryTemplate}
use sentinel_antivirus.Canary.{
  CanaryTrap, System, Manager, norm, trap_at, inspect, write_canary_content, arm_template,
  arm_directory, arm_directories, arm_traps, verify_all_canaries,
}
use sentinel_antivirus.Canary.Sound.{IsSound, inspect-written, inspect-rewrite_file}
use sentinel_antivirus.Canary.Repair.{IsEntry, IsValid, IsOpen, verify_all_canaries-clean}

module _ (os : System) (document : Text → Text) where
  -- Resolving a path twice is resolving it once, gives a path, and keeps the name of a template's
  -- file.
  abbrev pub ResolvesNames : List CanaryTemplate → Type 0
  ResolvesNames ts =
      ((path : Text) → os.resolve (os.resolve path) ≡ os.resolve path)
      × ((path : Text) → is_empty (os.resolve path) ≡ false)
      × ((directory : Text)
          → All (λ t. os.file_name (os.resolve (os.in_directory directory t.filename)) ≡ t.filename)
              ts)

  -- Each template has the document of its name.
  abbrev pub HasDocuments : List CanaryTemplate → Type 0
  HasDocuments ts = All (λ t. t.sample_content ≡ document t.filename) ts

  -- A valid manager with all traps clean
  abbrev IsArmed : List CanaryTemplate → Manager → Type 0
  IsArmed ts m =
      IsValid os document ts m × AllEntries (λ k t. inspect os t m.files ≡ none) m.canaries

  -- One manager is left by arming: it is armed, and knows every path that it knew.
  abbrev Extends : List CanaryTemplate → Manager → Manager → Type 0
  Extends ts m m' =
      IsArmed ts m' × ((k : Text) → has_key k m.canaries ≡ true → has_key k m'.canaries ≡ true)

  has_key-insert :
      (k j : Text) (t : CanaryTrap) (d : Dict Text CanaryTrap)
      → has_key j d ≡ true
      → has_key j (insert k t d) ≡ true
  has_key-insert k j t d h = elim (Bool-cases (k == j)) [
    | inl same ↦ rw (has_key, lookup-insert k j t d, same) refl
    | inr other ↦ rw (has_key, lookup-insert k j t d, other) h
  ]

  module _ (all : List CanaryTemplate) (access : IsOpen os document all)
      (paths : ResolvesNames all) where
    abbrev key_of : Text → CanaryTemplate → Text
    key_of d t = norm os (os.in_directory d t.filename)

    arm_template-Extends :
        (d : Text) (t : CanaryTemplate) (m : Manager)
        → os.file_name (os.resolve (os.in_directory d t.filename)) ≡ t.filename
        → t.sample_content ≡ document t.filename
        → IsArmed all m
        → Extends all m (arm_template os d t m)
          × (has_key (key_of d t) (arm_template os d t m).canaries ≡ true)
    unfolding arm_template write_canary_content
    arm_template-Extends d t m name doc (v, clean) =
        let path = os.in_directory d t.filename in
        let trap = trap_at os (os.resolve path) t in
        let key = norm os path in
        let sound : IsSound os document trap =
          (refl, refl, doc ∙ ap document (sym name), paths.0 path, paths.1 path) in
        let entry : IsEntry os document all key trap = (ap os.lower (sym (paths.0 path)), sound) in
        let files = insert (os.resolve path) t.sample_content m.files in
        let written =
          ap (λ p. lookup p files) (paths.0 path)
          ∙ lookup-insert (os.resolve path) (os.resolve path) t.sample_content m.files
          ∙ rw (◌==◌, beq_refl text_eq (os.resolve path)) refl in
        rw (arm_template, write_canary_content, access.1 path)
          (
            (
              (
                (
                  IsDict-insert key trap m.canaries v.0,
                  AllEntries-insert (IsEntry os document all) key trap m.canaries entry v.1,
                ),
                AllEntries-insert (λ k u. inspect os u files ≡ none) key trap m.canaries
                    (inspect-written os document trap files (access.0 trap.path) sound written)
                    (AllEntries-weaken _ _
                      (λ k u g.
                        subst (λ p. inspect os u (insert p t.sample_content m.files) ≡ none)
                          (paths.0 path)
                          (inspect-rewrite_file os document u trap m.files (access.0 u.path) g.0.1
                            sound g.1))
                      m.canaries (AllEntries-both _ _ m.canaries v.1 clean)),
              ),
              λ j h. has_key-insert key j trap m.canaries h,
            ),
            rw (has_key, lookup-insert key key trap m.canaries, ◌==◌, beq_refl text_eq key) refl,
          )

    arm_directory-Extends :
        (d : Text) (ts : List CanaryTemplate) (m : Manager)
        → All (λ t. os.file_name (os.resolve (os.in_directory d t.filename)) ≡ t.filename) ts
        → HasDocuments ts
        → IsArmed all m
        → Extends all m (arm_directory os d ts m)
          × All (λ t. has_key (key_of d t) (arm_directory os d ts m).canaries ≡ true) ts
    unfolding arm_directory
    arm_directory-Extends d [] m names docs a = ((a, λ k h. h), tt)
    arm_directory-Extends d (t ∷ ts) m names docs a =
        let ((armed, keeps), has) = arm_template-Extends d t m names.0 docs.0 a in
        let ((last, later), rest) =
          arm_directory-Extends d ts (arm_template os d t m) names.1 docs.1 armed in
        ((last, λ k h. later k (keeps k h)), (later (key_of d t) has, rest))

    -- A path that is known
    abbrev Knows : Manager → Text → Type 0
    Knows m d = All (λ t. has_key (key_of d t) m.canaries ≡ true) all

    Knows-Extends :
        (d : Text) (ts : List CanaryTemplate) (m m' : Manager)
        → ((k : Text) → has_key k m.canaries ≡ true → has_key k m'.canaries ≡ true)
        → All (λ t. has_key (key_of d t) m.canaries ≡ true) ts
        → All (λ t. has_key (key_of d t) m'.canaries ≡ true) ts
    Knows-Extends d [] m m' f h = tt
    Knows-Extends d (t ∷ ts) m m' f h = (f (key_of d t) h.0, Knows-Extends d ts m m' f h.1)

    arm_directories-Extends :
        (ds : List Text) (m : Manager)
        → HasDocuments all
        → All (λ d. os.directory_denied d ≡ false) ds
        → IsArmed all m
        → Extends all m (arm_directories os ds all m) × All (Knows (arm_directories os ds all m)) ds
    unfolding arm_directories
    arm_directories-Extends [] m docs made a = ((a, λ k h. h), tt)
    arm_directories-Extends (d ∷ ds) m docs made a =
        let one = arm_directory os d all m in
        let ((armed, keeps), knows) = arm_directory-Extends d all m (paths.2 d) docs a in
        let ((last, later), rest) = arm_directories-Extends ds one docs made.1 armed in
        let eq : arm_directories os (d ∷ ds) all m ≡ arm_directories os ds all one =
          rw (arm_directories, made.0) refl in
        subst (λ x. Extends all m x × All (Knows x) (d ∷ ds)) (sym eq)
          (
            (last, λ k h. later k (keeps k h)),
            (Knows-Extends d all one (arm_directories os ds all one) later knows, rest),
          )

    -- After `arm_traps`, where every directory can be made, every file read and written, and
    -- resolving a path keeps the name of a canary, the path of every template in every target
    -- directory is known, every trap is sound, each path is held once, and no canary is reported.
    pub arm_traps-IsValid :
        (m : Manager)
        → HasDocuments all
        → All (λ d. os.directory_denied d ≡ false) m.target_directories
        → let m' = arm_traps os all m in
          All
            (λ d.
              All (λ t. has_key (norm os (os.in_directory d t.filename)) m'.canaries ≡ true) all)
            m.target_directories
          × IsValid os document all m'
          × (verify_all_canaries os all m' ≡ [])
    unfolding arm_traps
    arm_traps-IsValid m docs made =
        let start = record m { canaries = []; armed_count = 0 } in
        let ((armed, _), knows) =
          arm_directories-Extends m.target_directories start docs made ((tt, tt), tt) in
        (knows, armed.0, verify_all_canaries-clean os document all _ armed.0 armed.1)
