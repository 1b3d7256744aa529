-- ===== src/Scanner/Coverage.antt =====
-- Which files of a folder a scan looks at.
use sentinel_antivirus.Prelude.{
  ◌≡◌, refl, sym, ◌↔◌, ◌⊎◌, inl, inr, Bool, true, false, List, [], ◌∷◌, ◌++◌, arith, if◌then◌else◌,
  ◌==◌, nat_eq, pair_eq, Bool-cases, keep, all_of, All, All-append, All-weaken, Text, text_beq_iff,
  text_eq,
}
use mathlib.Core.Path.{subst, subst₂}
use sentinel_antivirus.Dict.{member}
use sentinel_antivirus.Scanner.Targets.{
  Folder, Folders, folder, nil, cons, Paths, is_walked, is_scanned, files_in, walk, walk_all,
}

-- A folder among others
abbrev pub Has : Text → Folder → Folders → Type 0
Has d sub nil = ⊥
Has d sub (cons e f folders) = ((e ≡ d) × (f ≡ sub)) ⊎ Has d sub folders

-- A folder that contains a file below the folders of these names
abbrev pub Contains : Folder → List Text → Text → Type 0
Contains (folder names folders) [] name = member name names ≡ true
Contains (folder names folders) (d ∷ dirs) name =
    (sub : Folder) × Has d sub folders × Contains sub dirs name

member-here : (n : Text) (names : List Text) → member n (n ∷ names) ≡ true
unfolding member
member-here n names = ground (arith, text_beq_iff n n)

member-there :
    (k n : Text) (names : List Text) → member k names ≡ true → member k (n ∷ names) ≡ true
unfolding member
member-there k n names h = ground arith

All-member : (P : Text → Type 0) (k : Text) (xs : List Text) → All P xs → member k xs ≡ true → P k
unfolding member
All-member P k [] h m = absurd (cc)
All-member P k (x ∷ xs) h m = elim (Bool-cases (x == k)) [
  | inl same ↦ subst P ((text_beq_iff x k).0 same) h.0
  | inr other ↦ All-member P k xs h.1 (ground arith)
]

member-append_left :
    (k : Text) (xs ys : List Text) → member k xs ≡ true → member k (xs ++ ys) ≡ true
unfolding member
member-append_left k [] ys h = absurd (cc)
member-append_left k (x ∷ xs) ys h = ground (arith, member-append_left k xs ys)

member-append_right :
    (k : Text) (xs ys : List Text) → member k ys ≡ true → member k (xs ++ ys) ≡ true
unfolding member
member-append_right k [] ys h = h
member-append_right k (x ∷ xs) ys h = ground (arith, member-append_right k xs ys h)

module _ (os : Paths) (quick_mode : Bool) where
  -- The path of a file below a root, and the folder that it is in
  abbrev pub parent_of : Text → List Text → Text
  parent_of root [] = root
  parent_of root (d ∷ dirs) = parent_of (os.child root d) dirs

  member-files_in :
      (root name : Text) (names : List Text)
      → member name names ≡ true
      → is_scanned os quick_mode root name ≡ true
      → member (os.child root name) (files_in os quick_mode root names) ≡ true
  unfolding files_in member
  member-files_in root name [] h k = absurd (cc)
  member-files_in root name (n ∷ names) h k = ground (
    arith,
    text_beq_iff n name,
    text_beq_iff (os.child root n) (os.child root name),
    member-files_in root name names,
  )

  member-walk_all :
      (root d path : Text) (sub : Folder) (folders : Folders)
      → Has d sub folders
      → is_walked os quick_mode d ≡ true
      → member path (walk os quick_mode (os.child root d) sub) ≡ true
      → member path (walk_all os quick_mode root folders) ≡ true
  unfolding walk_all
  member-walk_all root d path sub nil h w m = absurd h
  member-walk_all root d path sub (cons e f folders) (inl (same, this)) w m =
      member-append_left path _ _ (
        subst₂
          (λ g t.
            member path
              (if is_walked os quick_mode g then walk os quick_mode (os.child root g) t else [])
            ≡ true)
          (sym same) (sym this) (rw w m))
  member-walk_all root d path sub (cons e f folders) (inr later) w m =
      member-append_right path
        (if is_walked os quick_mode e then walk os quick_mode (os.child root e) f else []) _
        (member-walk_all root d path sub folders later w m)

  -- A file that stands in no ignored folder and is not ignored itself is among those that a scan
  -- looks at.
  walk_complete :
      (dirs : List Text) (root name : Text) (f : Folder)
      → Contains f dirs name
      → all_of (is_walked os quick_mode) dirs ≡ true
      → is_scanned os quick_mode (parent_of root dirs) name ≡ true
      → member (os.child (parent_of root dirs) name) (walk os quick_mode root f) ≡ true
  unfolding walk
  walk_complete [] root name (folder names folders) h w k =
      member-append_left (os.child root name) (files_in os quick_mode root names) _
        (member-files_in root name names h k)
  walk_complete (d ∷ dirs) root name (folder names folders) (sub, has, h) w k =
      member-append_right (os.child (parent_of root (d ∷ dirs)) name)
        (files_in os quick_mode root names) _
        (member-walk_all root d (os.child (parent_of root (d ∷ dirs)) name) sub folders has
          (ground arith) (walk_complete dirs (os.child root d) name sub h (ground arith) k))

  -- A path of a file in a folder that a scan should look at
  abbrev pub IsTarget : Text → Folder → Text → Type 0
  IsTarget root f path =
      (dirs : List Text) × (name : Text) × Contains f dirs name
      × (all_of (is_walked os quick_mode) dirs ≡ true)
      × (is_scanned os quick_mode (parent_of root dirs) name ≡ true)
      × (path ≡ os.child (parent_of root dirs) name)

  -- The same of one of several folders
  abbrev IsBelow : Text → Folders → Text → Type 0
  IsBelow root folders path =
      (d : Text) × (sub : Folder) × Has d sub folders
      × (is_walked os quick_mode d ≡ true)
      × IsTarget (os.child root d) sub path

  files_in-IsTarget :
      (root : Text) (all : List Text) (folders : Folders) (names : List Text)
      → ((n : Text) → member n names ≡ true → member n all ≡ true)
      → All (IsTarget root (folder all folders)) (files_in os quick_mode root names)
  unfolding files_in
  files_in-IsTarget root all folders [] sub = tt
  files_in-IsTarget root all folders (n ∷ names) sub =
      elim (Bool-cases (is_scanned os quick_mode root n)) [
        | inl scanned ↦
            rw (keep, scanned)
              (
                ([], n, sub n (member-here n names), refl, scanned, refl),
                files_in-IsTarget root all folders names (λ k h. sub k (member-there k n names h)),
              )
        | inr left ↦
            rw (keep, left)
              (files_in-IsTarget root all folders names (λ k h. sub k (member-there k n names h)))
      ]

  IsBelow-IsTarget :
      (root : Text) (names : List Text) (folders : Folders) (path : Text)
      → IsBelow root folders path
      → IsTarget root (folder names folders) path
  IsBelow-IsTarget root names folders path (d, sub, has, walked, (dirs, name, h, w, k, e)) =
      (d ∷ dirs, name, (sub, has, h), ground arith, k, e)

  walked_sound :
      (root d : Text) (f : Folder) (folders : Folders) (walked : Bool)
      → is_walked os quick_mode d ≡ walked
      → All (IsTarget (os.child root d) f) (walk os quick_mode (os.child root d) f)
      → All
          (IsBelow root (cons d f folders))
          (if walked then walk os quick_mode (os.child root d) f else [])
  walked_sound root d f folders false e h = tt
  walked_sound root d f folders true e h =
      All-weaken (IsTarget (os.child root d) f) (IsBelow root (cons d f folders)) _
        (λ path t. (d, f, inl (refl, refl), e, t)) h

  mutual
    unfolding walk

    walk_sound : (root : Text) (f : Folder) → All (IsTarget root f) (walk os quick_mode root f)
    walk_sound root (folder names folders) =
        All-append (IsTarget root (folder names folders)) (files_in os quick_mode root names) _
          (files_in-IsTarget root names folders names (λ n h. h))
          (All-weaken (IsBelow root folders) (IsTarget root (folder names folders)) _
            (IsBelow-IsTarget root names folders) (walk_all_sound root folders))

    walk_all_sound :
        (root : Text) (folders : Folders)
        → All (IsBelow root folders) (walk_all os quick_mode root folders)
    walk_all_sound root nil = tt
    walk_all_sound root (cons d f folders) =
        All-append (IsBelow root (cons d f folders)) _ _
          (walked_sound root d f folders (is_walked os quick_mode d) refl
            (walk_sound (os.child root d) f))
          (All-weaken (IsBelow root folders) (IsBelow root (cons d f folders)) _
            (λ path h. (h.0, h.1, inr h.2, h.3, h.4)) (walk_all_sound root folders))

  -- A scan of a folder looks at exactly the files of the folder that are not ignored, stand in no
  -- ignored folder, and are programs in the quick mode.
  pub walk_iff :
      (root : Text) (f : Folder) (path : Text)
      → (member path (walk os quick_mode root f) ≡ true) ↔ IsTarget root f path
  walk_iff root f path = (
    All-member (IsTarget root f) path (walk os quick_mode root f) (walk_sound root f),
    λ (t : IsTarget root f path).
        subst (λ p. member p (walk os quick_mode root f) ≡ true) (sym t.5)
          (walk_complete t.0 root t.1 f t.2 t.3 t.4),
  )
