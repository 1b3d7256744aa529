-- ===== src/Kernel/Bridge/Runs.antt =====
-- The bridges that its operations can lead to, and what `remove_block` does to them.
use sentinel_antivirus.Prelude.{
  ℕ, ◌≡◌, refl, sym, ap, inl, inr, Bool, true, false, ◌&&◌, ◌||◌, not, Option, some, [], arith,
  if◌then◌else◌, ◌==◌, nat_eq, pair_eq, Bool-cases, Option-cases, beq_refl, is_some, Text, text_eq,
}
use mathlib.Core.Path.{subst}
use sentinel_antivirus.Dict.{Dict, lookup, has_key, insert, erase, lookup-insert, lookup-erase}
use sentinel_antivirus.Result.{Result-cases}
use sentinel_antivirus.Schema.{Extra}
use sentinel_antivirus.Kernel.Blocklist.{Contents}
use sentinel_antivirus.Kernel.Bridge.{
  add_hash_block, remove_hash_block, Driver, KernelBridge, check_hresult, connect, disconnect,
  add_block, nt_path_of, remove_block, check_file_blocked,
}
use sentinel_antivirus.Kernel.Bridge.Laws.{
  add_block-cases, remove_block-cases, check_file_blocked-is_some,
}
use sentinel_antivirus.Kernel.Bridge.Hashes.{remove_hash-is_blocked}

has_key-erase_last : (k : Text) (d : Dict Text Text) → has_key k (erase k d) ≡ false
has_key-erase_last k d = rw (has_key, lookup-erase k k d, beq_refl text_eq k) refl

has_key-erased : (k j : Text) (d : Dict Text Text) → has_key j (erase k (erase j d)) ≡ false
has_key-erased k j d = elim (Bool-cases (k == j)) [
  | inl same ↦ rw (has_key, lookup-erase k j (erase j d), same) refl
  | inr other ↦
      rw (has_key, lookup-erase k j (erase j d), other, lookup-erase j j d, beq_refl text_eq j) refl
]

module _ {Port : Type 0} (os : Driver Port) where
  -- One call of a method that changes the bridge
  pub data Step : KernelBridge Port → KernelBridge Port → Type 0 where
    connects : {b : KernelBridge Port} → Step b (connect os b).1
    disconnects : {b : KernelBridge Port} → Step b (disconnect os b)
    adds :
        {b : KernelBridge Port} (files : Contents) (now : ℕ) (path : Text) (force : Bool)
        → Step b (add_block os files now path force b).1
    removes :
        {b : KernelBridge Port} (files : Contents) (path : Text)
        → Step b (remove_block os files path b).1
    adds_hash :
        {b : KernelBridge Port} (files : Contents) (now : ℕ) (identifier reason : Text)
        (metadata : Option Extra)
        → Step b (add_hash_block os files now identifier reason metadata b).1
    removes_hash :
        {b : KernelBridge Port} (files : Contents) (identifier : Text)
        → Step b (remove_hash_block os files identifier b).1

  -- The bridges that calls lead to, from a new one
  pub data Reachable : KernelBridge Port → Type 0 where
    new :
        (port : Port)
        → Reachable (record {
          port = port;
          connected = false;
          blocked_paths = [];
          hash_blocklist = record { blocks = [] };
        })
    after : {b c : KernelBridge Port} → Reachable b → Step b c → Reachable c

  -- Every blocked path leads to its device path.
  abbrev IsConverted : Dict Text Text → Type 0
  IsConverted paths = (path nt : Text) → lookup path paths ≡ some nt → nt ≡ os.dos_to_nt_path path

  abbrev pub IsValid : KernelBridge Port → Type 0
  IsValid b = IsConverted b.blocked_paths

  insert-IsConverted :
      (paths : Dict Text Text) (k v : Text)
      → v ≡ os.dos_to_nt_path k
      → IsConverted paths
      → IsConverted (insert k v paths)
  insert-IsConverted paths k v e h path nt g = elim (Bool-cases (k == path)) [
    | inl same ↦ ground (
      arith,
      lookup-insert k path v paths,
      text_eq.beq_iff k path,
      ap os.dos_to_nt_path ((text_eq.beq_iff k path).0 same),
    )
    | inr other ↦ h path nt (ground (arith, lookup-insert k path v paths))
  ]

  erase-IsConverted :
      (paths : Dict Text Text) (k : Text) → IsConverted paths → IsConverted (erase k paths)
  erase-IsConverted paths k h path nt g = elim (Bool-cases (k == path)) [
    | inl same ↦ absurd (ground (arith, lookup-erase k path paths))
    | inr other ↦ h path nt (ground (arith, lookup-erase k path paths))
  ]

  if-IsConverted :
      (t : Bool) (others paths : Dict Text Text)
      → IsConverted others
      → IsConverted paths
      → IsConverted (if t then others else paths)
  if-IsConverted true others paths h k = h
  if-IsConverted false others paths h k = k

  connect-keeps : (b : KernelBridge Port) → (connect os b).1.blocked_paths ≡ b.blocked_paths
  unfolding connect
  connect-keeps b = elim (Bool-cases b.connected) [
    | inl c ↦ rw (connect, c) refl
    | inr d ↦ elim (Option-cases (os.filter_connect b.port).0) [
      | inl absent ↦ rw (connect, d, absent) refl
      | inr (status, there) ↦ elim (Result-cases (check_hresult status)) [
        | inl (hr, returned) ↦ rw (connect, d, there, returned) refl
        | inr (e, raised) ↦ rw (connect, d, there, raised) refl
      ]
    ]
  ]

  Step-IsValid :
      {b c : KernelBridge Port}
      → ((p : Text) → os.dos_to_nt_path (os.dos_to_nt_path p) ≡ os.dos_to_nt_path p)
      → Step b c
      → IsValid b
      → IsValid c
  unfolding connect disconnect add_hash_block remove_hash_block
  Step-IsValid {b} idem connects h = subst IsConverted (sym (connect-keeps b)) h
  Step-IsValid {b} idem disconnects h = elim (Bool-cases b.connected) [
    | inl c ↦ rw (disconnect, c) h
    | inr d ↦ rw (disconnect, d) h
  ]
  Step-IsValid {b} idem (adds files now path force) h =
      elim (add_block-cases os files now path force b) [
        | inl (_, same) ↦ subst IsValid (sym same) h
        | inr (_, _, _, p) ↦
            let nt = os.dos_to_nt_path path in
            subst IsConverted (sym p) (
              if-IsConverted b.connected _ b.blocked_paths
                (insert-IsConverted (insert path nt b.blocked_paths) nt nt (sym (idem path))
                  (insert-IsConverted b.blocked_paths path nt refl h))
                h)
      ]
  Step-IsValid {b} idem (removes files path) h =
      subst IsConverted (sym (remove_block-cases os files path b).0) (
        if-IsConverted b.connected _ b.blocked_paths
          (erase-IsConverted (erase path b.blocked_paths) (nt_path_of os path b)
            (erase-IsConverted b.blocked_paths path h))
          h)
  Step-IsValid {b} idem (adds_hash files now identifier reason metadata) h = h
  Step-IsValid {b} idem (removes_hash files identifier) h = h

  -- In every bridge that calls lead to, each blocked path leads to its device path.
  pub Reachable-IsValid :
      {b : KernelBridge Port}
      → ((p : Text) → os.dos_to_nt_path (os.dos_to_nt_path p) ≡ os.dos_to_nt_path p)
      → Reachable b
      → IsValid b
  unfolding lookup
  Reachable-IsValid idem (new port) = λ path nt g. absurd (cc)
  Reachable-IsValid idem (after {b} r s) = Step-IsValid idem s (Reachable-IsValid idem r)

  nt_path_of-IsValid :
      (path : Text) (b : KernelBridge Port)
      → IsValid b
      → nt_path_of os path b ≡ os.dos_to_nt_path path
  nt_path_of-IsValid path b h = elim (Option-cases (lookup path b.blocked_paths)) [
    | inl e ↦ rw (nt_path_of, e) refl
    | inr (nt, e) ↦ rw (nt_path_of, e) (ground (arith, h path nt e))
  ]

  -- Whatever was called before, after `remove_block` a path counts as blocked exactly when it did
  -- as a path, and the bridge is not connected.
  pub remove_block-check_file_blocked :
      (files : Contents) (path : Text) {b : KernelBridge Port}
      → ((p : Text) → os.dos_to_nt_path (os.dos_to_nt_path p) ≡ os.dos_to_nt_path p)
      → Reachable b
      → is_some (check_file_blocked os files path (remove_block os files path b).1) ≡ (
          not b.connected
          && (has_key path b.blocked_paths || has_key (os.dos_to_nt_path path) b.blocked_paths))
  remove_block-check_file_blocked files path {b} idem r =
      let (p, h, _) = remove_block-cases os files path b in
      rw
        (
          check_file_blocked-is_some os files path (remove_block os files path b).1,
          p,
          h,
          remove_hash-is_blocked os.tools files path b.hash_blocklist,
          nt_path_of-IsValid path b (Reachable-IsValid idem r),
        )
        (elim (Bool-cases b.connected) [
          | inl c ↦
              rw
                (
                  c,
                  has_key-erased (os.dos_to_nt_path path) path b.blocked_paths,
                  has_key-erase_last (os.dos_to_nt_path path) (erase path b.blocked_paths),
                )
                refl
          | inr d ↦ rw d (ground arith)
        ])
