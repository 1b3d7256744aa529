-- ===== src/Kernel/Bridge/Laws.antt =====
-- What the bridge blocks, after any of its operations.
use sentinel_antivirus.Prelude.{
  ◌-◌, first, ℕ, ◌^◌, ◌≤◌, ◌≡◌, refl, ◌∙◌, ◌↔◌, ◌⊎◌, inl, inr, Bool, true, false, ◌&&◌, ◌||◌, not,
  none, some, arith, leb, if◌then◌else◌, ◌==◌, nat_eq, pair_eq, Bool-cases, Option-cases, is_some,
  Text, codes, text_eq,
}
use sentinel_antivirus.Dict.{Dict, has_key, insert, erase}
use sentinel_antivirus.Result.{Result, ok, err, Result-cases}
use sentinel_antivirus.Result.{os_error}
use sentinel_antivirus.Kernel.Blocklist.{
  Contents, HashBlocklist, identify, add_hash, remove_hash, is_blocked,
}
use sentinel_antivirus.Kernel.Bridge.{
  max_path, first, add_path, connect, check_hresult, remove_path, Command, remove_commands,
  send_command, nt_path_of, remove_block, is_protected, add_block, Driver, KernelBridge,
  check_file_blocked,
}
use sentinel_antivirus.Kernel.Bridge.Hashes.{
  add_hash-is_blocked, is_blocked-identify, has_key-insert_twice,
}

module _ {Port : Type 0} (os : Driver Port) where
  pub check_file_blocked-is_some :
      (files : Contents) (path : Text) (b : KernelBridge Port)
      → is_some (check_file_blocked os files path b) ≡ (
          (has_key path b.blocked_paths || has_key (os.dos_to_nt_path path) b.blocked_paths)
          || is_some (is_blocked os.tools files path b.hash_blocklist))
  unfolding check_file_blocked
  check_file_blocked-is_some files path b =
      elim (Bool-cases
        (has_key path b.blocked_paths || has_key (os.dos_to_nt_path path) b.blocked_paths)) [
          | inl path_blocked ↦ rw (check_file_blocked, path_blocked) refl
          | inr path_free ↦ elim (Option-cases (is_blocked os.tools files path b.hash_blocklist)) [
            | inl e ↦ rw (check_file_blocked, path_free, e) refl
            | inr (r, e) ↦ rw (check_file_blocked, path_free, e) refl
          ]
        ]

  abbrev pub refuses : Contents → Text → Bool → Bool
  refuses files path force = is_protected (os.verify_signature files path) force

  -- What `add_block` leaves, where it does not refuse
  pub add_block-cases :
      (files : Contents) (now : ℕ) (path : Text) (force : Bool) (b : KernelBridge Port)
      → let nt = os.dos_to_nt_path path in
        let b' = (add_block os files now path force b).1 in
        ((refuses files path force ≡ true) × (b' ≡ b))
        ⊎ ((refuses files path force ≡ false)
            × (b'.hash_blocklist
                ≡ (add_hash os.tools files now path (codes "kernel_block") none b.hash_blocklist).1)
            × (b'.connected ≡ b.connected)
            × (b'.blocked_paths ≡ (
                if b.connected
                then insert nt nt (insert path nt b.blocked_paths)
                else b.blocked_paths)))
  unfolding add_block send_command
  add_block-cases files now path force b = elim (Bool-cases (refuses files path force)) [
    | inl protected ↦ inl (protected, rw (add_block, protected) refl)
    | inr allowed ↦ elim (Bool-cases b.connected) [
      | inl c ↦ inr (
        allowed,
        rw (add_block, allowed, c) refl,
        rw (add_block, allowed, c) refl,
        rw (add_block, allowed, c) refl,
      )
      | inr d ↦ inr (
        allowed,
        rw (add_block, allowed, d) refl,
        rw (add_block, allowed, d) refl,
        rw (add_block, allowed, d) refl,
      )
    ]
  ]

  -- After `add_block` a path counts as blocked exactly when it did before, or when the binary is
  -- not protected, and the bridge is connected or the path has a hash.
  pub add_block-check_file_blocked :
      (files : Contents) (now : ℕ) (path : Text) (force : Bool) (b : KernelBridge Port)
      → is_some (check_file_blocked os files path (add_block os files now path force b).1) ≡ (
          is_some (check_file_blocked os files path b)
          || (not (is_protected (os.verify_signature files path) force)
              && (b.connected || is_some (identify os.tools files path))))
  add_block-check_file_blocked files now path force b =
      let hashed =
        add_hash-is_blocked os.tools files now path (codes "kernel_block") b.hash_blocklist in
      elim (add_block-cases files now path force b) [
        | inl (protected, same) ↦ rw (protected, same) (ground arith)
        | inr (allowed, h, k, p) ↦
            rw
              (
                check_file_blocked-is_some files path (add_block os files now path force b).1,
                check_file_blocked-is_some files path b,
                h,
                p,
                hashed,
                allowed,
              )
              (elim (Bool-cases b.connected) [
                | inl c ↦
                    rw
                      (
                        c,
                        has_key-insert_twice path (os.dos_to_nt_path path) (os.dos_to_nt_path path)
                            b.blocked_paths,
                      )
                      (ground arith)
                | inr d ↦
                    rw d (ground (arith, is_blocked-identify os.tools files path b.hash_blocklist))
              ])
      ]

  -- The command that `add_block` sends for a path, and the driver's answer to it
  abbrev pub sent : Text → KernelBridge Port → ℕ × Port
  sent path b =
      os.filter_send_message add_path (first (max_path - 1) (os.dos_to_nt_path path)) b.port

  -- What a caller is told of an HRESULT
  abbrev pub answered : ℕ → Result Bool
  answered status = if leb (2 ^ 31) status then err os_error else ok (status == 0)

  send_command-sent :
      (path : Text) (b b' : KernelBridge Port)
      → b'.port ≡ b.port
      → let x = send_command os add_path (os.dos_to_nt_path path) b' in
        (x.0 ≡ answered (sent path b).0) × (x.1.port ≡ (sent path b).1)
  unfolding send_command check_hresult
  send_command-sent path b b' same = elim (Bool-cases (leb (2 ^ 31) (sent path b).0)) [
    | inl failed ↦ rw (same, check_hresult, failed) (refl, refl)
    | inr fine ↦ rw (same, check_hresult, fine) (refl, refl)
  ]

  pub add_block-told :
      (files : Contents) (now : ℕ) (path : Text) (force : Bool) (b : KernelBridge Port)
      → b.connected ≡ true
      → refuses files path force ≡ false
      → ((add_block os files now path force b).0 ≡ answered (sent path b).0)
        × ((add_block os files now path force b).1.port ≡ (sent path b).1)
  unfolding add_block
  add_block-told files now path force b c allowed =
      rw (add_block, allowed, c) (send_command-sent path b _ refl)

  -- Nothing but the port is other than it was.
  abbrev Keeps : KernelBridge Port → KernelBridge Port → Type 0
  Keeps b b' =
      (b'.blocked_paths ≡ b.blocked_paths)
      × (b'.hash_blocklist ≡ b.hash_blocklist)
      × (b'.connected ≡ b.connected)

  -- A call that leaves a given state, whichever branch is taken
  abbrev pub Shows :
      Dict Text Text → HashBlocklist → Bool → Result Bool × KernelBridge Port → Type 0
  Shows paths hashes c x =
      (x.1.blocked_paths ≡ paths) × (x.1.hash_blocklist ≡ hashes) × (x.1.connected ≡ c)

  Shows-if :
      (t : Bool) {paths others : Dict Text Text} {hashes : HashBlocklist} {c : Bool}
      (x y : Result Bool × KernelBridge Port)
      → Shows paths hashes c x
      → Shows others hashes c y
      → Shows (if t then paths else others) hashes c (if t then x else y)
  Shows-if true x y h k = h
  Shows-if false x y h k = k

  send_command-Keeps :
      (cmd : Command) (path : Text) (b : KernelBridge Port) → Keeps b (send_command os cmd path b).1
  unfolding send_command
  send_command-Keeps cmd path b = (refl, refl, refl)

  remove_commands-Keeps :
      (path nt : Text) (b : KernelBridge Port) → Keeps b (remove_commands os path nt b).1
  unfolding remove_commands
  remove_commands-Keeps path nt b =
      let one = send_command-Keeps remove_path nt b in
      let two = send_command-Keeps remove_path path (send_command os remove_path nt b).1 in
      elim (Result-cases (send_command os remove_path nt b).0) [
        | inr (e, raised) ↦ rw (remove_commands, raised) one
        | inl (sent, returned) ↦ elim (Bool-cases (nt == path)) [
          | inl same ↦ rw (remove_commands, returned, same) one
          | inr other ↦
              rw (remove_commands, returned, other) (two.0 ∙ one.0, two.1 ∙ one.1, two.2 ∙ one.2)
        ]
      ]

  pub remove_block-cases :
      (files : Contents) (path : Text) (b : KernelBridge Port)
      → let nt = nt_path_of os path b in
        Shows
          (if b.connected then erase nt (erase path b.blocked_paths) else b.blocked_paths)
          (remove_hash os.tools files path b.hash_blocklist).1
          b.connected
          (remove_block os files path b)
  unfolding remove_block
  remove_block-cases files path b =
      let nt = nt_path_of os path b in
      let left = record b {
        hash_blocklist = (remove_hash os.tools files path b.hash_blocklist).1;
      } in
      Shows-if b.connected _ _
        (remove_commands-Keeps path nt
          (record left { blocked_paths = erase nt (erase path b.blocked_paths) }))
        (refl, refl, refl)

  -- A call of `connect` without a connection, where fltlib is there, by the HRESULT of the driver's
  -- port: a failure raises OSError, 0 connects and returns true, and only 0 does either.
  pub connect_lem :
      (b : KernelBridge Port) {status : ℕ}
      → b.connected ≡ false
      → (os.filter_connect b.port).0 ≡ some status
      → (((connect os b).0 ≡ err os_error) ↔ (2 ^ 31 ≤ status))
        × (((connect os b).0 ≡ ok true) ↔ (status ≡ 0))
        × (((connect os b).1.connected ≡ true) ↔ (status ≡ 0))
  unfolding connect check_hresult
  connect_lem b {status} d e = elim (Bool-cases (leb (2 ^ 31) status)) [
    | inl failed ↦
        rw (connect, d, e, check_hresult, failed)
          (
            (λ _. ground arith, λ _. refl),
            (λ p. absurd (cc), λ z. absurd (ground arith)),
            (λ p. absurd (ground (arith, d)), λ z. absurd (ground arith)),
          )
    | inr fine ↦ elim (Bool-cases (status == 0)) [
      | inl zero_status ↦
          rw (connect, d, e, check_hresult, fine, zero_status)
            (
              (λ p. absurd (cc), λ h. absurd (ground arith)),
              (λ _. ground arith, λ _. refl),
              (λ _. ground arith, λ _. refl),
            )
      | inr other ↦
          rw (connect, d, e, check_hresult, fine, other)
            (
              (λ p. absurd (cc), λ h. absurd (ground arith)),
              (λ p. absurd (cc), λ z. absurd (ground arith)),
              (λ p. absurd (cc), λ z. absurd (ground arith)),
            )
    ]
  ]
