-- ===== src/Canary/Repair.antt =====
-- What `repair_canaries` leaves.
use sentinel_antivirus.Prelude.{
  ℕ, ◌≡◌, refl, sym, ap, ◌∙◌, ◌↔◌, inl, inr, false, none, some, List, [], ◌∷◌, ◌==◌, nat_eq,
  pair_eq, Bool-cases, Option-cases, beq_refl, length, is_empty, Text, text_eq,
}
use sentinel_antivirus.Dict.{Dict, values, lookup, insert, lookup-insert}
use sentinel_antivirus.Dict.Entries.{
  AllEntries, AllEntries-insert, AllEntries-lookup, AllEntries-weaken, AllEntries-both,
}
use sentinel_antivirus.Dict.Unique.{IsDict, IsDict-insert, IsDict-lookup}
use sentinel_antivirus.Canary.Templates.{CanaryTemplate}
use sentinel_antivirus.Canary.{
  CanaryTrap, System, Manager, norm, trap_at, inspect, check_tampering, write_canary_content,
  tampered_of, verify_all_canaries, repair, repair_each, repair_canaries,
}
use sentinel_antivirus.Canary.Sound.{inspect_iff, IsSound, inspect-written, inspect-rewrite_file}

module _ (os : System) (document : Text → Text) (ts : List CanaryTemplate) where
  -- What holds of an entry of the manager
  abbrev pub IsEntry : Text → CanaryTrap → Type 0
  IsEntry k t = (k ≡ norm os t.path) × IsSound os document t

  -- The manager holds each path once, with a sound trap.
  abbrev pub IsValid : Manager → Type 0
  IsValid m = IsDict m.canaries × AllEntries IsEntry m.canaries

  -- A system that lets the manager read and write every file
  abbrev pub IsOpen : Type 0
  IsOpen =
      ((path : Text) → os.read_denied path ≡ false) × ((path : Text) → os.write_denied path ≡ false)

  check_tampering-trap :
      (m : Manager) (t : CanaryTrap)
      → is_empty t.path ≡ false
      → lookup (norm os t.path) m.canaries ≡ some t
      → check_tampering os ts t.path m ≡ inspect os t m.files
  unfolding check_tampering
  check_tampering-trap m t p l = rw (check_tampering, p, l) refl

  trap_at-IsSound : (t : CanaryTrap) → IsSound os document t → trap_at os t.path t.template ≡ t
  trap_at-IsSound t s = rw (← s.0, ← s.1) refl

  -- One manager is left by another's repair: it has the same traps, is valid, and what was clean is
  -- clean.
  abbrev Mends : Manager → Manager → Type 0
  Mends m m' =
      ((k : Text) → lookup k m'.canaries ≡ lookup k m.canaries)
      × IsValid m'
      × ((t : CanaryTrap)
          → IsSound os document t
          → inspect os t m.files ≡ none
          → inspect os t m'.files ≡ none)

  insert-same :
      {V : Type 0} (k j : Text) {v : V} (d : Dict Text V)
      → lookup k d ≡ some v
      → lookup j (insert k v d) ≡ lookup j d
  insert-same k j {v} d l = elim (Bool-cases (k == j)) [
    | inl same ↦ lookup-insert k j v d ∙ rw (same, ← (text_eq.beq_iff k j).0 same) (sym l)
    | inr other ↦ lookup-insert k j v d ∙ rw other refl
  ]

  repair-Mends :
      (k : Text) (t : CanaryTrap) (m : Manager) (n : ℕ)
      → IsOpen
      → IsValid m
      → IsEntry k t
      → lookup k m.canaries ≡ some t
      → Mends m (repair os ts k t (m, n)).0
        × (inspect os t (repair os ts k t (m, n)).0.files ≡ none)
  unfolding repair write_canary_content
  repair-Mends k t m n access v (key, sound) l =
      let clean = check_tampering-trap m t sound.4 (ap (λ j. lookup j m.canaries) (sym key) ∙ l) in
      let written =
        lookup-insert (os.resolve t.path) (os.resolve t.path) t.template.sample_content m.files
        ∙ rw (◌==◌, beq_refl text_eq (os.resolve t.path)) refl in
      elim (Option-cases (check_tampering os ts t.path m)) [
        | inl e ↦ rw (repair, e) (((λ j. refl), v, λ u s h. h), sym clean ∙ e)
        | inr (reason, e) ↦
            rw (repair, e, write_canary_content, access.1 t.path, trap_at-IsSound t sound)
              (
                (
                  (λ j. insert-same k j m.canaries l),
                  (
                    IsDict-insert k t m.canaries v.0,
                    AllEntries-insert IsEntry k t m.canaries (key, sound) v.1,
                  ),
                  λ u s h. inspect-rewrite_file os document u t m.files (access.0 u.path) s sound h,
                ),
                inspect-written os document t _ (access.0 t.path) sound written,
              )
      ]

  repair_each-Mends :
      (d : Dict Text CanaryTrap) (m : Manager) (n : ℕ)
      → IsOpen
      → IsValid m
      → AllEntries (λ k t. IsEntry k t × (lookup k m.canaries ≡ some t)) d
      → Mends m (repair_each os ts d (m, n)).0
        × AllEntries (λ k t. inspect os t (repair_each os ts d (m, n)).0.files ≡ none) d
  unfolding repair_each
  repair_each-Mends [] m n access v h = (((λ k. refl), v, λ t s c. c), tt)
  repair_each-Mends ((k, t) ∷ d) m n access v h =
      let (mends, clean) = repair-Mends k t m n access v h.0.0 h.0.1 in
      let (rest, all) =
        repair_each-Mends d (repair os ts k t (m, n)).0 (repair os ts k t (m, n)).1 access mends.1
          (AllEntries-weaken _ _ (λ j u g. (g.0, mends.0 j ∙ g.1)) d h.1) in
      (
        ((λ j. rest.0 j ∙ mends.0 j), rest.1, λ u s c. rest.2 u s (mends.2 u s c)),
        (rest.2 t h.0.0.1 clean, all),
      )

  tampered_of-none :
      (m : Manager) (d : Dict Text CanaryTrap)
      → AllEntries (λ k t. check_tampering os ts t.path m ≡ none) d
      → tampered_of os ts m (values d) ≡ []
  unfolding tampered_of
  tampered_of-none m [] h = refl
  tampered_of-none m ((k, t) ∷ d) h = rw (tampered_of, h.0) (tampered_of-none m d h.1)

  -- Of a valid manager whose traps are all clean, no canary is reported.
  pub verify_all_canaries-clean :
      (m : Manager)
      → IsValid m
      → AllEntries (λ k t. inspect os t m.files ≡ none) m.canaries
      → verify_all_canaries os ts m ≡ []
  unfolding verify_all_canaries
  verify_all_canaries-clean m v h = tampered_of-none m m.canaries (
      AllEntries-weaken _ _
        (λ k t g.
          check_tampering-trap m t g.0.0.1.4 (ap (λ j. lookup j m.canaries) (sym g.0.0.0) ∙ g.0.1)
          ∙ g.1)
        m.canaries
        (AllEntries-both _ _ m.canaries
          (AllEntries-both _ _ m.canaries v.1 (IsDict-lookup m.canaries v.0)) h))

  -- After `repair_canaries` of a valid manager, where every file can be read and written, no canary
  -- is reported, whatever was done to the files before. The manager is valid still and has the same
  -- traps.
  pub repair_canaries-clean :
      (m : Manager)
      → IsOpen
      → IsValid m
      → let m' = (repair_canaries os ts m).0 in
        (verify_all_canaries os ts m' ≡ [])
        × IsValid m'
        × ((k : Text) → lookup k m'.canaries ≡ lookup k m.canaries)
  unfolding repair_canaries
  repair_canaries-clean m access v =
      let (mends, all) =
        repair_each-Mends m.canaries m 0 access v
          (AllEntries-both _ _ m.canaries v.1 (IsDict-lookup m.canaries v.0)) in
      let m' = (repair_canaries os ts m).0 in
      (
        verify_all_canaries-clean m' mends.1 (
            AllEntries-weaken _ _
              (λ k t g.
                AllEntries-lookup (λ j u. inspect os u m'.files ≡ none) k m.canaries all
                  (sym (mends.0 k) ∙ g))
              m'.canaries (IsDict-lookup m'.canaries mends.1.0)),
        mends.1,
        mends.0,
      )

  -- The file of a trap of a valid manager counts as clean exactly when it has the trap's document,
  -- where it can be read and no other content of that size has the document's digest.
  pub check_tampering_iff :
      (m : Manager) (k : Text) (t : CanaryTrap)
      → IsValid m
      → lookup k m.canaries ≡ some t
      → os.read_denied t.path ≡ false
      → ((bytes : Text)
          → length bytes ≡ length t.template.sample_content
          → os.sha256_hex bytes ≡ os.sha256_hex t.template.sample_content
          → bytes ≡ t.template.sample_content)
      → (check_tampering os ts t.path m ≡ none)
        ↔ (lookup (os.resolve t.path) m.files ≡ some t.template.sample_content)
  check_tampering_iff m k t v l a unique =
      let (key, sound) = AllEntries-lookup IsEntry k m.canaries v.1 l in
      let same = check_tampering-trap m t sound.4 (ap (λ j. lookup j m.canaries) (sym key) ∙ l) in
      let (clean, written) = inspect_iff os document t m.files a unique sound in
      (λ h. clean (sym same ∙ h), λ h. same ∙ written h)
