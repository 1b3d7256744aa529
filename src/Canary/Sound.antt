-- ===== src/Canary/Sound.antt =====
-- Traps that know their document, and what a write of one does to the others. The document of a
-- template is told by its name.
use sentinel_antivirus.Prelude.{
  is_empty, ◌≡◌, refl, sym, ap, ◌∙◌, ◌≢◌, ◌↔◌, inl, inr, false, none, some, arith, ◌==◌, nat_eq,
  pair_eq, Bool-cases, Option-cases, beq_refl, length, Text, text_eq,
}
use sentinel_antivirus.Dict.{Dict, lookup, insert, lookup-insert}
use sentinel_antivirus.Canary.{deleted, CanaryTrap, System, inspect}

module _ (os : System) (document : Text → Text) where
  -- A trap at a resolved path that has its template's name, with the digest and the size of the
  -- document
  abbrev pub IsSound : CanaryTrap → Type 0
  IsSound t =
      (t.original_sha256 ≡ os.sha256_hex t.template.sample_content)
      × (t.original_size ≡ length t.template.sample_content)
      × (t.template.sample_content ≡ document (os.file_name t.path))
      × (os.resolve t.path ≡ t.path)
      × (is_empty t.path ≡ false)

  -- The files after the document of a trap is written
  abbrev pub rewrite_file : CanaryTrap → Dict Text Text → Dict Text Text
  rewrite_file t files = insert (os.resolve t.path) t.template.sample_content files

  pub inspect-written :
      (t : CanaryTrap) (files : Dict Text Text)
      → os.read_denied t.path ≡ false
      → IsSound t
      → lookup (os.resolve t.path) files ≡ some t.template.sample_content
      → inspect os t files ≡ none
  unfolding inspect
  inspect-written t files a s l =
      rw
        (
          inspect,
          l,
          a,
          s.0,
          s.1,
          ◌==◌,
          beq_refl text_eq (os.sha256_hex t.template.sample_content),
          beq_refl nat_eq (length t.template.sample_content),
        )
        refl

  inspect-lookup :
      (t : CanaryTrap) (files more : Dict Text Text)
      → lookup (os.resolve t.path) files ≡ lookup (os.resolve t.path) more
      → inspect os t files ≡ inspect os t more
  unfolding inspect
  inspect-lookup t files more e = rw (inspect, e) refl

  -- A clean trap stays clean when the document of another is written.
  pub inspect-rewrite_file :
      (t u : CanaryTrap) (files : Dict Text Text)
      → os.read_denied t.path ≡ false
      → IsSound t
      → IsSound u
      → inspect os t files ≡ none
      → inspect os t (rewrite_file u files) ≡ none
  inspect-rewrite_file t u files a s v h =
      elim (Bool-cases (os.resolve u.path == os.resolve t.path)) [
        | inl same ↦
            let path =
              sym v.3 ∙ (text_eq.beq_iff (os.resolve u.path) (os.resolve t.path)).0 same ∙ s.3 in
            let content = v.2 ∙ ap (λ p. document (os.file_name p)) path ∙ sym s.2 in
            inspect-written t (rewrite_file u files) a s (
              lookup-insert (os.resolve u.path) (os.resolve t.path) u.template.sample_content files
              ∙ rw same (ap some content))
        | inr other ↦
            inspect-lookup t (rewrite_file u files) files (
              lookup-insert (os.resolve u.path) (os.resolve t.path) u.template.sample_content files
              ∙ rw other refl)
            ∙ h
      ]

  inspect-gone :
      (t : CanaryTrap) (files : Dict Text Text)
      → lookup (os.resolve t.path) files ≡ none
      → inspect os t files ≢ none
  unfolding inspect
  inspect-gone t files gone clean =
      let found : inspect os t files ≡ some (deleted (os.file_name t.path)) =
        rw (inspect, gone) refl in
      absurd (cc)

  inspect-clean :
      (t : CanaryTrap) (files : Dict Text Text) {bytes : Text}
      → os.read_denied t.path ≡ false
      → lookup (os.resolve t.path) files ≡ some bytes
      → inspect os t files ≡ none
      → (os.sha256_hex bytes ≡ t.original_sha256) × (length bytes ≡ t.original_size)
  unfolding inspect
  inspect-clean t files {bytes} a there clean =
      elim (Bool-cases (os.sha256_hex bytes == t.original_sha256)) [
        | inr modified ↦ absurd (ground (arith, there, a, modified))
        | inl same ↦ elim (Bool-cases (length bytes == t.original_size)) [
          | inr resized ↦ absurd (ground (arith, there, a, same, resized))
          | inl fits ↦ (
            (text_eq.beq_iff (os.sha256_hex bytes) t.original_sha256).0 same,
            (nat_eq.beq_iff (length bytes) t.original_size).0 fits,
          )
        ]
      ]

  -- A sound trap that can be read counts as clean exactly when the file has the document, as long
  -- as no other content of the document's size has its digest.
  pub inspect_iff :
      (t : CanaryTrap) (files : Dict Text Text)
      → os.read_denied t.path ≡ false
      → ((bytes : Text)
          → length bytes ≡ length t.template.sample_content
          → os.sha256_hex bytes ≡ os.sha256_hex t.template.sample_content
          → bytes ≡ t.template.sample_content)
      → IsSound t
      → (inspect os t files ≡ none)
        ↔ (lookup (os.resolve t.path) files ≡ some t.template.sample_content)
  inspect_iff t files a unique s = (
    λ clean. elim (Option-cases (lookup (os.resolve t.path) files)) [
      | inl gone ↦ absurd (inspect-gone t files gone clean)
      | inr (bytes, there) ↦
          let (sha, size) = inspect-clean t files a there clean in
          there ∙ ap some (unique bytes (size ∙ s.1) (sha ∙ s.0))
    ],
    λ l. inspect-written t files a s l,
  )
