-- ===== src/Registry/Reference.antt =====
-- pkg/registry/reference.go: tags and digests. `digest.ParseDigest` is the library
-- github.com/docker/distribution; a digest is its text.
use deviced.Base.{
  ◌++◌, Option, none, some, Bool, true, false, Bytes, codes, contains, if◌then◌else◌, ◌≡◌, ◌↔◌,
  refl, arith, Bool-cases, Option-cases, inl, inr,
}

pub data Reference : Type 0 where
  tag_reference : Bytes → Reference
  digest_reference : Bytes → Reference

unfoldable pub has_digest : Reference → Bool
has_digest (tag_reference tag) = false
has_digest (digest_reference digest) = true

unfoldable pub image_name : Reference → Bytes → Bytes
image_name (tag_reference tag) repo = repo ++ (codes ":" ++ tag)
image_name (digest_reference digest) repo = repo ++ (codes "@" ++ digest)

unfoldable pub reference_string : Reference → Bytes
reference_string (tag_reference tag) = tag
reference_string (digest_reference digest) = digest

unfoldable pub parse_reference : (Bytes → Option Bytes) → Bytes → Reference
parse_reference parse_digest ref =
    if contains (codes ":") ref
    then elim (parse_digest ref) [ none ↦ tag_reference ref | some dgst ↦ digest_reference dgst ]
    else tag_reference ref

-- If the digest library gives back the text that it accepts, a parsed reference prints as the text,
-- and has a digest exactly if the text has a colon and the library accepts it; so its image name
-- separates the two by `@` or by a colon.
pub parse_reference-string :
    (parse_digest : Bytes → Option Bytes) (ref : Bytes)
    → ((d : Bytes) → parse_digest ref ≡ some d → d ≡ ref)
    → (reference_string (parse_reference parse_digest ref) ≡ ref)
      × ((has_digest (parse_reference parse_digest ref) ≡ true)
          ↔ ((contains (codes ":") ref ≡ true) × (parse_digest ref ≡ some ref)))
unfolding reference_string parse_reference has_digest
parse_reference-string parse_digest ref same = elim (Bool-cases (contains (codes ":") ref)) [
  | inr n ↦ rw n (refl, ((λ h. absurd (ground arith)), (λ (h, _). absurd (ground arith))))
  | inl y ↦ elim (Option-cases (parse_digest ref)) [
    | inl e ↦
        rw (y, e, parse_reference)
          (refl, ((λ h. absurd (ground arith)), (λ (_, h). absurd (ground arith))))
    | inr (d, e) ↦
        let q = same d e in rw (y, e, parse_reference, q) (refl, ((λ _. (refl, refl)), (λ _. refl)))
  ]
]
