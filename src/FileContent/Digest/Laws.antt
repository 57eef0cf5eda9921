-- ===== src/FileContent/Digest/Laws.antt =====
-- What the content evidence of one side comes from.
use Prim.Native.String.{len}
use piace.Base.{
  ℕ, String, Bool, true, false, not, Option, none, some, ◌≡◌, refl, sym, ap, if◌then◌else◌, lookup,
  string_eq, nat_eq, nat_eq_iff,
}
use piace.Base.Text.{to_lower, is_hex, braced}
use piace.FileContent.{DigestEvidence, EvidenceError, ok, err, Retriever, Side}
use piace.FileContent.Digest.{
  digest_lengths, strip_prefix, checked, validated, validate_digest, resolve_side,
}

-- The evidence of a side of a historical catalog does not depend on the compiler's file server: it
-- is the one that a run without a file server gives.
pub resolve_side-historical :
    (hash : String → String) (certname : String) (side : Side) (retriever : Option Retriever)
    → side.context.historical ≡ true
    → resolve_side hash certname side retriever ≡ resolve_side hash certname side none
unfolding resolve_side
resolve_side-historical hash certname side retriever h = rw h refl

-- The algorithm is this one, and the digest is the lower case of `n` hexadecimal digits.
abbrev pub IsChecked : String → ℕ → DigestEvidence → Type 0
IsChecked algorithm n d =
    (d.algorithm ≡ algorithm)
    × ((value : String) × (d.digest ≡ to_lower value) × (len value ≡ n) × (is_hex value ≡ true))

both_checks :
    (b c : Bool) (e d : DigestEvidence)
    → (if not b
        then err EvidenceError.invalid_checksum
        else if c
        then ok e
        else err EvidenceError.invalid_checksum)
      ≡ ok d
    → (b ≡ true) × (c ≡ true) × (e ≡ d)
both_checks true true e d h = (refl, refl, cc)
both_checks true false e d h = absurd cc
both_checks false c e d h = absurd cc

checked-IsChecked :
    (algorithm : String) (n : ℕ) (o : Option String) (d : DigestEvidence)
    → checked algorithm n o ≡ ok d
    → IsChecked algorithm n d
unfolding checked
checked-IsChecked algorithm n none d h = absurd cc
checked-IsChecked algorithm n (some value) d h =
    let (p, q, e) =
      both_checks (nat_eq (len value) n) (is_hex value)
        (record { algorithm = algorithm; digest = to_lower value }) d h in
    (
      ap (λ x. x.algorithm) (sym e),
      (value, ap (λ x. x.digest) (sym e), (nat_eq_iff (len value) n).0 p, q),
    )

validated-IsChecked :
    (algorithm value : String) (o : Option ℕ) (d : DigestEvidence)
    → validated algorithm value o ≡ ok d
    → (n : ℕ) × (o ≡ some n) × IsChecked algorithm n d
unfolding validated
validated-IsChecked algorithm value none d h = absurd cc
validated-IsChecked algorithm value (some n) d h =
    (n, refl, checked-IsChecked algorithm n (strip_prefix algorithm value (braced value)) d h)

-- A digest that is accepted names its algorithm in lower case, the table has that algorithm, and
-- the digest is the lower case of a text of hexadecimal digits as long as the table says.
pub validate_digest-shape :
    (algorithm value : String) (d : DigestEvidence)
    → validate_digest algorithm value ≡ ok d
    → (n : ℕ) × (lookup (to_lower algorithm) digest_lengths ≡ some n)
      × IsChecked (to_lower algorithm) n d
unfolding validate_digest
validate_digest-shape algorithm value d h =
    validated-IsChecked (to_lower algorithm) value (lookup (to_lower algorithm) digest_lengths) d h
