-- ===== src/Crypto/Usages.antt =====
-- crypto/usage_policy.go: which usages go to the public key and which to the private one.
use goja_ext.Prelude.{
  Bool, true, false, List, [], ◌∷◌, Bytes, codes, equal, if◌then◌else◌, All, Option, none, some,
  ◌≡◌, ◌≢◌,
}

-- A set of usages, as a list.
abbrev pub allows : List Bytes → Bytes → Bool
allows [] u = false
allows (a ∷ rest) u = if equal u a then true else allows rest u

unfoldable pub allowed_of : List Bytes → List Bytes → List Bytes
allowed_of allowed [] = []
allowed_of allowed (u ∷ us) =
    let rest = allowed_of allowed us in if allows allowed u then u ∷ rest else rest

abbrev pub or_all : List Bytes → List Bytes → List Bytes
or_all every [] = every
or_all every (u ∷ us) = u ∷ us

abbrev pub agreement : List Bytes
agreement = codes "deriveBits" ∷ codes "deriveKey" ∷ []

-- The sets of the public and of the private key.
abbrev pub signing : Option (List Bytes × List Bytes)
signing = some (codes "verify" ∷ [], codes "sign" ∷ [])

abbrev pub ciphering : Option (List Bytes × List Bytes)
ciphering = some (codes "encrypt" ∷ codes "wrapKey" ∷ [], codes "decrypt" ∷ codes "unwrapKey" ∷ [])

abbrev pub agreeing : Option (List Bytes × List Bytes)
agreeing = some (agreement, agreement)

-- For the algorithms that a function knows.
unfoldable pub rsa_sets : Bytes → Option (List Bytes × List Bytes)
rsa_sets algorithm =
    if equal algorithm (codes "RSASSA-PKCS1-V1_5")
    then signing
    else if equal algorithm (codes "RSA-PSS")
    then signing
    else if equal algorithm (codes "RSA-OAEP")
    then ciphering
    else if equal algorithm (codes "RSAES-PKCS1-V1_5")
    then ciphering
    else none

unfoldable pub ec_sets : Bytes → Option (List Bytes × List Bytes)
ec_sets algorithm =
    if equal algorithm (codes "ECDSA")
    then signing
    else if equal algorithm (codes "ECDH")
    then agreeing
    else none

unfoldable pub okp_sets : Bytes → Option (List Bytes × List Bytes)
okp_sets algorithm =
    if equal algorithm (codes "Ed25519")
    then signing
    else if equal algorithm (codes "X25519")
    then agreeing
    else none

-- The order in which the Go runtime goes over a map.
module _ (ranged : List Bytes → List Bytes) where
  abbrev pub split_by : Option (List Bytes × List Bytes) → List Bytes → List Bytes × List Bytes
  split_by none usages = ([], usages)
  split_by (some sets) usages = (
    or_all (ranged sets.0) (allowed_of sets.0 usages),
    or_all (ranged sets.1) (allowed_of sets.1 usages),
  )

  unfoldable pub split_rsa_usages : Bytes → List Bytes → List Bytes × List Bytes
  split_rsa_usages algorithm usages = split_by (rsa_sets algorithm) usages

  unfoldable pub split_ec_usages : Bytes → List Bytes → List Bytes × List Bytes
  split_ec_usages algorithm usages = split_by (ec_sets algorithm) usages

  unfoldable pub split_okp_usages : Bytes → List Bytes → List Bytes × List Bytes
  split_okp_usages algorithm usages = split_by (okp_sets algorithm) usages

-- The usages that are kept for a set: all of them allowed, at least one, and those that were asked for
-- where any of them is allowed.
pub record Suits (every asked given : List Bytes) : Type 0 where
  pub allowed : All (λ u. allows every u ≡ true) given
  pub some_usage : given ≢ []
  pub as_asked : allowed_of every asked ≢ [] → given ≡ allowed_of every asked

abbrev pub NotEmpty : List Bytes → Type 0
NotEmpty xs = (first : Bytes) × (rest : List Bytes) × (xs ≡ first ∷ rest)

abbrev AreFull : Option (List Bytes × List Bytes) → Type 0
AreFull none = Unit
AreFull (some sets) = NotEmpty sets.0 × NotEmpty sets.1

-- What going over a map promises: its keys, and one at least where it has one.
pub record IsRange (ranged : List Bytes → List Bytes) : Type 0 where
  pub keys : (xs : List Bytes) → All (λ u. allows xs u ≡ true) (ranged xs)
  pub goes_over : (xs : List Bytes) → NotEmpty xs → NotEmpty (ranged xs)

abbrev pub SuitBoth :
    Option (List Bytes × List Bytes) → List Bytes → List Bytes × List Bytes → Type 0
SuitBoth none asked given = given ≡ ([], asked)
SuitBoth (some sets) asked given = Suits sets.0 asked given.0 × Suits sets.1 asked given.1
