-- ===== src/Tests/VerifierRuns.antt =====
-- Messages signed with a digest of two bytes, over an encoding that changes nothing.
use anycable.Prelude.{ℕ, ◌+◌, ◌≡◌, refl, Option, some, List, [], ◌∷◌, ◌++◌, length, contains}
use anycable.Utils.MessageVerifier.{
  separator, verified_as, verify_signature, validate, split, generate, verified,
}
use anycable.Utils.MessageVerifier.Signed.{IsReadable, verified-generate, verified-signed}

abbrev digest_of : List ℕ → List ℕ
digest_of sent = 48 ∷ (48 + length sent) ∷ []

abbrev keep : List ℕ → Option (List ℕ)
keep json = some json

abbrev same : List ℕ → List ℕ
same json = json

abbrev payload : List ℕ
payload = 104 ∷ 105 ∷ []

payload-IsReadable : IsReadable digest_of keep keep same keep payload payload
unfolding contains
payload-IsReadable = record {
  written = refl;
  decoded = refl;
  read = refl;
  encoded = refl;
  digest = refl;
}

verified-generate_example :
    (msg : List ℕ) × (generate digest_of keep keep same keep payload ≡ some msg)
    × (verified digest_of keep keep same keep msg ≡ verified_as payload)
verified-generate_example =
    verified-generate digest_of keep keep same keep payload payload payload-IsReadable

abbrev signed_message : List ℕ
signed_message = 104 ∷ 105 ∷ 45 ∷ 45 ∷ 48 ∷ 50 ∷ []

passes : verified digest_of keep keep same keep signed_message ≡ verified_as payload
unfolding verified validate split verify_signature
passes = refl

verified-signed_example :
    (sent json : List ℕ) × (signed_message ≡ sent ++ separator ++ digest_of sent)
    × (◌≡◌ {A = Option (List ℕ)} (some sent) (some json))
    × (◌≡◌ {A = Option (List ℕ)} (some json) (some payload))
verified-signed_example =
    verified-signed digest_of keep keep same keep signed_message payload passes
