-- ===== src/Utils/MessageVerifier.antt =====
-- utils/message_verifier.go: messages with a signature. A string is the list of its bytes. The HMAC in
-- hexadecimal (`sign`), base64 and JSON are parameters; what the code checks of their errors is kept.
pub mod Signed
use anycable.Prelude.{
  ℕ, zero, suc, Bool, true, false, not, ◌&&◌, Option, none, some, List, [], ◌∷◌, ◌++◌,
  if◌then◌else◌, nat_beq,
}

-- The byte of "-", and the separator.
abbrev pub dash : ℕ
dash = 45

abbrev pub separator : List ℕ
separator = dash ∷ dash ∷ []

abbrev pub same_bytes : List ℕ → List ℕ → Bool
same_bytes [] [] = true
same_bytes [] (y ∷ ys) = false
same_bytes (x ∷ xs) [] = false
same_bytes (x ∷ xs) (y ∷ ys) = nat_beq x y && same_bytes xs ys

abbrev pub push_byte : ℕ → List (List ℕ) → List (List ℕ)
push_byte c [] = (c ∷ []) ∷ []
push_byte c (part ∷ parts) = (c ∷ part) ∷ parts

-- strings.Split(msg, "--"): the separators are found from the left and do not overlap.
unfoldable pub split : List ℕ → List (List ℕ)
split [] = [] ∷ []
split (a ∷ []) = (a ∷ []) ∷ []
split (a ∷ b ∷ rest) =
    let after = split rest in
    let next = split (b ∷ rest) in
    if nat_beq a dash && nat_beq b dash then [] ∷ after else push_byte a next

pub data VerifyError : Type 0 where
  empty_message : VerifyError
  wrong_parts : List (List ℕ) → VerifyError
  invalid_signature : VerifyError

pub data Verification (A : Type 0) : Type 0 where
  verified_as : A → Verification A
  unverified : VerifyError → Verification A
  not_decoded : Verification A
  not_json : Verification A

abbrev pub first_part : List (List ℕ) → List ℕ
first_part [] = []
first_part (part ∷ parts) = part

module _ (sign : List ℕ → List ℕ) where
  unfoldable pub verify_signature : List ℕ → List ℕ → Bool
  verify_signature payload digest = same_bytes (sign payload) digest

  abbrev pub validate_parts : List (List ℕ) → Option VerifyError
  validate_parts (payload ∷ digest ∷ []) =
      if verify_signature payload digest then none else some invalid_signature
  validate_parts parts = some (wrong_parts parts)

  -- `none` is no error.
  unfoldable pub validate : List ℕ → Option VerifyError
  unfolding split
  validate [] = some empty_message
  validate (c ∷ msg) = validate_parts (split (c ∷ msg))

  module _ {A : Type 0} (marshal : A → Option (List ℕ)) (unmarshal : List ℕ → Option A)
      (encode : List ℕ → List ℕ) (decode : List ℕ → Option (List ℕ)) where
    unfoldable pub generate : A → Option (List ℕ)
    generate payload = elim (marshal payload) [
      | none ↦ none
      | some json ↦ some (encode json ++ separator ++ sign (encode json))
    ]

    unfoldable pub verified : List ℕ → Verification A
    unfolding validate
    verified msg = elim (validate msg) [
      | some e ↦ unverified e
      | none ↦ elim (decode (first_part (split msg))) [
        | none ↦ not_decoded
        | some json ↦ elim (unmarshal json) [ none ↦ not_json | some a ↦ verified_as a ]
      ]
    ]
