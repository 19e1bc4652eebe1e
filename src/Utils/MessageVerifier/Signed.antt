-- ===== src/Utils/MessageVerifier/Signed.antt =====
-- utils/message_verifier.go: the messages that pass are those that were signed.
use anycable.Prelude.{
  ℕ, ◌≡◌, refl, sym, ap, ◌∙◌, subst, true, false, ◌&&◌, Option, none, some, List, [], ◌∷◌, ◌++◌,
  arith, if_true, if_false, nat_beq, nat_beq_iff, nat_eq, contains, Bool-cases, Option-cases, inl,
  inr,
}
use anycable.Utils.MessageVerifier.{
  dash, separator, same_bytes, push_byte, split, VerifyError, Verification, verified_as, unverified,
  not_decoded, not_json, verify_signature, validate_parts, validate, generate, first_part, verified,
}

same_bytes-same : (xs ys : List ℕ) → same_bytes xs ys ≡ true → xs ≡ ys
same_bytes-same [] [] e = refl
same_bytes-same [] (y ∷ ys) e = ground (arith, e)
same_bytes-same (x ∷ xs) [] e = ground (arith, e)
same_bytes-same (x ∷ xs) (y ∷ ys) e = ground (arith, e, nat_beq_iff x y, same_bytes-same xs ys)

same_bytes_refl : (xs : List ℕ) → same_bytes xs xs ≡ true
same_bytes_refl [] = refl
same_bytes_refl (x ∷ xs) = ground (arith, same_bytes_refl xs)

-- The parts with the separator between them.
join : List (List ℕ) → List ℕ
join [] = []
join (part ∷ []) = part
join (part ∷ next ∷ parts) = part ++ separator ++ join (next ∷ parts)

join-push_byte : (c : ℕ) (parts : List (List ℕ)) → join (push_byte c parts) ≡ c ∷ join parts
unfolding join
join-push_byte c [] = refl
join-push_byte c (part ∷ []) = refl
join-push_byte c (part ∷ next ∷ parts) = refl

-- There is always a part.
split_cons : (msg : List ℕ) → (part : List ℕ) × (parts : List (List ℕ)) × (split msg ≡ part ∷ parts)
unfolding split
split_cons [] = ([], [], refl)
split_cons (a ∷ []) = (a ∷ [], [], refl)
split_cons (a ∷ b ∷ rest) = elim (Bool-cases (nat_beq a dash && nat_beq b dash)) [
  | (inl e) ↦ ([], split rest, if_true _ _ _ e)
  | (inr e) ↦
      let (part, parts, eq) = split_cons (b ∷ rest) in
      (a ∷ part, parts, if_false _ _ _ e ∙ ap (push_byte a) eq)
]

join-split : (msg : List ℕ) → join (split msg) ≡ msg
unfolding split join
join-split [] = refl
join-split (a ∷ []) = refl
join-split (a ∷ b ∷ rest) = elim (Bool-cases (nat_beq a dash && nat_beq b dash)) [
  | (inl e) ↦
      let (part, parts, eq) = split_cons rest in
      let whole : separator ++ join (split rest) ≡ a ∷ b ∷ rest =
        ground (arith, e, join-split rest, nat_beq_iff a dash, nat_beq_iff b dash) in
      let opened : join ([] ∷ split rest) ≡ separator ++ join (split rest) =
        subst (λ after. join ([] ∷ after) ≡ separator ++ join after) (sym eq) refl in
      ap join (if_true _ _ _ e) ∙ opened ∙ whole
  | (inr e) ↦
      ap join (if_false _ _ _ e)
      ∙ join-push_byte a (split (b ∷ rest))
      ∙ ap (λ bs. a ∷ bs) (join-split (b ∷ rest))
]

-- A string without a dash is one part.
split_plain : (ys : List ℕ) → contains dash ys ≡ false → split ys ≡ ys ∷ []
unfolding split contains
split_plain [] free = refl
split_plain (y ∷ []) free = refl
split_plain (y ∷ z ∷ ys) free =
    let rest = split_plain (z ∷ ys) (ground (arith, free)) in ground (arith, free, rest)

split-separator :
    (xs ys : List ℕ)
    → contains dash xs ≡ false
    → contains dash ys ≡ false
    → split (xs ++ separator ++ ys) ≡ xs ∷ ys ∷ []
unfolding split contains
split-separator [] ys free plain = ap (λ parts. [] ∷ parts) (split_plain ys plain)
split-separator (x ∷ []) ys free plain =
    let rest = split-separator [] ys refl plain in ground (arith, free, rest)
split-separator (x ∷ z ∷ xs) ys free plain =
    let rest = split-separator (z ∷ xs) ys (ground (arith, free)) plain in
    ground (arith, free, rest)

module _ (sign : List ℕ → List ℕ) where
  validate-separator :
      (xs ys : List ℕ)
      → validate sign (xs ++ separator ++ ys) ≡ validate_parts sign (split (xs ++ separator ++ ys))
  unfolding validate
  validate-separator [] ys = refl
  validate-separator (x ∷ xs) ys = refl

  -- The parts of what passes.
  validate_parts-signed :
      (parts : List (List ℕ))
      → validate_parts sign parts ≡ none
      → (payload : List ℕ) × (parts ≡ payload ∷ sign payload ∷ [])
  unfolding verify_signature
  validate_parts-signed [] e = ground (arith, e)
  validate_parts-signed (p ∷ []) e = ground (arith, e)
  validate_parts-signed (p ∷ q ∷ r ∷ parts) e = ground (arith, e)
  validate_parts-signed (p ∷ q ∷ []) e = elim (Bool-cases (same_bytes (sign p) q)) [
    | (inl same) ↦ (p, ap (λ digest. p ∷ digest ∷ []) (sym (same_bytes-same (sign p) q same)))
    | (inr other) ↦ ground (arith, e, other)
  ]

  validate-signed :
      (msg : List ℕ)
      → validate sign msg ≡ none
      → (payload : List ℕ) × (split msg ≡ payload ∷ sign payload ∷ [])
  unfolding validate
  validate-signed [] e = ground (arith, e)
  validate-signed (c ∷ msg) e = validate_parts-signed (split (c ∷ msg)) e

  module _ {A : Type 0} (marshal : A → Option (List ℕ)) (unmarshal : List ℕ → Option A)
      (encode : List ℕ → List ℕ) (decode : List ℕ → Option (List ℕ)) where
    -- What the libraries promise for one payload: base64 and JSON read what they wrote, and neither
    -- base64 nor the hexadecimal digest has a dash.
    pub record IsReadable (payload : A) (json : List ℕ) : Type 0 where
      pub written : marshal payload ≡ some json
      pub decoded : decode (encode json) ≡ some json
      pub read : unmarshal json ≡ some payload
      pub encoded : contains dash (encode json) ≡ false
      pub digest : contains dash (sign (encode json)) ≡ false

    abbrev read_json : Option (List ℕ) → Verification A
    read_json none = not_decoded
    read_json (some json) = elim (unmarshal json) [ none ↦ not_json | some a ↦ verified_as a ]

    abbrev read_value : Option A → Verification A
    read_value none = not_json
    read_value (some a) = verified_as a

    abbrev after : List (List ℕ) → Option VerifyError → Verification A
    after parts (some e) = unverified e
    after parts none = read_json (decode (first_part parts))

    -- When JSON and base64 read back what they wrote for a payload, and neither its base64 nor the
    -- digest of that has a dash, Generate makes a message of the payload that Verified reads as the
    -- payload.
    pub verified-generate :
        (payload : A) (json : List ℕ)
        → IsReadable payload json
        → (msg : List ℕ) × (generate sign marshal unmarshal encode decode payload ≡ some msg)
          × (verified sign marshal unmarshal encode decode msg ≡ verified_as payload)
    unfolding generate verified verify_signature
    verified-generate payload json ok =
        let xs = encode json in
        let ys = sign xs in
        let msg = xs ++ separator ++ ys in
        let parts : split msg ≡ xs ∷ ys ∷ [] = split-separator xs ys ok.encoded ok.digest in
        let passes : validate sign msg ≡ none =
          validate-separator xs ys
          ∙ ap (validate_parts sign) parts
          ∙ if_true (same_bytes ys ys) _ _ (same_bytes_refl ys) in
        (
          msg,
          ap
              (λ (o : Option (List ℕ)). elim o [
                | none ↦ none
                | some j ↦ some (encode j ++ separator ++ sign (encode j))
              ])
              ok.written,
          ap (after (split msg)) passes
              ∙ ap (λ ps. read_json (decode (first_part ps))) parts
              ∙ ap read_json ok.decoded
              ∙ ap read_value ok.read,
        )

    -- A message that Verified accepts is a payload, the separator and the payload's own signature,
    -- and the value returned is what the payload decodes to, whatever the digest, base64 and JSON
    -- are.
    pub verified-signed :
        (msg : List ℕ) (a : A)
        → verified sign marshal unmarshal encode decode msg ≡ verified_as a
        → (payload json : List ℕ) × (msg ≡ payload ++ separator ++ sign payload)
          × (decode payload ≡ some json)
          × (unmarshal json ≡ some a)
    unfolding verified join
    verified-signed msg a e = elim (Option-cases (validate sign msg)) [
      | (inr (why, refused)) ↦ ground (arith, sym (ap (after (split msg)) refused) ∙ e)
      | (inl passes) ↦
          let (payload, parts) = validate-signed msg passes in
          let whole : msg ≡ payload ++ separator ++ sign payload =
            sym (join-split msg) ∙ ap join parts in
          let reads : read_json (decode payload) ≡ verified_as a =
            sym
              (ap (after (split msg)) passes ∙ ap (λ ps. read_json (decode (first_part ps))) parts)
            ∙ e in
          elim (Option-cases (decode payload)) [
            | (inl bad) ↦ ground (arith, sym (ap read_json bad) ∙ reads)
            | (inr (json, decoded)) ↦
                let value : read_value (unmarshal json) ≡ verified_as a =
                  sym (ap read_json decoded) ∙ reads in
                elim (Option-cases (unmarshal json)) [
                  | (inl bad) ↦ ground (arith, sym (ap read_value bad) ∙ value)
                  | (inr (b, given)) ↦
                      let same : b ≡ a = ground (arith, sym (ap read_value given) ∙ value) in
                      (payload, json, whole, decoded, given ∙ ap (λ (x : A). some x) same)
                ]
          ]
    ]
