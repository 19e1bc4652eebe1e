-- ===== src/Encoders/Once.antt =====
-- `Fetch` of encoders/encoding_cache.go, over any sequence of requests for one message: the answers
-- are those of the encoding functions, and each function is called at most once.
use anycable.Prelude.{
  ◌≡◌, refl, ◌∙◌, true, false, ◌||◌, none, some, List, [], ◌∷◌, String, string_eq, ◌==◌, contains,
  if◌then◌else◌, arith, Bool-cases, inl, inr, map,
}
use anycable.Prelude.Dict.{lookup, has, lookup-insert}
use anycable.Encoders.{
  Encoding, encoded, failed, EncodingCache, Fetched, frame, no_frame, new_encoding_cache, remember,
  read, fetch,
}

abbrev pub NoRepeats : List String → Type 0
NoRepeats [] = Unit {0}
NoRepeats (x ∷ xs) = (contains x xs ≡ false) × NoRepeats xs

module _ {Frame Err : Type 0} where
  -- The answer without a cache.
  abbrev pub answer : Encoding Frame Err → Fetched Frame Err
  answer (encoded none) = no_frame none
  answer (encoded (some b)) = frame b
  answer (failed e) = no_frame (some e)

  read-remember :
      (m : EncodingCache Frame Err) (encoder other : String) (result : Encoding Frame Err)
      → lookup encoder m.encoder_errors ≡ none
      → read (remember m encoder result) other
        ≡ (if encoder == other then answer result else read m other)
  unfolding read remember
  read-remember m encoder other (encoded none) h =
      ground (
        arith,
        h,
        lookup-insert encoder other none m.encoded_bytes,
        string_eq.beq_iff encoder other,
      )
  read-remember m encoder other (encoded (some b)) h = ground (
    arith,
    h,
    lookup-insert encoder other (some b) m.encoded_bytes,
    string_eq.beq_iff encoder other,
  )
  read-remember m encoder other (failed e) h = ground (
    arith,
    lookup-insert encoder other none m.encoded_bytes,
    lookup-insert encoder other e m.encoder_errors,
    string_eq.beq_iff encoder other,
  )

  has-remember :
      (m : EncodingCache Frame Err) (encoder other : String) (result : Encoding Frame Err)
      → has other (remember m encoder result).encoded_bytes
        ≡ encoder == other || has other m.encoded_bytes
  unfolding remember
  has-remember m encoder other (encoded b) =
      ground (arith, lookup-insert encoder other b m.encoded_bytes)
  has-remember m encoder other (failed e) =
      ground (arith, lookup-insert encoder other none m.encoded_bytes)

  errors-remember :
      (m : EncodingCache Frame Err) (encoder other : String) (result : Encoding Frame Err)
      → (encoder == other) ≡ false
      → lookup other (remember m encoder result).encoder_errors ≡ lookup other m.encoder_errors
  unfolding remember
  errors-remember m encoder other (encoded b) h = refl
  errors-remember m encoder other (failed e) h =
      ground (arith, lookup-insert encoder other e m.encoder_errors, h)

  fetch_known :
      (m : EncodingCache Frame Err) (encoder : String) (result : Encoding Frame Err)
      → has encoder m.encoded_bytes ≡ true
      → fetch m encoder result ≡ (m, read m encoder, false)
  unfolding fetch
  fetch_known m encoder result h = rw (h, fetch) refl

  fetch_new :
      (m : EncodingCache Frame Err) (encoder : String) (result : Encoding Frame Err)
      → has encoder m.encoded_bytes ≡ false
      → fetch m encoder result
        ≡ (remember m encoder result, read (remember m encoder result) encoder, true)
  unfolding fetch
  fetch_new m encoder result h = rw (h, fetch) refl

  module _ (callback : String → Encoding Frame Err) where
    -- Requests in order, each naming its encoder: the cache, the answers, and the calls made.
    pub fetch_all :
        EncodingCache Frame Err
        → List String
        → EncodingCache Frame Err × List (Fetched Frame Err) × List String
    unfolding fetch
    fetch_all m [] = (m, [], [])
    fetch_all m (encoder ∷ encoders) =
        let (m', got, called) = fetch m encoder (callback encoder) in
        let (m'', rest, calls) = fetch_all m' encoders in
        (m'', got ∷ rest, if called then encoder ∷ calls else calls)

    -- What the cache holds is what the functions give, and an error only of a function that failed.
    record IsFaithful (m : EncodingCache Frame Err) : Type 0 where
      known :
          (encoder : String)
          → has encoder m.encoded_bytes ≡ true
          → read m encoder ≡ answer (callback encoder)
      errors :
          (encoder : String)
          → has encoder m.encoded_bytes ≡ false
          → lookup encoder m.encoder_errors ≡ none

    remember-IsFaithful :
        (m : EncodingCache Frame Err) (encoder : String)
        → IsFaithful m
        → has encoder m.encoded_bytes ≡ false
        → IsFaithful (remember m encoder (callback encoder))
    remember-IsFaithful m encoder v h = record {
      known = λ other k. ground (
        arith,
        k,
        read-remember m encoder other (callback encoder) (v.errors encoder h),
        has-remember m encoder other (callback encoder),
        v.known other,
        string_eq.beq_iff encoder other,
      );
      errors = λ other k. ground (
        arith,
        k,
        has-remember m encoder other (callback encoder),
        errors-remember m encoder other (callback encoder),
        v.errors other,
      );
    }

    -- How often each function has been called, with what the cache already holds.
    abbrev CallsOnce : EncodingCache Frame Err → List String → Type 0
    CallsOnce m calls = (x : String) → has x m.encoded_bytes ≡ true → contains x calls ≡ false

    empty-IsFaithful : IsFaithful new_encoding_cache
    unfolding lookup
    empty-IsFaithful = record { known = λ encoder k. cc k; errors = λ encoder k. refl }

    fetch_all-faithful :
        (encoders : List String) (m : EncodingCache Frame Err)
        → IsFaithful m
        → ((fetch_all m encoders).1 ≡ map (λ x. answer (callback x)) encoders)
          × NoRepeats (fetch_all m encoders).2
          × CallsOnce m (fetch_all m encoders).2
    unfolding fetch_all fetch contains
    fetch_all-faithful [] m v = (refl, tt, λ x h. refl)
    fetch_all-faithful (encoder ∷ encoders) m v = elim (Bool-cases (has encoder m.encoded_bytes)) [
      | inl old ↦
          let (a, n, c) = fetch_all-faithful encoders m v in
          rw (fetch_known m encoder (callback encoder) old) (rw (v.known encoder old, a) refl, n, c)
      | inr new ↦
          let m' = remember m encoder (callback encoder) in
          let (a, n, c) = fetch_all-faithful encoders m' (remember-IsFaithful m encoder v new) in
          let own : read m' encoder ≡ answer (callback encoder) = ground (
            arith,
            read-remember m encoder encoder (callback encoder) (v.errors encoder new),
            string_eq.beq_iff encoder encoder,
          ) in
          let held : has encoder m'.encoded_bytes ≡ true = ground (
            arith,
            has-remember m encoder encoder (callback encoder),
            string_eq.beq_iff encoder encoder,
          ) in
          rw (fetch_new m encoder (callback encoder) new) (
            rw (own, a) refl,
            (c encoder held, n),
            λ x h. ground (
              arith,
              h,
              new,
              c x (has-remember m encoder x (callback encoder) ∙ ground (arith, h)),
              string_eq.beq_iff encoder x,
            ),
          )
    ]

    -- However often the frames of one message are asked for, each answer is that of the encoding
    -- function of its encoder, and no encoding function is called twice.
    pub fetch_all_once :
        (encoders : List String)
        → ((fetch_all new_encoding_cache encoders).1 ≡ map (λ x. answer (callback x)) encoders)
          × NoRepeats (fetch_all new_encoding_cache encoders).2
    fetch_all_once encoders =
        let (a, n, c) = fetch_all-faithful encoders new_encoding_cache empty-IsFaithful in (a, n)
