-- ===== src/Encoders.antt =====
-- encoders/encoding_cache.go: the frames of one message, one for each encoder, made when they are
-- first asked for. A frame may be nil, which is `none`.
pub mod Once
use anycable.Prelude.{
  Bool, true, false, Option, none, some, List, [], ◌∷◌, String, string_eq, ◌==◌, if◌then◌else◌,
}
use anycable.Prelude.Dict.{Dict, lookup, insert, has}

-- What an encoding function comes back with.
pub data Encoding (Frame Err : Type 0) : Type 0 where
  encoded : Option Frame → Encoding Frame Err
  failed : Err → Encoding Frame Err

pub record EncodingCache (Frame Err : Type 0) : Type 0 where
  pub encoded_bytes : Dict String (Option Frame)
  pub encoder_errors : Dict String Err

-- A frame, or the decorated error: `none` where the cache holds no error to decorate.
pub data Fetched (Frame Err : Type 0) : Type 0 where
  frame : Frame → Fetched Frame Err
  no_frame : Option Err → Fetched Frame Err

abbrev pub joined : {Frame : Type 0} → Option (Option Frame) → Option Frame
joined none = none
joined (some b) = b

module _ {Frame Err : Type 0} where
  abbrev pub new_encoding_cache : EncodingCache Frame Err
  new_encoding_cache = record { encoded_bytes = []; encoder_errors = [] }

  -- The cache after `callback`, whose result is given, has been called.
  pub remember : EncodingCache Frame Err → String → Encoding Frame Err → EncodingCache Frame Err
  remember m encoder (encoded b) = record m { encoded_bytes = insert encoder b m.encoded_bytes }
  remember m encoder (failed e) = record m {
    encoded_bytes = insert encoder none m.encoded_bytes;
    encoder_errors = insert encoder e m.encoder_errors;
  }

  pub read : EncodingCache Frame Err → String → Fetched Frame Err
  read m encoder = elim (joined (lookup encoder m.encoded_bytes)) [
    | none ↦ no_frame (lookup encoder m.encoder_errors)
    | some b ↦ frame b
  ]

  -- The cache, the answer, and whether `callback` was called.
  pub fetch :
      EncodingCache Frame Err
      → String
      → Encoding Frame Err
      → EncodingCache Frame Err × Fetched Frame Err × Bool
  unfolding remember read
  fetch m encoder result =
      if has encoder m.encoded_bytes
      then (m, read m encoder, false)
      else (remember m encoder result, read (remember m encoder result) encoder, true)
