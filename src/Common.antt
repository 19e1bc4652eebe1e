-- ===== src/Common.antt =====
-- common/common.go: the messages that the parts of the program exchange. `Json` is what
-- `encoding/json` decodes into an `interface{}`; its decoder is a parameter, as the code only
-- passes the value on, and takes `none` (no value, or JSON null) as the sign to send the text.
pub mod Env
use anycable.Prelude.{
  ℕ, Bool, true, false, Option, none, some, List, String, if◌then◌else◌, string_eq, ◌==◌,
}

pub record StreamMessageMetadata : Type 0 where
  pub exclude_socket : String
  pub broadcast_type : String
  pub transient : Bool

pub record StreamMessage : Type 0 where
  pub stream : String
  pub payload : String
  pub meta : Option StreamMessageMetadata
  pub offset : ℕ
  pub epoch : String

pub data Content (Json : Type 0) : Type 0 where
  decoded : Json → Content Json
  text : String → Content Json

-- The fields of `Reply` that a stream message fills.
pub record Reply (Json : Type 0) : Type 0 where
  pub reply_type : String
  pub identifier : String
  pub message : Content Json
  pub stream_id : String
  pub epoch : String
  pub offset : ℕ

module _ {Json : Type 0} (unmarshal : String → Option Json) where
  unfoldable pub content : String → Content Json
  content payload = elim (unmarshal payload) [ none ↦ text payload | some v ↦ decoded v ]

  unfoldable pub to_reply_for : StreamMessage → String → Reply Json
  unfolding content
  to_reply_for sm identifier = record {
    reply_type = "";
    identifier = identifier;
    message = content sm.payload;
    stream_id = if sm.epoch == "" then "" else sm.stream;
    epoch = sm.epoch;
    offset = sm.offset;
  }
