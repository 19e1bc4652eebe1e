-- ===== src/Tests/StreamRuns.antt =====
-- Signed streams: the identifier "id" names the stream "s" under the signature "sig".
use anycable.Prelude.{true, false, Option, none, some, String, string_eq, ◌==◌, if◌then◌else◌}
use anycable.Streams.{Config, subscribe}
use anycable.Streams.Access.{Answered, subscribe-Grants}

abbrev decode : String → Option (String × String)
decode id = if id == "id" then some ("", "sig") else if id == "open" then some ("s", "") else none

abbrev check : String → Option (Option String)
check signed = if signed == "sig" then some (some "s") else none

abbrev yes : String → String
yes id = "confirmed"

abbrev no : String → String
no id = "rejected"

abbrev conf : Config
conf = record { public = false; whisper = true; presence = false }

subscribe-Grants_example :
    Answered decode check conf "id" "confirmed" "rejected"
      (subscribe decode check {Info = String} yes no conf "id")
subscribe-Grants_example = subscribe-Grants decode check {Info = String} yes no conf "id"
