-- ===== src/Status.antt =====
-- `Status` of anicetus.go. No code makes another integer a `Status`, so the `default` of `String`
-- has no case here.
use Prim.Native.String.{String}

pub data Status : Type 0 where
  none failed process wait open_gates : Status

unfoldable pub to_string : Status → String
to_string none = "none"
to_string failed = "failed"
to_string process = "process"
to_string wait = "wait"
to_string open_gates = "open-gates"
