-- ===== src/Tests/Messages.antt =====
-- src/tm_process.h and src/tm_process.c on small messages.
use tracemate.Base.{Option, none, some, Bytes, codes, if◌then◌else◌}
use tracemate.CString.{equal}

-- Three objects: the message, its metadata, and the version.
data Piece : Type 0 where
  message metadata version : Piece

abbrev piece_of : Piece → Bytes → Option Piece
piece_of message name = if equal name (codes "@metadata") then some metadata else none
piece_of metadata name = if equal name (codes "version") then some version else none
piece_of version name = none
