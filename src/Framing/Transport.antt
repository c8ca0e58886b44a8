-- ===== src/Framing/Transport.antt =====
-- Where the frames go: `sendMessage`, `isReady` and the error texts. The written count and the
-- states of the process and the sockets come from Qt.
use quick_desk.Base.{
  ℕ, ℤ, pos, negsuc, ◌≡◌, Bool, true, false, ◌&&◌, List, [], ◌∷◌, String, arith, if◌then◌else◌,
  nat_eqb, length, Option, none, some,
}
use quick_desk.Framing.Stream.{Json, encode_message}

-- `m_process`, or the two sockets, or neither.
pub data Transport : Type 0 where
  process : Bool → Transport
  sockets : Bool → Bool → Transport
  absent : Transport

pub data SendError : Type 0 where
  process_not_running socket_not_connected no_transport : SendError
  short_write : ℤ → ℕ → SendError

pub record Sent : Type 0 where
  pub written_bytes : List ℕ
  pub errors : List SendError

-- The check after the write; `none` is a failed write, whose count is -1.
unfoldable pub check_written : List ℕ → Option ℕ → List SendError
check_written encoded none = short_write (negsuc 0) (length encoded) ∷ []
check_written encoded (some n) =
    if nat_eqb n (length encoded) then [] else short_write (pos n) (length encoded) ∷ []

-- `write` is the answer of QIODevice::write to the encoded bytes.
unfoldable pub send_message : (json : Json) → (List ℕ → Option ℕ) → Transport → json.Object → Sent
unfolding check_written
send_message json write (process true) m =
    let encoded = encode_message json m in
    record { written_bytes = encoded; errors = check_written encoded (write encoded) }
send_message json write (process false) m = record {
  written_bytes = [];
  errors = process_not_running ∷ [];
}
send_message json write (sockets readable true) m =
    let encoded = encode_message json m in
    record { written_bytes = encoded; errors = check_written encoded (write encoded) }
send_message json write (sockets readable false) m = record {
  written_bytes = [];
  errors = socket_not_connected ∷ [];
}
send_message json write absent m = record { written_bytes = []; errors = no_transport ∷ [] }

unfoldable pub is_ready : Transport → Bool
is_ready (process running) = running
is_ready (sockets readable writable) = readable && writable
is_ready absent = false

-- QProcess::ProcessError
pub data ProcessError : Type 0 where
  failed_to_start crashed timed_out write_error read_error unknown_error : ProcessError

unfoldable pub process_error_text : ProcessError → String
process_error_text failed_to_start = "Process failed to start"
process_error_text crashed = "Process crashed"
process_error_text timed_out = "Process timed out"
process_error_text write_error = "Process write error"
process_error_text read_error = "Process read error"
process_error_text unknown_error = "Unknown process error"

-- On a transport that is ready, where the device takes every byte, a message is handed over whole
-- and nothing is reported.
pub send_message-ready :
    (json : Json) (write : List ℕ → Option ℕ) (t : Transport) (m : json.Object)
    → is_ready t ≡ true
    → write (encode_message json m) ≡ some (length (encode_message json m))
    → send_message json write t m ≡ record { written_bytes = encode_message json m; errors = [] }
unfolding is_ready send_message
send_message-ready json write (process true) m r w = rw (w, check_written) (ground arith)
send_message-ready json write (process false) m r w = cc
send_message-ready json write (sockets a true) m r w = rw (w, check_written) (ground arith)
send_message-ready json write (sockets a false) m r w = ground arith
send_message-ready json write absent m r w = cc
