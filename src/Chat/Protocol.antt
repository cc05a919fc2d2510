-- ===== src/Chat/Protocol.antt =====
-- Packets on a connection: hw5/src/protocol.c. The results of the calls of `read` or `write` are given as
-- a list; where it ends, the call waits (`none`). Memory that is not initialised is written as 0.
pub mod RoundTrip
use cse_320_repository.Base.{
  ℕ, zero, suc, ◌+◌, ◌*◌, ◌==◌, if◌then◌else◌, Bool, true, false, Option, none, some, List, [], ◌∷◌,
  ◌++◌, get_or, take, drop, replicate,
}

-- What `read` or `write` returns: -1 or a number of bytes.
pub data Transfer : Type 0 where
  failed : Transfer
  moved : ℕ → Transfer

abbrev pub header_size : ℕ
header_size = 20

-- The bytes of `payload_length` in network order; three bytes of padding follow the type.
abbrev pub payload_length : List ℕ → ℕ
payload_length hdr =
    get_or hdr 4 0 * 16_777_216 + get_or hdr 5 0 * 65_536 + get_or hdr 6 0 * 256 + get_or hdr 7 0

-- Each round writes from the start of the buffer; the bytes sent so far are `sent`.
unfoldable pub write_loop :
    (results : List Transfer)
    → (buffer : List ℕ) → (size written : ℕ) → (sent : List ℕ)
    → Option (Bool × List Transfer × List ℕ)
write_loop [] buffer size written sent = if written == size then some (true, [], sent) else none
write_loop (failed ∷ rs) buffer size written sent =
    if written == size then some (true, failed ∷ rs, sent) else some (false, rs, sent)
write_loop (moved n ∷ rs) buffer size written sent =
    let more = write_loop rs buffer size (written + n) (sent ++ take n buffer) in
    if written == size then some (true, moved n ∷ rs, sent) else more

-- The result is true for 0 and false for -1, with the bytes that were sent.
unfoldable pub proto_send_packet :
    (hdr payload : Option (List ℕ))
    → (results : List Transfer) → Option (Bool × List Transfer × List ℕ)
proto_send_packet none payload results = some (false, results, [])
proto_send_packet (some hdr) payload results = elim (write_loop results hdr header_size 0 []) [
  | none ↦ none
  | some (false, rs, sent) ↦ some (false, rs, sent)
  | some (true, rs, sent) ↦ elim payload [
    | none ↦ some (true, rs, sent)
    | some body ↦ write_loop rs body (payload_length hdr) 0 sent
  ]
]

-- Each round reads to the start of the buffer. At the end of the stream only the header gives up.
unfoldable pub read_loop :
    (results : List Transfer)
    → (ends : Bool) → (buffer incoming : List ℕ) → (size got : ℕ)
    → Option (Bool × List Transfer × List ℕ × List ℕ)
read_loop [] ends buffer incoming size got =
    if got == size then some (true, [], buffer, incoming) else none
read_loop (failed ∷ rs) ends buffer incoming size got =
    if got == size
    then some (true, failed ∷ rs, buffer, incoming)
    else some (false, rs, buffer, incoming)
read_loop (moved zero ∷ rs) ends buffer incoming size got =
    let more = read_loop rs ends buffer incoming size got in
    if got == size
    then some (true, moved zero ∷ rs, buffer, incoming)
    else if ends
    then some (false, rs, buffer, incoming)
    else more
read_loop (moved (suc n) ∷ rs) ends buffer incoming size got =
    let more =
      read_loop rs ends (take (suc n) incoming ++ drop (suc n) buffer) (drop (suc n) incoming) size
        (got + suc n) in
    if got == size then some (true, moved (suc n) ∷ rs, buffer, incoming) else more

-- The header and the payload that are stored, or `none` within the result for -1.
unfoldable pub proto_recv_packet :
    (results : List Transfer) → (incoming : List ℕ) → Option (Option (List ℕ × Option (List ℕ)))
proto_recv_packet results incoming =
    elim (read_loop results true (replicate header_size 0) incoming header_size 0) [
      | none ↦ none
      | some (false, rs, tmp, rest) ↦ some none
      | some (true, rs, tmp, rest) ↦
          if payload_length tmp == 0
          then some (some (tmp, none))
          else elim (read_loop rs false (replicate (payload_length tmp) 0) rest (payload_length tmp)
              0) [
                | none ↦ none
                | some (false, rs', body, rest') ↦ some none
                | some (true, rs', body, rest') ↦ some (some (tmp, some body))
              ]
    ]
