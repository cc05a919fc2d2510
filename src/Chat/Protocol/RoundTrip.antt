-- ===== src/Chat/Protocol/RoundTrip.antt =====
-- What `proto_send_packet` sends, `proto_recv_packet` of hw5/src/protocol.c receives.
use cse_320_repository.Base.{
  ℕ, zero, suc, ◌+◌, ◌≡◌, refl, sym, ap, ◌∙◌, ◌==◌, ==_refl, Bool, true, false, some, List, [], ◌∷◌,
  ◌++◌, arith, length, take, drop, replicate, take-append, drop-append, append_nil, take-length,
  drop-replicate,
}
use cse_320_repository.Chat.Protocol.{
  Transfer, failed, moved, header_size, payload_length, write_loop, proto_send_packet, read_loop,
  proto_recv_packet,
}

write_done :
    (rs : List Transfer) (buffer : List ℕ) (size : ℕ) (t : List ℕ)
    → write_loop rs buffer size size t ≡ some (true, rs, t)
unfolding write_loop
write_done [] buffer size t = rw (==_refl size) refl
write_done (failed ∷ rs) buffer size t = rw (==_refl size) refl
write_done (moved n ∷ rs) buffer size t = rw (==_refl size) refl

read_done :
    (rs : List Transfer) (ends : Bool) (buffer incoming : List ℕ) (size : ℕ)
    → read_loop rs ends buffer incoming size size ≡ some (true, rs, buffer, incoming)
unfolding read_loop
read_done [] ends buffer incoming size = rw (==_refl size) refl
read_done (failed ∷ rs) ends buffer incoming size = rw (==_refl size) refl
read_done (moved zero ∷ rs) ends buffer incoming size = rw (==_refl size) refl
read_done (moved (suc n) ∷ rs) ends buffer incoming size = rw (==_refl size) refl

-- One call that writes the whole buffer ends the loop.
write_once :
    (rs : List Transfer) (buffer : List ℕ) (n : ℕ) (sent : List ℕ)
    → length buffer ≡ suc n
    → write_loop (moved (suc n) ∷ rs) buffer (suc n) 0 sent ≡ some (true, rs, sent ++ buffer)
unfolding write_loop
write_once rs buffer n sent h =
    let apart : (0 == suc n) ≡ false = ground arith in
    let whole : 0 + suc n ≡ suc n = omega arith in
    rw (write_loop, apart, take-length (suc n) buffer h, whole)
      (write_done rs buffer (suc n) (sent ++ buffer))

-- And one that reads all of the size.
read_once :
    (rs : List Transfer) (ends : Bool) (n : ℕ) (sent rest : List ℕ)
    → length sent ≡ suc n
    → read_loop (moved (suc n) ∷ rs) ends (replicate (suc n) 0) (sent ++ rest) (suc n) 0
      ≡ some (true, rs, sent, rest)
unfolding read_loop
read_once rs ends n sent rest h =
    let apart : (0 == suc n) ≡ false = ground arith in
    let whole : 0 + suc n ≡ suc n = omega arith in
    let filled : take (suc n) (sent ++ rest) ++ drop n (replicate n 0) ≡ sent =
      ap (λ zs. take (suc n) (sent ++ rest) ++ zs) (drop-replicate n 0)
      ∙ append_nil (take (suc n) (sent ++ rest))
      ∙ take-append (suc n) sent rest h in
    rw (read_loop, apart, filled, drop-append (suc n) sent rest h, whole)
      (read_done rs ends sent rest (suc n))

-- A header of 20 bytes and a payload of the length that it gives, not 0, each written and read in one
-- piece: `proto_send_packet` succeeds and sends the header and then the payload, from which
-- `proto_recv_packet` stores the same header and payload.
pub send_recv :
    (hdr body : List ℕ) (n : ℕ) (sends receives : List Transfer)
    → length hdr ≡ header_size
    → payload_length hdr ≡ suc n
    → length body ≡ suc n
    → (proto_send_packet (some hdr) (some body) (moved header_size ∷ moved (suc n) ∷ sends)
        ≡ some (true, sends, hdr ++ body))
      × (proto_recv_packet (moved header_size ∷ moved (suc n) ∷ receives) (hdr ++ body)
          ≡ some (some (hdr, some body)))
unfolding proto_send_packet proto_recv_packet
send_recv hdr body n sends receives hh hp hb = (sent, received)
  where
    sent :
        proto_send_packet (some hdr) (some body) (moved header_size ∷ moved (suc n) ∷ sends)
        ≡ some (true, sends, hdr ++ body)
    sent =
        rw (proto_send_packet, write_once (moved (suc n) ∷ sends) hdr 19 [] hh, hp)
          (write_once sends body n hdr hb)

    received :
        proto_recv_packet (moved header_size ∷ moved (suc n) ∷ receives) (hdr ++ body)
        ≡ some (some (hdr, some body))
    received =
        let apart : (suc n == 0) ≡ false = ground arith in
        let all : read_loop (moved (suc n) ∷ receives) false (replicate (suc n) 0) body (suc n) 0
            ≡ some (true, receives, body, []) =
          ap (λ zs. read_loop (moved (suc n) ∷ receives) false (replicate (suc n) 0) zs (suc n) 0)
            (sym (append_nil body))
          ∙ read_once receives false n body [] hb in
        rw
          (
            proto_recv_packet,
            read_once (moved (suc n) ∷ receives) true 19 hdr body hh,
            hp,
            apart,
            all,
          )
          refl

-- A buffer that is written in two pieces, each of at least one byte: the loop succeeds, and the second
-- piece is again the start of the buffer.
pub write_loop-restarts :
    (a b : ℕ) (buffer sent : List ℕ) (rs : List Transfer)
    → write_loop (moved (suc a) ∷ moved (suc b) ∷ rs) buffer (suc a + suc b) 0 sent
      ≡ some (true, rs, (sent ++ take (suc a) buffer) ++ take (suc b) buffer)
unfolding write_loop
write_loop-restarts a b buffer sent rs =
    let apart : (0 == suc a + suc b) ≡ false = ground arith in
    let first : 0 + suc a ≡ suc a = omega arith in
    let short : (suc a == suc a + suc b) ≡ false = ground arith in
    rw (write_loop, apart, first, short)
      (write_done rs buffer (suc a + suc b) ((sent ++ take (suc a) buffer) ++ take (suc b) buffer))
