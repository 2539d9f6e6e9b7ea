-- ===== src/Rpc/Session.antt =====
-- acid/rpc/rpc_session.cpp: messages over a socket. `host` is the byte order of the machine.
pub mod Deafness
use acid_compute.Prelude.{
  ℕ, ◌%◌, Bool, not, Option, none, some, List, [], ◌∷◌, ◌==◌, if◌then◌else◌, length, replicate, map,
}
use acid_compute.Outcome.{Outcome, ok, ◌>>=◌}
use acid_compute.ByteArray.Store.{ByteArray, Endian, set_position}
use acid_compute.Stream.{read_fix_size}
use acid_compute.Stream.Sockets.{Arrival, Departure, read_fix_array, write_fix_array, as_answer}
use acid_compute.Rpc.Protocol.{
  Protocol, blank, default_array, base_length, magic_byte, decode_meta, encode,
}

-- What a call gives: nothing yet, nullptr or a message.
abbrev pub Received : Type 0
Received = Option (Option Protocol)

abbrev pub with_content : Protocol → Option (ℕ × List ℕ) → Received
with_content p none = none
with_content p (some (n, buffer)) =
    if n == 0 then some none else some (some (record p { content = buffer }))

-- recv_protocol behind the read of the header.
unfoldable pub after_header : Endian → List Arrival → ByteArray → Outcome Received
after_header host more b = do
  b' ← set_position 0 b
  (p, b'') ← decode_meta host b' blank
  let read = (do
    found ← read_fix_size (map as_answer more) p.content_length (replicate p.content_length 0)
    ok (with_content p found))
  if not (p.magic == magic_byte)
      then ok (some none)
      else if p.content_length == 0
      then ok (some (some p))
      else read

unfoldable pub go_on : Endian → Option (ℕ × ByteArray × List Arrival) → Outcome Received
unfolding after_header
go_on host none = ok none
go_on host (some (n, b, more)) = if n == 0 then ok (some none) else after_header host more b

unfoldable pub recv_protocol : Endian → List Arrival → Outcome Received
recv_protocol host arrivals = do
  found ← read_fix_array base_length arrivals base_length default_array
  go_on host found

-- The result, with the bytes that went out.
unfoldable pub send_protocol : Endian → List Departure → Protocol → Outcome (Option (ℕ × List ℕ))
send_protocol host departures p = do b ← encode host p; write_fix_array b.size departures b.size b
