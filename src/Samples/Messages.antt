-- ===== src/Samples/Messages.antt =====
-- Runs of acid/rpc/protocol.cpp, and its theorems at one message.
use acid_compute.Prelude.{◌≡◌, arith, [], ◌∷◌, ◌++◌, length}
use acid_compute.Outcome.{ok, ◌>>=◌}
use acid_compute.ByteArray.Store.{little, big, to_string}
use acid_compute.ByteArray.Ints.Wire.{wire}
use acid_compute.Rpc.Protocol.{Protocol, blank, encode, decode, encode_meta, decode_meta}
use acid_compute.Rpc.Protocol.Layout.{header, encode_layout}
use acid_compute.Rpc.Protocol.RoundTrip.{IsMessage, decode-encode, decode_meta-encode}

abbrev ping : Protocol
ping = record blank { type = 3; sequence_id = 7; content = 112 ∷ 105 ∷ [] }

ping-IsMessage : IsMessage ping
ping-IsMessage = omega arith

encode_layout_example :
    ((encode little ping >>= to_string) ≡ ok (header ping ++ (wire big 4 2 ++ ping.content)))
    × ((encode_meta little ping >>= to_string) ≡ ok (header ping ++ wire big 4 2))
    × (length (header ping ++ wire big 4 2) ≡ 11)
encode_layout_example = encode_layout little ping (omega arith)

decode-encode_example :
    (do b ← encode little ping; (r, b') ← decode big b blank; ok r)
    ≡ ok (record ping { content_length = 2 })
decode-encode_example = decode-encode little big ping blank ping-IsMessage

decode_meta-encode_example :
    ((do b ← encode little ping; (s, b') ← decode_meta big b blank; ok s)
      ≡ ok (record ping { content_length = 2; content = [] }))
    × ((do b ← encode_meta little ping; (s, b') ← decode_meta big b blank; ok s)
        ≡ ok (record ping { content_length = 2; content = [] }))
decode_meta-encode_example = decode_meta-encode little big ping blank ping-IsMessage
