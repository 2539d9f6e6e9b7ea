-- ===== src/Samples/Sequences.antt =====
-- Runs of acid/rpc/serializer.h, and its theorem at one sequence.
use acid_compute.Prelude.{◌≡◌, arith, List, [], ◌∷◌, All}
use acid_compute.Outcome.{ok, ◌>>=◌}
use acid_compute.ByteArray.Store.{little, big, make, set_position}
use acid_compute.ByteArray.Streams.{make-Filled}
use acid_compute.Rpc.Serializer.{text, Value, write_sequence, read_sequence}
use acid_compute.Rpc.Serializer.Values.{Fits}
use acid_compute.Rpc.Serializer.Sequences.{read_sequence-write_sequence}

abbrev words : List (Value text)
words = (104 ∷ 105 ∷ []) ∷ ([] ∷ ((33 ∷ []) ∷ []))

words_fit : All (Fits text) words
words_fit = (omega arith, (omega arith, (omega arith, tt)))

read_sequence-write_sequence_example :
    (do
      b1 ← write_sequence little text words (make 64 big)
      b2 ← set_position 0 b1
      (us, b3) ← read_sequence big text b2
      ok us)
    ≡ ok words
read_sequence-write_sequence_example =
    read_sequence-write_sequence little big text words
      (make-Filled 64 big (omega arith) (omega arith)) words_fit (omega arith) (omega arith)
      (omega arith)
