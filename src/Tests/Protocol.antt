-- ===== src/Tests/Protocol.antt =====
-- Instances and runs for the framing.
use pulsar_lite.Prelude.{none, some, [], ◌∷◌, ◌++◌, ◌≡◌, refl, arith}
use pulsar_lite.Prelude.Results.{ok, err}
use pulsar_lite.Protocol.Codec.{
  encode_message, decode, parse_frame, parse_rest, parse_checksum, parse_metadata, frame_too_large,
}
use pulsar_lite.Protocol.Codec.RoundTrip.{decode-encode_message}
use pulsar_lite.Protocol.Codec.Streaming.{verdict, receive, decode_all, concat, receive-decode_all}

decode-encode_message_example :
    decode (encode_message (8 ∷ 9 ∷ []) (7 ∷ []) [] (1 ∷ 2 ∷ []) ++ 0 ∷ []) ≡ (
      ok (
          some (record {
            command = 8 ∷ 9 ∷ [];
            metadata = some (7 ∷ []);
            payload = 1 ∷ 2 ∷ [];
            checksum = none;
          })),
      0 ∷ [],
    )
decode-encode_message_example =
    decode-encode_message (8 ∷ 9 ∷ []) (7 ∷ []) [] (1 ∷ 2 ∷ []) (0 ∷ []) (omega arith)

-- A frame in three pieces.
receive-decode_all_example :
    verdict (receive [] ((0 ∷ 0 ∷ []) ∷ (0 ∷ 5 ∷ 0 ∷ 0 ∷ []) ∷ (0 ∷ 1 ∷ 8 ∷ []) ∷ []))
    ≡ verdict (decode_all (concat ((0 ∷ 0 ∷ []) ∷ (0 ∷ 5 ∷ 0 ∷ 0 ∷ []) ∷ (0 ∷ 1 ∷ 8 ∷ []) ∷ [])))
receive-decode_all_example =
    receive-decode_all ((0 ∷ 0 ∷ []) ∷ (0 ∷ 5 ∷ 0 ∷ 0 ∷ []) ∷ (0 ∷ 1 ∷ 8 ∷ []) ∷ []) []

-- The checksum is taken out.
with_checksum :
    decode (0 ∷ 0 ∷ 0 ∷ 15 ∷ 0 ∷ 0 ∷ 0 ∷ 1 ∷ 8 ∷ 14 ∷ 1 ∷ 0 ∷ 0 ∷ 1 ∷ 2 ∷ 0 ∷ 0 ∷ 0 ∷ 0 ∷ []) ≡ (
      ok (
          some
            (record { command = 8 ∷ []; metadata = some []; payload = []; checksum = some 258 })),
      [],
    )
unfolding decode parse_frame parse_rest parse_checksum parse_metadata
with_checksum = refl

too_large : (decode (255 ∷ 255 ∷ 255 ∷ 255 ∷ [])).0 ≡ err (frame_too_large 4294967295)
unfolding decode
too_large = refl
