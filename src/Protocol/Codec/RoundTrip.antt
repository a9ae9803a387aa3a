-- ===== src/Protocol/Codec/RoundTrip.antt =====
-- What is encoded is decoded.
use mathlib.Core.List.{append_assoc, append-nil}
use pulsar_lite.Prelude.{
  ℕ, ◌+◌, ◌≤◌, ◌<◌, true, false, none, some, List, [], ◌++◌, length, length-append, Bool-cases, inl,
  inr, beq_ne, ltb, leb, ltb_ge, leb_le, suc, ◌==◌, if◌then◌else◌, ◌≡◌, refl, sym, ap, ◌∙◌, arith,
}
use pulsar_lite.Prelude.Results.{ok}
use pulsar_lite.Prelude.Bytes.{
  take, drop, put_u32, get_uint, get_uint-put_u32, take-append, drop-append,
}
use pulsar_lite.Protocol.Codec.{
  encode, encode_message, encode_message_parts, metadata_out, decode, parse_frame, parse_rest,
  parse_checksum, parse_metadata, max_frame_size, magic_number,
}

four_more : (n : ℕ) → 4 + n ≡ suc (suc (suc (suc n)))
four_more n = omega arith

-- A frame with its size before it, and whatever follows, is taken out of the buffer.
decode-framed :
    (frame rest : List ℕ)
    → length frame ≤ max_frame_size
    → decode (put_u32 (length frame) ++ (frame ++ rest)) ≡ (parse_frame frame, rest)
unfolding decode
decode-framed frame rest h =
    let src = put_u32 (length frame) ++ (frame ++ rest) in
    let size = get_uint-put_u32 (length frame) (omega arith) in
    let long = length-append {0} frame rest in
    let enough : ltb (length src) 4 ≡ false = ltb_ge (length src) 4 (omega arith) in
    let small : ltb max_frame_size (length frame) ≡ false =
      ltb_ge max_frame_size (length frame) h in
    let whole : ltb (length src) (4 + length frame) ≡ false =
      ltb_ge (length src) (4 + length frame) (omega arith) in
    let behind : drop (4 + length frame) src ≡ rest =
      ap (λ n. drop n src) (four_more (length frame)) ∙ drop-append frame rest in
    rw (enough, size, small, whole, take-append frame rest, behind) refl

-- A command with nothing behind it, or with its metadata and its payload.
parse_frame-command :
    (command behind : List ℕ)
    → length command < 4294967296
    → parse_frame (put_u32 (length command) ++ (command ++ behind))
      ≡ ok (some (parse_rest command behind))
unfolding parse_frame
parse_frame-command command behind h =
    let frame = put_u32 (length command) ++ (command ++ behind) in
    let size = get_uint-put_u32 (length command) h in
    let long = length-append {0} command behind in
    let enough : ltb (length frame) 4 ≡ false = ltb_ge (length frame) 4 (omega arith) in
    let whole : ltb (length (command ++ behind)) (length command) ≡ false =
      ltb_ge (length (command ++ behind)) (length command) (omega arith) in
    rw (enough, size, whole, take-append command behind, drop-append command behind) refl

-- The size of metadata below 16 MB does not start with the magic number.
parse_checksum-size :
    (n : ℕ) (behind : List ℕ)
    → n < 16777216
    → parse_checksum (put_u32 n ++ behind) ≡ (none, put_u32 n ++ behind)
unfolding parse_checksum
parse_checksum-size n behind h =
    let plain : (get_uint (take 2 (put_u32 n ++ behind)) == magic_number) ≡ false =
      beq_ne (get_uint (take 2 (put_u32 n ++ behind))) magic_number (omega arith) in
    elim (Bool-cases (leb 6 (length (put_u32 n ++ behind)))) [
      | inl y ↦ rw (y, plain, if◌then◌else◌) refl
      | inr n ↦ rw (n, if◌then◌else◌) refl
    ]

parse_rest-message :
    (command metadata payload : List ℕ)
    → length metadata < 16777216
    → parse_rest command (put_u32 (length metadata) ++ (metadata ++ payload))
      ≡ record { command = command; metadata = some metadata; payload = payload; checksum = none }
unfolding parse_rest parse_checksum parse_metadata
parse_rest-message command metadata payload h =
    let size = get_uint-put_u32 (length metadata) (omega arith) in
    let long = length-append {0} metadata payload in
    let rest = put_u32 (length metadata) ++ (metadata ++ payload) in
    let plain : parse_checksum rest ≡ (none, rest) =
      parse_checksum-size (length metadata) (metadata ++ payload) h in
    let enough : leb 4 (length rest) ≡ true = leb_le 4 (length rest) (omega arith) in
    let whole : leb (length metadata) (length (metadata ++ payload)) ≡ true =
      leb_le (length metadata) (length (metadata ++ payload)) (omega arith) in
    rw (plain, enough, size, whole, take-append metadata payload, drop-append metadata payload) refl

-- decode takes an encoded message out of the buffer, whatever follows it, provided that the frame
-- is within the limit: the frame has the command, the metadata, or the synthesized metadata where
-- there was none, the payload, and no checksum.
pub decode-encode_message :
    (command synthesized metadata payload rest : List ℕ)
    → 8 + length command + length (metadata_out synthesized metadata) + length payload
      ≤ max_frame_size
    → decode (encode_message command synthesized metadata payload ++ rest) ≡ (
      ok (
          some (record {
            command = command;
            metadata = some (metadata_out synthesized metadata);
            payload = payload;
            checksum = none;
          })),
      rest,
    )
unfolding encode_message encode_message_parts
decode-encode_message command synthesized metadata payload rest h =
    let out = metadata_out synthesized metadata in
    let body = put_u32 (length out) ++ (out ++ payload) in
    let frame = put_u32 (length command) ++ (command ++ body) in
    let size : 4 + length command + 4 + length out + length payload ≡ length frame =
      omega (arith, length-append {0} command body, length-append {0} out payload) in
    let joined : encode_message command synthesized metadata payload ++ rest
        ≡ put_u32 (length frame) ++ (frame ++ rest) =
      ap
        (λ n.
          put_u32 n
          ++ (put_u32 (length command)
              ++ (((command ++ put_u32 (length out)) ++ (out ++ payload)) ++ rest)))
        size
      ∙ ap (λ l. put_u32 (length frame) ++ (put_u32 (length command) ++ (l ++ rest)))
          (append_assoc command (put_u32 (length out)) (out ++ payload)) in
    ap decode joined
    ∙ decode-framed frame rest (omega arith)
    ∙ ap (λ r. (r, rest))
        (parse_frame-command command body (omega arith)
          ∙ ap (λ f. ok (some f)) (parse_rest-message command out payload (omega arith)))

parse_rest-nothing :
    (command : List ℕ)
    → parse_rest command []
      ≡ record { command = command; metadata = none; payload = []; checksum = none }
unfolding parse_rest parse_checksum parse_metadata
parse_rest-nothing command = refl

-- decode takes an encoded command without payload out of the buffer, whatever follows it.
pub decode-encode :
    (command rest : List ℕ)
    → 4 + length command ≤ max_frame_size
    → decode (encode command ++ rest) ≡ (
      ok (some (record { command = command; metadata = none; payload = []; checksum = none })),
      rest,
    )
unfolding encode
decode-encode command rest h =
    let frame = put_u32 (length command) ++ (command ++ []) in
    let size : 4 + length command ≡ length frame = omega (arith, length-append {0} command []) in
    let joined : encode command ++ rest ≡ put_u32 (length frame) ++ (frame ++ rest) =
      ap (λ n. put_u32 n ++ (put_u32 (length command) ++ (command ++ rest))) size
      ∙ ap (λ l. put_u32 (length frame) ++ (put_u32 (length command) ++ (l ++ rest)))
          (sym (append-nil command)) in
    ap decode joined
    ∙ decode-framed frame rest (omega arith)
    ∙ ap (λ r. (r, rest))
        (parse_frame-command command [] (omega arith)
          ∙ ap (λ f. ok (some f)) (parse_rest-nothing command))
