-- ===== src/Protocol/Codec.antt =====
-- Framing of the wire protocol, rust/proto/src/codec.rs. The bytes of a command and of its metadata
-- are those of the generated protobuf code, and parameters here.
pub mod RoundTrip
pub mod Streaming
use pulsar_lite.Prelude.{
  ℕ, zero, suc, ◌+◌, ◌*◌, Bool, Option, none, some, List, [], ◌∷◌, ◌++◌, length, ltb, leb, ◌==◌,
  if◌then◌else◌,
}
use pulsar_lite.Prelude.Results.{Result, ok, err}
use pulsar_lite.Prelude.Bytes.{take, drop, slice, put_u32, get_uint}

abbrev pub magic_number : ℕ
magic_number = 0x0e01

abbrev pub max_message_size : ℕ
max_message_size = 5 * 1024 * 1024

abbrev pub max_frame_size : ℕ
max_frame_size = max_message_size + 10 * 1024

pub record PulsarFrame : Type 0 where
  pub command : List ℕ
  pub metadata : Option (List ℕ)
  pub payload : List ℕ
  pub checksum : Option ℕ

pub data FrameError : Type 0 where
  frame_too_large : ℕ → FrameError
  missing_command_size incomplete_command : FrameError

-- `encode` of a command without payload.
unfoldable pub encode : List ℕ → List ℕ
encode command = put_u32 (4 + length command) ++ (put_u32 (length command) ++ command)

pub record EncodedMessageParts : Type 0 where
  pub header : List ℕ
  pub metadata : List ℕ
  pub payload : List ℕ

-- The metadata that goes out: for empty metadata, `synthesized`, which has the entry id.
abbrev pub metadata_out : List ℕ → List ℕ → List ℕ
metadata_out synthesized [] = synthesized
metadata_out synthesized (b ∷ metadata) = b ∷ metadata

unfoldable pub encode_message_parts : List ℕ → List ℕ → List ℕ → List ℕ → EncodedMessageParts
encode_message_parts command synthesized metadata payload =
    let out = metadata_out synthesized metadata in
    record {
      header =
          put_u32 (4 + length command + 4 + length out + length payload)
          ++ (put_u32 (length command) ++ (command ++ put_u32 (length out)));
      metadata = out;
      payload = payload;
    }

unfoldable pub encode_message : List ℕ → List ℕ → List ℕ → List ℕ → List ℕ
encode_message command synthesized metadata payload =
    let parts = encode_message_parts command synthesized metadata payload in
    parts.header ++ (parts.metadata ++ parts.payload)

-- The checksum, if the magic number stands there, and the bytes behind it.
unfoldable pub parse_checksum : List ℕ → Option ℕ × List ℕ
parse_checksum frame_data =
    if leb 6 (length frame_data)
    then (if get_uint (take 2 frame_data) == magic_number
        then (some (get_uint (slice 2 6 frame_data)), drop 6 frame_data)
        else (none, frame_data))
    else (none, frame_data)

-- The metadata and the payload.
unfoldable pub parse_metadata : List ℕ → Option (List ℕ) × List ℕ
parse_metadata remaining =
    if leb 4 (length remaining)
    then (let metadata_size = get_uint (take 4 remaining) in
        let rest = drop 4 remaining in
        if leb metadata_size (length rest)
        then (some (take metadata_size rest), drop metadata_size rest)
        else (none, rest))
    else (none, remaining)

unfoldable pub parse_rest : List ℕ → List ℕ → PulsarFrame
parse_rest command frame_data =
    let (checksum, remaining) = parse_checksum frame_data in
    let (metadata, payload) = parse_metadata remaining in
    record { command = command; metadata = metadata; payload = payload; checksum = checksum }

-- A whole frame, without its total size.
unfoldable pub parse_frame : List ℕ → Result FrameError (Option PulsarFrame)
parse_frame frame_data =
    if ltb (length frame_data) 4
    then err missing_command_size
    else (let cmd_size = get_uint (take 4 frame_data) in
        let rest = drop 4 frame_data in
        if ltb (length rest) cmd_size
        then err incomplete_command
        else ok (some (parse_rest (take cmd_size rest) (drop cmd_size rest))))

-- The result, and what is left in the buffer.
unfoldable pub decode : List ℕ → Result FrameError (Option PulsarFrame) × List ℕ
decode src =
    if ltb (length src) 4
    then (ok none, src)
    else (let total_size = get_uint (take 4 src) in
        if ltb max_frame_size total_size
        then (err (frame_too_large total_size), src)
        else (if ltb (length src) (4 + total_size)
            then (ok none, src)
            else (parse_frame (take total_size (drop 4 src)), drop (4 + total_size) src)))
