-- ===== src/Net/Frame.antt =====
-- src/net.cpp: the frame of a message.
pub mod RoundTrip
use binarycoin.Base.{
  Bool, List, Result, Text, [], bad_command, bad_message_start, connection_closed, drop, false,
  frame_checksum, frame_length, if◌then◌else◌, leb, length, ltb, not, ok, payload_too_large, suc,
  take, text_eq, throw_if, true, truncated_header, zero, ℕ, ◌&&◌, ◌++◌, ◌+◌, ◌==◌, ◌>>=◌, ◌>>◌,
  ◌||◌, ◌∷◌,
}
use binarycoin.Codec.{append_u32_le, read_bytes, read_u32_le}
use binarycoin.Hash.Crypto.{Crypto, sha256d}
use binarycoin.Net.{command_size, max_p2p_payload, message_header_size, testnet_message_start}
use binarycoin.Tx.{is_empty}

pub record DecodedP2pMessage : Type 0 where
  pub command : Text
  pub payload : List ℕ

abbrev pub is_printable : ℕ → Bool
is_printable character = leb 0x20 character && leb character 0x7e

unfoldable pub all_printable : Text → Bool
all_printable [] = true
all_printable (character ∷ rest) = is_printable character && all_printable rest

unfoldable pub validate_command : Text → Result (Unit {0})
validate_command command =
    throw_if (is_empty command || ltb command_size (length command)) bad_command
    >> throw_if (not (all_printable command)) bad_command

-- The command, with zeros behind it up to so many bytes.
unfoldable pub pad_command : ℕ → Text → List ℕ
pad_command zero command = []
pad_command (suc count) [] = 0 ∷ pad_command count []
pad_command (suc count) (character ∷ rest) = character ∷ pad_command count rest

-- The loop over the bytes of the command field. Once a zero was seen, only zeros may follow.
unfoldable pub read_command : Bool → List ℕ → Result Text
read_command padding_started [] = ok []
read_command padding_started (byte ∷ rest) =
    let command = read_command (byte == 0 || padding_started) rest in
    if byte == 0
    then command
    else (throw_if (padding_started || not (is_printable byte)) bad_command
        >> (command >>= λ text. ok (byte ∷ text)))

-- `receive_exact`, of what the peer sends until it closes the connection.
unfoldable pub receive_exact : List ℕ → ℕ → Result (List ℕ × List ℕ)
receive_exact stream count =
    throw_if (ltb (length stream) count) connection_closed
    >> ok (take count stream, drop count stream)

-- What both readers of a frame do with its header: the command and the size of the payload.
unfoldable pub read_message_header : List ℕ → Result (Text × ℕ)
read_message_header header = do
  throw_if (not (text_eq (take 4 header) testnet_message_start)) bad_message_start
  command ← read_command false (take command_size (drop 4 header))
  validate_command command
  (payload_length, offset) ← read_u32_le header 16
  throw_if (ltb max_p2p_payload payload_length) payload_too_large
  ok (command, payload_length)

module _ (c : Crypto) where
  unfoldable pub payload_checksum : List ℕ → List ℕ
  payload_checksum payload = take 4 (sha256d c payload)

  unfoldable pub encode_p2p_frame : Text → List ℕ → Result (List ℕ)
  encode_p2p_frame command payload = do
    validate_command command
    throw_if (ltb max_p2p_payload (length payload)) payload_too_large
    ok (
        append_u32_le (testnet_message_start ++ pad_command command_size command) (length payload)
        ++ (payload_checksum payload ++ payload))

  unfoldable pub decode_p2p_frame : List ℕ → Result DecodedP2pMessage
  decode_p2p_frame frame = do
    throw_if (ltb (length frame) message_header_size) truncated_header
    (command, payload_length) ← read_message_header (take message_header_size frame)
    throw_if (not (length frame == message_header_size + payload_length)) frame_length
    (expected_checksum, offset) ← read_bytes (take message_header_size frame) 20 4
    let payload = drop message_header_size frame
    throw_if (not (text_eq (payload_checksum payload) expected_checksum)) frame_checksum
    ok (record { command = command; payload = payload })

  -- The message, with what the peer sends behind it.
  unfoldable pub receive_message : List ℕ → Result (DecodedP2pMessage × List ℕ)
  receive_message stream = do
    (header, behind) ← receive_exact stream message_header_size
    (command, payload_length) ← read_message_header header
    (payload, rest) ← receive_exact behind payload_length
    message ← decode_p2p_frame (header ++ payload)
    ok (message, rest)
