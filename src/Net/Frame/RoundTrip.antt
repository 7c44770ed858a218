-- ===== src/Net/Frame/RoundTrip.antt =====
-- src/net.cpp: a message that is framed and read back.
use binarycoin.Base.{
  &&-split, ==_iff, >>-eq-ok, Bool, List, Text, [], ap, append-nil, append_assoc, arith,
  bad_command, drop, drop-append, false, length, length-append, length-take_inside, ltb, ltb-false,
  not, ok, refl, suc, take, take-append, text_eq, text_eq_refl, throw_if-ok, true, zero, ℕ, ◌++◌,
  ◌+◌, ◌==◌, ◌||◌, ◌∷◌, ◌≡◌, ◌≤◌,
}
use binarycoin.Codec.{read_bytes}
use binarycoin.Codec.Read.{Ahead, Ahead-next, Ahead-start, read_bytes_lem}
use binarycoin.Codec.Reads.{u32_Reads}
use binarycoin.Codec.Write.{append_u32_le_lem, u32_bytes}
use binarycoin.Hash.Crypto.{Crypto, sha256d, sha256d_size}
use binarycoin.Net.{command_size, max_p2p_payload, message_header_size, testnet_message_start}
use binarycoin.Net.Frame.{
  all_printable, decode_p2p_frame, encode_p2p_frame, is_printable, pad_command, payload_checksum,
  read_command, read_message_header, receive_exact, receive_message, validate_command,
}
use binarycoin.Tx.{is_empty}

length-pad_command : (n : ℕ) (command : Text) → length (pad_command n command) ≡ n
unfolding pad_command
length-pad_command zero command = refl
length-pad_command (suc n) [] = ap suc (length-pad_command n [])
length-pad_command (suc n) (x ∷ xs) = ap suc (length-pad_command n xs)

read_command-zeros : (padding : Bool) (n : ℕ) → read_command padding (pad_command n []) ≡ ok []
unfolding pad_command read_command
read_command-zeros padding zero = refl
read_command-zeros padding (suc n) = read_command-zeros true n

printable_nonzero : (b : ℕ) → is_printable b ≡ true → (b == 0) ≡ false
printable_nonzero b h = ground arith

read_command-pad_command :
    (n : ℕ) (command : Text)
    → all_printable command ≡ true
    → length command ≤ n
    → read_command false (pad_command n command) ≡ ok command
unfolding pad_command read_command all_printable
read_command-pad_command zero [] h l = refl
read_command-pad_command zero (x ∷ xs) h l = absurd (omega (arith, l))
read_command-pad_command (suc n) [] h l = read_command-zeros true n
read_command-pad_command (suc n) (x ∷ xs) h l =
    let (first, rest) = &&-split (is_printable x) (all_printable xs) h in
    rw (printable_nonzero x first, first, read_command-pad_command n xs rest (omega (arith, l)))
      refl

-- What `validate_command` has tested when it returns.
record IsCommand (command : Text) : Type 0 where
  printable : all_printable command ≡ true
  short : length command ≤ command_size

IsCommand-valid : (command : Text) → validate_command command ≡ ok tt → IsCommand command
unfolding validate_command
IsCommand-valid command h =
    let (size, rest) =
      >>-eq-ok (is_empty command || ltb command_size (length command)) bad_command _ h in
    record {
      printable = ground (arith, throw_if-ok (not (all_printable command)) bad_command rest);
      short = ground (arith, size);
    }

-- The header of a frame, in its four parts.
frame_header : Text → ℕ → List ℕ → List ℕ
frame_header command size checksum =
    testnet_message_start ++ (pad_command command_size command ++ (u32_bytes size ++ checksum))

length-frame_header :
    (command : Text) (size : ℕ) (checksum : List ℕ)
    → length checksum ≡ 4
    → length (frame_header command size checksum) ≡ message_header_size
unfolding frame_header
length-frame_header command size checksum h = omega (
  arith,
  h,
  length-append (pad_command command_size command) (u32_bytes size ++ checksum),
  length-pad_command command_size command,
)

take_append : {n : ℕ} (xs ys : List ℕ) → length xs ≡ n → take n (xs ++ ys) ≡ xs
take_append xs ys h = rw (← h) (take-append xs ys)

drop_append : {n : ℕ} (xs ys : List ℕ) → length xs ≡ n → drop n (xs ++ ys) ≡ ys
drop_append xs ys h = rw (← h) (drop-append xs ys)

module _ (command : Text) (valid : validate_command command ≡ ok tt) (size : ℕ)
    (small : size ≤ max_p2p_payload) (checksum : List ℕ) where
  command-Ahead : Ahead (frame_header command size checksum) 16 (u32_bytes size ++ checksum)
  unfolding frame_header
  command-Ahead =
      let input = frame_header command size checksum in
      let field = pad_command command_size command in
      let a =
        Ahead-next input field _ 4
          (Ahead-next input testnet_message_start _ 0 (Ahead-start input)) in
      rw (length-pad_command command_size command) at a

  read_message_header_lem :
      read_message_header (frame_header command size checksum) ≡ ok (command, size)
  unfolding read_message_header frame_header text_eq
  read_message_header_lem =
      let command' = IsCommand-valid command valid in
      let field =
        take_append (pad_command command_size command) (u32_bytes size ++ checksum)
          (length-pad_command command_size command) in
      let read = read_command-pad_command command_size command command'.printable command'.short in
      let (o, e, a) =
        u32_Reads (frame_header command size checksum) checksum 16 size (omega (arith, small))
          command-Ahead in
      rw (field, read, valid, e, ltb-false max_p2p_payload size small) refl

  checksum_read :
      length checksum ≡ 4 → read_bytes (frame_header command size checksum) 20 4 ≡ ok (checksum, 24)
  checksum_read h =
      let input = frame_header command size checksum in
      let a = Ahead-next input (u32_bytes size) checksum 16 command-Ahead in
      let e = read_bytes_lem input checksum [] 20 (rw (append-nil checksum) a) in rw h at e

module _ (c : Crypto) where
  length-payload_checksum : (payload : List ℕ) → length (payload_checksum c payload) ≡ 4
  unfolding payload_checksum
  length-payload_checksum payload =
      length-take_inside 4 (sha256d c payload) (omega (arith, sha256d_size c payload))

  frame_bytes : Text → List ℕ → List ℕ
  frame_bytes command payload =
      frame_header command (length payload) (payload_checksum c payload) ++ payload

  encode_p2p_frame-ok :
      (command : Text) (payload : List ℕ)
      → validate_command command ≡ ok tt
      → length payload ≤ max_p2p_payload
      → encode_p2p_frame c command payload ≡ ok (frame_bytes command payload)
  unfolding encode_p2p_frame frame_bytes frame_header
  encode_p2p_frame-ok command payload valid small =
      rw (valid, ltb-false max_p2p_payload (length payload) small)
        (ap ok (simp (append_u32_le_lem, append_assoc)))

  module _ (command : Text) (payload : List ℕ) (valid : validate_command command ≡ ok tt)
      (small : length payload ≤ max_p2p_payload) where
    header : List ℕ
    header = frame_header command (length payload) (payload_checksum c payload)

    length-header : length header ≡ message_header_size
    unfolding header
    length-header = length-frame_header command (length payload) _ (length-payload_checksum payload)

    header_read : read_message_header header ≡ ok (command, length payload)
    unfolding header
    header_read =
        read_message_header_lem command valid (length payload) small (payload_checksum c payload)

    checksum_there : read_bytes header 20 4 ≡ ok (payload_checksum c payload, 24)
    unfolding header
    checksum_there =
        checksum_read command valid (length payload) small (payload_checksum c payload)
          (length-payload_checksum payload)

    decode_p2p_frame-frame_bytes :
        decode_p2p_frame c (header ++ payload)
        ≡ ok (record { command = command; payload = payload })
    unfolding decode_p2p_frame
    decode_p2p_frame-frame_bytes =
        let size : length (header ++ payload) ≡ message_header_size + length payload =
          omega (arith, length-append header payload, length-header) in
        rw
          (
            size,
            ltb-false (message_header_size + length payload) message_header_size (omega arith),
            take_append header payload length-header,
            header_read,
            (==_iff (message_header_size + length payload) (message_header_size + length payload)).1
                refl,
            checksum_there,
            drop_append header payload length-header,
            text_eq_refl (payload_checksum c payload),
          )
          refl

    receive_message-frame_bytes :
        (rest : List ℕ)
        → receive_message c ((header ++ payload) ++ rest)
          ≡ ok (record { command = command; payload = payload }, rest)
    unfolding receive_message receive_exact
    receive_message-frame_bytes rest =
        let size : message_header_size ≤ length (header ++ (payload ++ rest)) =
          omega (arith, length-append header (payload ++ rest), length-header) in
        let more : length payload ≤ length (payload ++ rest) =
          omega (arith, length-append payload rest) in
        rw
          (
            append_assoc header payload rest,
            ltb-false (length (header ++ (payload ++ rest))) message_header_size size,
            take_append header (payload ++ rest) length-header,
            drop_append header (payload ++ rest) length-header,
            header_read,
            ltb-false (length (payload ++ rest)) (length payload) more,
            take-append payload rest,
            drop-append payload rest,
            decode_p2p_frame-frame_bytes,
          )
          refl

  -- A message with a command that is accepted and a payload of at most 16 MiB is framed, the frame is
  -- decoded as the message, and a node that receives the frame, with anything behind it, gets the
  -- message and leaves what is behind it for the next one.
  pub receive_message-encode_p2p_frame :
      (command : Text) (payload rest : List ℕ)
      → validate_command command ≡ ok tt
      → length payload ≤ max_p2p_payload
      → (frame : List ℕ) × (encode_p2p_frame c command payload ≡ ok frame)
        × (decode_p2p_frame c frame ≡ ok (record { command = command; payload = payload }))
        × (receive_message c (frame ++ rest)
            ≡ ok (record { command = command; payload = payload }, rest))
  unfolding frame_bytes header
  receive_message-encode_p2p_frame command payload rest valid small = (
    frame_bytes command payload,
    encode_p2p_frame-ok command payload valid small,
    decode_p2p_frame-frame_bytes command payload valid small,
    receive_message-frame_bytes command payload valid small rest,
  )
