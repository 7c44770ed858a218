-- ===== src/Tx/Serialize/Layout.antt =====
-- src/transaction.cpp: the bytes that a transaction is written as.
use binarycoin.Base.{
  length, All, Result, ok, err, ℕ, ◌^◌, ◌<◌, ◌≡◌, refl, ◌∙◌, List, [], ◌∷◌, ◌++◌, append_assoc,
  arith,
}
use binarycoin.Codec.{to_unsigned, append_u32_le, append_compact_size}
use binarycoin.Codec.Read.{FitsSigned}
use binarycoin.Codec.Write.{
  u32_bytes, u64_bytes, compact_bytes, append_u32_le_lem, append_i64_le_lem,
  append_compact_size_lem,
}
use binarycoin.Hash.{display_hex_to_wire_bytes}
use binarycoin.Hash.RoundTrip.{IsDisplayHash, display_hex-round_trip}
use binarycoin.Tx.{TxInput, TxOutput, Transaction}
use binarycoin.Tx.Serialize.{
  checked_size, serialize_input, serialize_inputs, serialize_output, serialize_outputs,
}

-- What the types of the source and the form of its hashes say of a transaction's fields.
pub record InputFits (i : TxInput) : Type 0 where
  pub txid : IsDisplayHash i.previous_output.txid
  pub index : i.previous_output.index < 2 ^ 32
  pub sequence : i.sequence < 2 ^ 32

pub record TxFits (t : Transaction) : Type 0 where
  pub version : FitsSigned 32 t.version
  pub inputs : All InputFits t.inputs
  pub lock_time : t.lock_time < 2 ^ 32

pub checked_size_lem : (n : ℕ) → n < 2 ^ 64 → checked_size n ≡ ok n
unfolding checked_size
checked_size_lem n h = ground arith

abbrev pub wire_bytes : Result (List ℕ) → List ℕ
wire_bytes (ok wire) = wire
wire_bytes (err e) = []

-- The bytes of an input, of an output and of lists of them.
unfoldable pub input_bytes : TxInput → List ℕ → List ℕ
input_bytes i rest =
    wire_bytes (display_hex_to_wire_bytes i.previous_output.txid)
    ++ (u32_bytes i.previous_output.index
        ++ (compact_bytes (length i.script_sig)
            ++ (i.script_sig ++ (u32_bytes i.sequence ++ rest))))

unfoldable pub inputs_bytes : List TxInput → List ℕ → List ℕ
inputs_bytes [] rest = rest
inputs_bytes (i ∷ is) rest = input_bytes i (inputs_bytes is rest)

unfoldable pub output_bytes : TxOutput → List ℕ → List ℕ
output_bytes t rest =
    u64_bytes (to_unsigned 64 t.value)
    ++ (compact_bytes (length t.script_pubkey) ++ (t.script_pubkey ++ rest))

unfoldable pub outputs_bytes : List TxOutput → List ℕ → List ℕ
outputs_bytes [] rest = rest
outputs_bytes (t ∷ ts) rest = output_bytes t (outputs_bytes ts rest)

pub serialize_input_lem :
    (i : TxInput) (out rest : List ℕ)
    → InputFits i
    → (out' : List ℕ) × (serialize_input i out ≡ ok out')
      × (out' ++ rest ≡ out ++ input_bytes i rest)
unfolding serialize_input input_bytes
serialize_input_lem i out rest h =
    let (wire, e, _, _, _) = display_hex-round_trip i.previous_output.txid h.txid in
    (
      append_u32_le
          (append_compact_size (append_u32_le (out ++ wire) i.previous_output.index)
              (length i.script_sig)
            ++ i.script_sig)
          i.sequence,
      rw e,
      rw e (simp (append_u32_le_lem, append_compact_size_lem, append_assoc)),
    )

pub serialize_inputs_lem :
    (is : List TxInput) (out rest : List ℕ)
    → All InputFits is
    → (out' : List ℕ) × (serialize_inputs is out ≡ ok out')
      × (out' ++ rest ≡ out ++ inputs_bytes is rest)
unfolding serialize_inputs inputs_bytes
serialize_inputs_lem [] out rest h = (out, refl, refl)
serialize_inputs_lem (i ∷ is) out rest (hi, hs) =
    let (out1, e1, s1) = serialize_input_lem i out (inputs_bytes is rest) hi in
    let (out2, e2, s2) = serialize_inputs_lem is out1 rest hs in (out2, rw (e1, e2), s2 ∙ s1)

pub serialize_outputs_lem :
    (ts : List TxOutput) (out rest : List ℕ)
    → serialize_outputs ts out ++ rest ≡ out ++ outputs_bytes ts rest
unfolding serialize_outputs serialize_output outputs_bytes output_bytes
serialize_outputs_lem [] out rest = refl
serialize_outputs_lem (t ∷ ts) out rest =
    serialize_outputs_lem ts (serialize_output t out) rest
    ∙ simp (append_i64_le_lem, append_compact_size_lem, append_assoc)
