-- ===== src/Packet/Tests.antt =====
-- Runs of net/packet.h, and the theorems at concrete packets.
use deps.Prelude.{ℕ, ◌+◌, ◌%◌, ◌^◌, ◌≡◌, refl, arith, sym, ap, ◌∙◌}
use deps.Prelude.{Option, some, List, [], ◌∷◌, ◌++◌, length, replicate, length-replicate}
use mathlib.Core.Option.{some-injective}
use deps.Buffer.{Buffer, Pool}
use deps.Buffer
use deps.Buffer.Memory.{write_at}
use deps.Buffer.Growth.{Answers}
use deps.Buffer.Capacity.{Supplies}
use deps.Marshal.Outcome.{ok}
use deps.Marshal.Bytes.{host_bytes}
use deps.Marshal.Pack.{
  pack_bytes, pack_size, push_uint16, push, append, replace, replace_bytes, replace_uint16,
  replace_uint32, checked, xhton,
}
use deps.Marshal.Unpack.{pop_uint16}
use deps.Marshal.Parse.{after, pop_uint16-Parses, Parses}
use deps.Marshal.Emit.{push_fixed-Emits, Emits}
use deps.Packet.{Encoder, serialize, deserialize, new_decoder, bytes, body}
use deps.Packet.{
  pick_len, pick_cmd, pick_seq, pick_sub_cmd, pick_check_code, on_buffer, update_header, stamped,
}
use deps.Packet.{write_header, size, body_size, check_code}
use deps.Packet.Header.{
  PacketHeader, header_bytes, cleared, set_length, set_sub_cmd, set_check_code,
}
use deps.Packet.Serialize.{EncoderValid, Serialized, serialize-Serialized}
use deps.Packet.Copy.{Copied, copy_encoder-Copied}
use deps.Packet.{copy_encoder}
use deps.Packet.RoundTrip.{deserialize-Parses, deserialize-serialize, pick-serialize}

abbrev zeroed : ℕ → ℕ → Option (List ℕ)
zeroed i n = some (replicate n 0)

zeroed-Answers : Answers zeroed
zeroed-Answers i n bs e = ap length (sym (some-injective _ _ e)) ∙ length-replicate n 0

zeroed-Supplies : Supplies zeroed
zeroed-Supplies i n e = cc

abbrev pool : Pool
pool = record { current_total_blocks = 1; peak_total_blocks = 1; calls = 1 }

abbrev sample : PacketHeader
sample = record {
  main = record { length = 12; cmd = 1; seq = 77 };
  sub = record { cmd = 0; check_code = 0 };
}

-- An encoder with one block and an empty body.
abbrev encoder : Encoder
encoder = record {
  header = sample;
  pb = record {
    bb = record { mem = replicate 4096 0; size = 12; block = 1; max_blocks = 16 };
    pool = pool;
  };
  head_offset = 0;
  body_offset = 12;
}

encoder-EncoderValid : EncoderValid encoder
encoder-EncoderValid = record {
  buffer = record {
    valid = record {
      filled = length-replicate {A = ℕ} 4096 0;
      fits = omega arith;
      bounded = omega arith;
      limited = omega arith;
      unsigned = omega arith;
    };
    limit = refl;
  };
  head = refl;
  offset = refl;
  room = omega arith;
  fits = omega arith;
}

encoder-body : body encoder ≡ []
unfolding body pack_bytes
encoder-body = refl

abbrev sum_check : Option (List ℕ → ℕ)
sum_check = some (λ bs. length bs + 5)

push_5 : Emits zeroed (push_uint16 zeroed 5) (host_bytes 2 5)
unfolding push_uint16 xhton
push_5 = push_fixed-Emits zeroed zeroed-Answers 2 5 (omega arith)

-- Length 14, command 1, sequence 77, sub-command 9, check code 7, and the message 5.
serialize_run :
    bytes (serialize zeroed 9 (push_uint16 zeroed 5) sum_check encoder).1
    ≡ 14 ∷ 0 ∷ 1 ∷ 0 ∷ 77 ∷ 0 ∷ 0 ∷ 0 ∷ 9 ∷ 0 ∷ 7 ∷ 0 ∷ 5 ∷ 0 ∷ []
unfolding serialize on_buffer update_header stamped write_header size body_size check_code bytes
    push_uint16 push append replace replace_bytes replace_uint16 replace_uint32 checked xhton
    host_bytes set_length set_sub_cmd set_check_code pack_size pack_bytes Buffer.append
    Buffer.replace Buffer.increase_capacity Buffer.append_grown write_at body
serialize_run = refl

serialize-Serialized_example :
    let (o, e') = serialize zeroed 9 (push_uint16 zeroed 5) sum_check encoder in
    Serialized zeroed encoder (host_bytes 2 5) 9 sum_check o e'
serialize-Serialized_example =
    serialize-Serialized zeroed zeroed-Answers encoder (push_uint16 zeroed 5) (host_bytes 2 5) 9
      sum_check encoder-EncoderValid push_5

deserialize-Parses_example :
    Parses (deserialize cleared pop_uint16) (header_bytes sample ++ host_bytes 2 5) (sample, 5)
deserialize-Parses_example =
    deserialize-Parses pop_uint16 (host_bytes 2 5) 5 sample cleared (omega arith)
      (pop_uint16-Parses 5 (omega arith))

deserialize-serialize_example :
    let (o, e') = serialize zeroed 9 (push_uint16 zeroed 5) sum_check encoder in
    ((k : ℕ) × (o ≡ ok k))
    × (deserialize cleared pop_uint16 (new_decoder (bytes e') (length (bytes e')))
        ≡ (ok (e'.header, 5), after [] 0))
unfolding host_bytes
deserialize-serialize_example =
    deserialize-serialize zeroed zeroed-Answers zeroed-Supplies encoder (push_uint16 zeroed 5)
      (host_bytes 2 5) pop_uint16 5 9 sum_check cleared encoder-EncoderValid encoder-body push_5
      (pop_uint16-Parses 5 (omega arith)) (omega arith)

pick-serialize_example :
    let (_, e') = serialize zeroed 9 (push_uint16 zeroed 5) sum_check encoder in
    (bytes e' ≡ header_bytes e'.header ++ (body encoder ++ host_bytes 2 5))
    × (length (bytes e') ≡ 12 + length (body encoder) + length (host_bytes 2 5))
    × (pick_len (bytes e') ≡ length (bytes e') % 2 ^ 16)
    × (pick_cmd (bytes e') ≡ e'.header.main.cmd)
    × (pick_seq (bytes e') ≡ e'.header.main.seq)
    × (pick_sub_cmd (bytes e') ≡ e'.header.sub.cmd)
    × (pick_check_code (bytes e') ≡ e'.header.sub.check_code)
unfolding host_bytes
pick-serialize_example =
    pick-serialize zeroed zeroed-Answers zeroed-Supplies encoder (push_uint16 zeroed 5)
      (host_bytes 2 5) 9 sum_check encoder-EncoderValid push_5
      (omega (arith, ap length encoder-body))

copy_encoder-Copied_example : Copied zeroed encoder (copy_encoder zeroed encoder pool).0
copy_encoder-Copied_example =
    copy_encoder-Copied zeroed zeroed-Answers encoder pool encoder-EncoderValid
