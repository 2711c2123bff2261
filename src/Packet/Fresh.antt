-- ===== src/Packet/Fresh.antt =====
-- The constructor and `clear` of the Encoder in net/packet.h.
use deps.Prelude.{ℕ, ◌≡◌, refl, ap, arith}
use deps.Prelude.{false, Option, List, [], inl, inr}
use deps.Prelude.{length, replicate, length-append, length-take, drop_all, ltb}
use deps.Buffer.{Buffer, Pool, add_size, new}
use deps.Buffer
use deps.Buffer.Growth.{Answers, length-contents}
use deps.Buffer.Contents.{cut-Edited}
use deps.Buffer.Capacity.{Starved}
use deps.Buffer.Run.{new-IsValid}
use deps.Marshal.Outcome.{Outcome, ok, thrown, fault, M, pure, continue}
use deps.Marshal.Pack.{PackBuffer, packet_blocks, checked, resize, new_pack, pack_bytes}
use deps.Marshal.Emit.{held, PackValid, Emitted, resize-Emitted}
use deps.Packet.{Encoder, new_encoder, clear, on_buffer, update_header, body}
use deps.Packet.Header.{FitsHeader, cleared}
use deps.Packet.Serialize.{EncoderValid}

-- The outcome of the constructor.
abbrev pub Made : (ℕ → ℕ → Option (List ℕ)) → Outcome Encoder → Type 0
Made malloc (ok e) = EncoderValid e × (body e ≡ []) × (e.header ≡ cleared)
Made malloc (thrown x) = Starved malloc
Made malloc fault = ⊥

cleared-FitsHeader : FitsHeader cleared
unfolding cleared
cleared-FitsHeader = omega arith

packet_buffer : Pool → PackBuffer
packet_buffer p = record { bb = new packet_blocks; pool = p }

packet_buffer-PackValid : (p : Pool) → PackValid (packet_buffer p)
unfolding packet_buffer new
packet_buffer-PackValid p = record { valid = new-IsValid 16 (omega arith); limit = refl }

-- The Encoder that the constructor makes of its buffer.
abbrev made : PackBuffer → Encoder
made pb = record { header = cleared; pb = pb; head_offset = 0; body_offset = 12 }

-- The two Packs on a buffer without bytes.
abbrev packs : ℕ → M PackBuffer Encoder
packs after pb =
    (ok (record { header = cleared; pb = pb; head_offset = 0; body_offset = after }), pb)

twelve : ℕ
twelve = 12

Made-body :
    (malloc : ℕ → ℕ → Option (List ℕ)) (s : PackBuffer) (o : Outcome (Unit {0})) (pb : PackBuffer)
    → length (held s) ≡ 0
    → Emitted malloc s (replicate 12 0) o pb
    → let r = continue o pb (λ _. pure twelve) in Made malloc (continue r.0 r.1 packs).0
unfolding body pack_bytes twelve
Made-body malloc s (ok tt) pb z (p, h) =
    let n = ap length h in
    let l = length-append (held s) (replicate 12 0) in
    (
      record {
        buffer = p;
        head = refl;
        offset = refl;
        room = omega arith;
        fits = cleared-FitsHeader;
      },
      drop_all 12 (held pb) (omega arith),
      refl,
    )
Made-body malloc s (thrown x) pb z (p, q, inl l) = absurd (omega arith)
Made-body malloc s (thrown x) pb z (p, q, inr w) = w
Made-body malloc s fault pb z h = h

-- The constructor makes a valid Encoder with an empty body and a cleared header, unless memory runs
-- out.
pub new_encoder-Made :
    (malloc : ℕ → ℕ → Option (List ℕ)) (p : Pool)
    → Answers malloc
    → Made malloc (new_encoder malloc p).0
unfolding new_encoder new_pack resize checked new Buffer.resize twelve packet_buffer
new_encoder-Made malloc p answers =
    Made-body malloc (record { bb = new 16; pool = p }) _ _ refl
      (resize-Emitted malloc answers 12 12 _ (packet_buffer-PackValid p) (omega arith)
        (omega arith))

-- `clear` succeeds on every valid Encoder, and leaves it with an empty body and a cleared header.
pub clear-EncoderValid :
    (malloc : ℕ → ℕ → Option (List ℕ)) (e : Encoder)
    → EncoderValid e
    → let (o, e') = clear malloc e in
      (o ≡ ok tt) × EncoderValid e' × (body e' ≡ []) × (e'.header ≡ cleared)
unfolding clear on_buffer update_header resize checked Buffer.resize body pack_bytes
clear-EncoderValid malloc e v =
    let l = length-contents v.buffer.valid in
    let c = cut-Edited 12 v.buffer.valid (omega (arith, v.room)) in
    let short : ltb e.pb.bb.size 12 ≡ false = ground (arith, v.room) in
    let n = ap length c.bytes in
    let k = length-take 12 (held e.pb) in
    rw short (
      refl,
      record {
        buffer = record { valid = c.valid; limit = v.buffer.limit };
        head = v.head;
        offset = v.offset;
        room = omega (arith, v.room);
        fits = cleared-FitsHeader;
      },
      drop_all e.body_offset _ (omega (arith, v.room, v.offset)),
      refl,
    )
