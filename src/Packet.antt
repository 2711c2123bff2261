-- ===== src/Packet.antt =====
-- net/packet.h: the packet header, the Encoder and the Decoder.
pub mod Header
pub mod Encode
pub mod Serialize
pub mod Fresh
pub mod Copy
pub mod RoundTrip
mod Tests
use deps.Prelude.{
  ℕ, ◌+◌, ◌*◌, ◌%◌, ◌^◌, ◌≤◌, ◌<◌, ◌≡◌, Bool, Option, none, some, List, take, drop, length,
}
use deps.Buffer.{Pool, add_size}
use deps.Buffer
use deps.Buffer.Growth.{contents}
use deps.Marshal.Outcome.{Outcome, ok, M, pure, continue, ◌>>=◌, ◌>>◌}
use deps.Marshal.Bytes.{host_value}
use deps.Marshal.Pack.{
  PackBuffer, packet_blocks, new_pack, replace_uint16, replace_uint32, replace, push,
}
use deps.Marshal.Pack.{resize, pack_bytes, pack_size}
use deps.Marshal.Unpack.{Unpack, reset, pop_uint16, pop_uint32, xntoh}
use Header.{PacketHeader, cleared, set_length, set_sub_cmd, set_check_code, set_main_cmd, set_seq}

abbrev pub max_packet_size : ℕ
max_packet_size = 65535

abbrev pub main_proto_header_size : ℕ
main_proto_header_size = 8

abbrev pub sub_proto_header_size : ℕ
sub_proto_header_size = 4

abbrev pub header_size : ℕ
header_size = main_proto_header_size + sub_proto_header_size

-- struct Encoder. `head_offset` and `body_offset` are the offsets of headPack and bodyPack.
pub record Encoder : Type 0 where
  pub header : PacketHeader
  pub pb : PackBuffer
  pub head_offset : ℕ
  pub body_offset : ℕ

unfoldable pub body_size : Encoder → ℕ
body_size e = pack_size e.body_offset e.pb

unfoldable pub body : Encoder → List ℕ
body e = pack_bytes e.body_offset e.pb

unfoldable pub size : Encoder → ℕ
size e = add_size header_size (body_size e)

-- data(): the bytes of the whole packet.
unfoldable pub bytes : Encoder → List ℕ
bytes e = contents e.pb.bb

-- A call on the PackBuffer of the encoder.
unfoldable pub on_buffer : {A : Type 0} → M PackBuffer A → M Encoder A
on_buffer m e = let (o, pb) = m e.pb in (o, record e { pb = pb })

-- Assignments to the header.
unfoldable pub update_header : (Encoder → PacketHeader) → M Encoder (Unit {0})
update_header f e = (ok tt, record e { header = f e })

unfoldable pub set_encoder_seq : ℕ → Encoder → Encoder
set_encoder_seq seq e = record e { header = set_seq seq e.header }

-- `check_code_func ? check_code_func(body, size) : 0`, a uint16_t.
unfoldable pub check_code : Option (List ℕ → ℕ) → List ℕ → ℕ
check_code none bs = 0
check_code (some f) bs = f bs % 2 ^ 16

-- The three setters of `serialize`.
unfoldable pub stamped : ℕ → Option (List ℕ → ℕ) → Encoder → PacketHeader
stamped sub_cmd check e =
    set_check_code (check_code check (body e)) (set_sub_cmd sub_cmd (set_length (size e) e.header))

module _ (malloc : ℕ → ℕ → Option (List ℕ)) where
  -- The constructor. The offset of a Pack is fixed when it is made.
  unfoldable pub new_encoder : Pool → Outcome Encoder × PackBuffer
  new_encoder p =
      (new_pack malloc 0 >>= λ head. new_pack malloc header_size >>= λ after. λ pb.
          (ok (record { header = cleared; pb = pb; head_offset = head; body_offset = after }), pb))
        (record { bb = Buffer.new packet_blocks; pool = p })

  unfoldable pub clear : M Encoder (Unit {0})
  clear = on_buffer (resize malloc header_size) >> update_header (λ _. cleared)

  -- The five calls on headPack that write the header over the first bytes of the buffer.
  unfoldable pub write_header : PacketHeader → M PackBuffer ℕ
  write_header h = do
    _ ← replace_uint16 malloc 0 h.main.length
    _ ← replace_uint16 malloc 2 h.main.cmd
    _ ← replace_uint32 malloc 4 h.main.seq
    _ ← replace_uint16 malloc 8 h.sub.cmd
    replace_uint16 malloc 10 h.sub.check_code

  -- `marshal` is what `m.marshal(bodyPack)` does.
  unfoldable pub serialize : ℕ → M PackBuffer (Unit {0}) → Option (List ℕ → ℕ) → M Encoder ℕ
  serialize sub_cmd marshal check = do
    on_buffer marshal
    update_header (stamped sub_cmd check)
    λ e. on_buffer (write_header e.header) e

  -- The two calls of the copy constructor on its own Packs.
  unfoldable pub copy_bytes : Encoder → M PackBuffer (Unit {0})
  copy_bytes s = do
    _ ← replace malloc 0 (take header_size (pack_bytes s.head_offset s.pb))
    push malloc (body s)

  unfoldable pub filled :
      Encoder → Encoder → Outcome (Unit {0}) × PackBuffer → Outcome Encoder × PackBuffer
  filled s e (o, pb) =
      continue o pb (λ _. λ pb'. (ok (record e { header = s.header; pb = pb' }), pb'))

  unfoldable pub copied : Encoder → Outcome Encoder × PackBuffer → Outcome Encoder × PackBuffer
  copied s (o, pb) = continue o pb (λ e. λ _. filled s e (copy_bytes s e.pb))

  -- The copy constructor.
  unfoldable pub copy_encoder : Encoder → Pool → Outcome Encoder × PackBuffer
  copy_encoder s p = copied s (new_encoder p)

-- minSize, maxSize and mainHeaderSize of Decoder.
abbrev pub min_size : ℕ
min_size = main_proto_header_size + sub_proto_header_size

abbrev pub max_size : ℕ
max_size = max_packet_size

-- class Decoder: the constructor's second parameter is a uint16_t.
unfoldable pub new_decoder : List ℕ → ℕ → Unpack
new_decoder bs sz = reset bs (sz % 2 ^ 16)

-- `deserialize` into a header and, by `unmarshal`, into a message.
unfoldable pub deserialize : {A : Type 0} → PacketHeader → M Unpack A → M Unpack (PacketHeader × A)
deserialize header unmarshal = do
  len ← pop_uint16
  cmd ← pop_uint16
  seq ← pop_uint32
  sub ← pop_uint16
  check ← pop_uint16
  msg ← unmarshal
  pure (
    set_check_code check (set_sub_cmd sub (set_seq seq (set_main_cmd cmd (set_length len header)))),
    msg,
  )

-- pickLen and the others read a header in place.
unfoldable pub pick : ℕ → ℕ → List ℕ → ℕ
pick off k bs = xntoh (host_value (take k (drop off bs)))

unfoldable pub pick_len : List ℕ → ℕ
unfolding pick
pick_len = pick 0 2

unfoldable pub pick_cmd : List ℕ → ℕ
unfolding pick
pick_cmd = pick 2 2

unfoldable pub pick_seq : List ℕ → ℕ
unfolding pick
pick_seq = pick 4 4

unfoldable pub pick_sub_cmd : List ℕ → ℕ
unfolding pick
pick_sub_cmd = pick 8 2

unfoldable pub pick_check_code : List ℕ → ℕ
unfolding pick
pick_check_code = pick 10 2
