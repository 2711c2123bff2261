-- ===== src/Packet/RoundTrip.antt =====
-- What a Decoder and the pick functions of net/packet.h read from the packets that an Encoder makes.
use deps.Prelude.{ℕ, ◌+◌, ◌%◌, ◌^◌, ◌≤◌, ◌≡◌, refl, sym, ap, ◌∙◌, arith}
use deps.Prelude.{Option, List, [], ◌++◌, append-nil}
use deps.Prelude.{length, length-append}
use mathlib.Core.Path.{ap₂}
use deps.Prelude.{inl, inr}
use deps.Buffer.Growth.{Answers}
use deps.Buffer.Capacity.{Supplies}
use deps.Marshal.Outcome.{Outcome, ok, thrown, fault, M, pure, ◌>>=◌}
use deps.Marshal.Bytes.{host_bytes, host_value-host_bytes}
use deps.Marshal.Pack.{PackBuffer}
use deps.Marshal.Unpack.{Unpack, reset, xntoh, pop_uint16, pop_uint32}
use deps.Marshal.Emit.{Emits}
use deps.Marshal.Parse.{after, Parses, Parses->>=, Parses-map, pop_uint16-Parses, pop_uint32-Parses}
use deps.Packet.{max_packet_size, Encoder, serialize, deserialize, new_decoder, bytes, body}
use deps.Packet.{pick_len, pick_cmd, pick_seq, pick_sub_cmd, pick_check_code}
use deps.Packet.Header.{
  PacketHeader, FitsHeader, header_bytes, set_length, set_main_cmd, set_seq, set_sub_cmd,
}
use deps.Packet.Header.{set_check_code}
use deps.Packet.Serialize.{EncoderValid, IsPacket, Serialized, serialize-Serialized}

-- Setting every field to the values of `h` gives `h`.
set_fields :
    (h h' : PacketHeader)
    → FitsHeader h
    → set_check_code h.sub.check_code (
        set_sub_cmd h.sub.cmd
          (set_seq h.main.seq (set_main_cmd h.main.cmd (set_length h.main.length h'))))
      ≡ h
unfolding set_check_code set_sub_cmd set_seq set_main_cmd set_length
set_fields h h' f = ground arith

-- A Decoder takes the header and what `unmarshal` takes behind it.
pub deserialize-Parses :
    {A : Type 0} (unmarshal : M Unpack A) (bs : List ℕ) (msg : A) (h h' : PacketHeader)
    → FitsHeader h
    → Parses unmarshal bs msg
    → Parses (deserialize h' unmarshal) (header_bytes h ++ bs) (h, msg)
unfolding deserialize host_bytes
deserialize-Parses {A} unmarshal bs msg h h' f p =
    let l = host_bytes 2 h.main.length in
    let c = host_bytes 2 h.main.cmd in
    let q = host_bytes 4 h.main.seq in
    let s = host_bytes 2 h.sub.cmd in
    let k = host_bytes 2 h.sub.check_code in
    let all : ℕ → ℕ → ℕ → ℕ → ℕ → A → PacketHeader × A = λ len cmd seq sub check m. (
      set_check_code check (set_sub_cmd sub (set_seq seq (set_main_cmd cmd (set_length len h')))),
      m,
    ) in
    let f5 : ℕ → ℕ → ℕ → ℕ → ℕ → M Unpack (PacketHeader × A) =
      λ len cmd seq sub check. unmarshal >>= λ m. pure (all len cmd seq sub check m) in
    let f4 : ℕ → ℕ → ℕ → ℕ → M Unpack (PacketHeader × A) =
      λ len cmd seq sub. pop_uint16 >>= f5 len cmd seq sub in
    let f3 : ℕ → ℕ → ℕ → M Unpack (PacketHeader × A) =
      λ len cmd seq. pop_uint16 >>= f4 len cmd seq in
    let f2 : ℕ → ℕ → M Unpack (PacketHeader × A) = λ len cmd. pop_uint32 >>= f3 len cmd in
    let f1 : ℕ → M Unpack (PacketHeader × A) = λ len. pop_uint16 >>= f2 len in
    let a = h.main.length in
    let b = h.main.cmd in
    let d = h.main.seq in
    let e = h.sub.cmd in
    let g = h.sub.check_code in
    let r = all a b d e g msg in
    let p5 = Parses-map unmarshal (all a b d e g) bs msg p in
    let p4 = Parses->>= pop_uint16 (f5 a b d e) k bs g r (pop_uint16-Parses g f.check_code) p5 in
    let p3 = Parses->>= pop_uint16 (f4 a b d) s (k ++ bs) e r (pop_uint16-Parses e f.sub_cmd) p4 in
    let p2 = Parses->>= pop_uint32 (f3 a b) q (s ++ (k ++ bs)) d r (pop_uint32-Parses d f.seq) p3 in
    let p1 =
      Parses->>= pop_uint16 (f2 a) c (q ++ (s ++ (k ++ bs))) b r (pop_uint16-Parses b f.cmd) p2 in
    let p0 =
      Parses->>= pop_uint16 f1 l (c ++ (q ++ (s ++ (k ++ bs)))) a r (pop_uint16-Parses a f.length)
        p1 in
    λ rest n. p0 rest n ∙ ap (λ x. (ok (x, msg), after rest n)) (set_fields h h' f)

-- The pick functions read the fields of a header where it stands.
pick_header :
    (h : PacketHeader) (bs : List ℕ)
    → FitsHeader h
    → let packet = header_bytes h ++ bs in
      (pick_len packet ≡ h.main.length)
      × (pick_cmd packet ≡ h.main.cmd)
      × (pick_seq packet ≡ h.main.seq)
      × (pick_sub_cmd packet ≡ h.sub.cmd)
      × (pick_check_code packet ≡ h.sub.check_code)
unfolding pick_len pick_cmd pick_seq pick_sub_cmd pick_check_code xntoh host_bytes
pick_header h bs f = (
  host_value-host_bytes 2 h.main.length f.length,
  host_value-host_bytes 2 h.main.cmd f.cmd,
  host_value-host_bytes 4 h.main.seq f.seq,
  host_value-host_bytes 2 h.sub.cmd f.sub_cmd,
  host_value-host_bytes 2 h.sub.check_code f.check_code,
)

-- A packet that is there: what the cases of a serialization come to when it did not throw.
record Packed (e : Encoder) (bs : List ℕ) (o : Outcome ℕ) (e' : Encoder) : Type 0 where
  answer : (k : ℕ) × (o ≡ ok k)
  valid : EncoderValid e'
  packet : IsPacket e'
  same_body : body e' ≡ body e ++ bs

Packed-of :
    (malloc : ℕ → ℕ → Option (List ℕ)) (e : Encoder) (bs : List ℕ) (sub_cmd : ℕ)
    (check : Option (List ℕ → ℕ)) (o : Outcome ℕ) (e' : Encoder)
    → Supplies malloc
    → 12 + length (body e) + length bs ≤ 65536
    → Serialized malloc e bs sub_cmd check o e'
    → Packed e bs o e'
Packed-of malloc e bs sub_cmd check (ok k) e' s l (v, p, b, _, _, _, _) = record {
  answer = (k, refl);
  valid = v;
  packet = p;
  same_body = b;
}
Packed-of malloc e bs sub_cmd check (thrown x) e' s l (_, inl g) = absurd (omega arith)
Packed-of malloc e bs sub_cmd check (thrown x) e' s l (_, inr (i, n, w)) = absurd (s i n w)
Packed-of malloc e bs sub_cmd check fault e' s l h = absurd h

length-packet : {e : Encoder} → IsPacket e → length (bytes e) ≡ 12 + length (body e)
unfolding host_bytes
length-packet {e} p = ap length p.layout ∙ omega arith

module _ (malloc : ℕ → ℕ → Option (List ℕ)) (answers : Answers malloc)
    (supplies : Supplies malloc) where
  -- While memory lasts, a message that fits a packet is serialized by an encoder with an empty body,
  -- and a decoder on the bytes reads back the header that was written and the message, to the last
  -- byte, whatever stood in the header before.
  pub deserialize-serialize :
      {A : Type 0} (e : Encoder) (marshal : M PackBuffer (Unit {0})) (bs : List ℕ)
      (unmarshal : M Unpack A) (msg : A) (sub_cmd : ℕ) (check : Option (List ℕ → ℕ))
      (h' : PacketHeader)
      → EncoderValid e
      → body e ≡ []
      → Emits malloc marshal bs
      → Parses unmarshal bs msg
      → 12 + length bs ≤ max_packet_size
      → let (o, e') = serialize malloc sub_cmd marshal check e in
        ((k : ℕ) × (o ≡ ok k))
        × (deserialize h' unmarshal (new_decoder (bytes e') (length (bytes e')))
            ≡ (ok (e'.header, msg), after [] 0))
  unfolding new_decoder reset
  deserialize-serialize e marshal bs unmarshal msg sub_cmd check h' v b m u l =
      let e' = (serialize malloc sub_cmd marshal check e).1 in
      let p =
        Packed-of malloc e bs sub_cmd check _ e' supplies (omega (arith, ap length b))
          (serialize-Serialized malloc answers e marshal bs sub_cmd check v m) in
      let whole : bytes e' ≡ header_bytes e'.header ++ bs =
        p.packet.layout
        ∙ ap (λ t. header_bytes e'.header ++ t) (p.same_body ∙ ap (λ t. t ++ bs) b) in
      let size : length (bytes e') % 2 ^ 16 ≡ length (header_bytes e'.header ++ bs) + 0 = omega (
        arith,
        length-packet p.packet,
        ap length whole,
        ap length p.same_body,
        ap length b,
        length-append (body e) bs,
      ) in
      (
        p.answer,
        ap (deserialize h' unmarshal) (
              ap₂ (λ (t : List ℕ) (n : ℕ). record { bytes = t; size = n })
                (whole ∙ sym (append-nil (header_bytes e'.header ++ bs))) size)
            ∙ deserialize-Parses unmarshal bs msg e'.header h' p.valid.fits u [] 0,
      )

  -- While malloc answers, the packet that serialize makes of a valid encoder within 64K has the twelve
  -- bytes of the header, the body of before and the message, and the pick functions read from it the
  -- fields of its header; the length that they read is the length of the packet modulo 65536.
  pub pick-serialize :
      (e : Encoder) (marshal : M PackBuffer (Unit {0})) (bs : List ℕ) (sub_cmd : ℕ)
      (check : Option (List ℕ → ℕ))
      → EncoderValid e
      → Emits malloc marshal bs
      → 12 + length (body e) + length bs ≤ 65536
      → let (o, e') = serialize malloc sub_cmd marshal check e in
        (bytes e' ≡ header_bytes e'.header ++ (body e ++ bs))
        × (length (bytes e') ≡ 12 + length (body e) + length bs)
        × (pick_len (bytes e') ≡ length (bytes e') % 2 ^ 16)
        × (pick_cmd (bytes e') ≡ e'.header.main.cmd)
        × (pick_seq (bytes e') ≡ e'.header.main.seq)
        × (pick_sub_cmd (bytes e') ≡ e'.header.sub.cmd)
        × (pick_check_code (bytes e') ≡ e'.header.sub.check_code)
  pick-serialize e marshal bs sub_cmd check v m l =
      let e' = (serialize malloc sub_cmd marshal check e).1 in
      let p =
        Packed-of malloc e bs sub_cmd check _ e' supplies l
          (serialize-Serialized malloc answers e marshal bs sub_cmd check v m) in
      let (len, cmd, seq, sub, code) = pick_header e'.header (body e') p.valid.fits in
      let n = length-packet p.packet in
      (
        p.packet.layout ∙ ap (λ t. header_bytes e'.header ++ t) p.same_body,
        omega (arith, n, ap length p.same_body, length-append (body e) bs),
        ap pick_len p.packet.layout ∙ len ∙ p.packet.counted ∙ ap (λ t. t % 2 ^ 16) (sym n),
        ap pick_cmd p.packet.layout ∙ cmd,
        ap pick_seq p.packet.layout ∙ seq,
        ap pick_sub_cmd p.packet.layout ∙ sub,
        ap pick_check_code p.packet.layout ∙ code,
      )
