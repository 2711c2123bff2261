-- ===== src/Packet/Serialize.antt =====
-- `serialize` of net/packet.h: the packet that an Encoder holds afterwards.
use deps.Prelude.{ℕ, ◌+◌, ◌%◌, ◌^◌, ◌≤◌, ◌<◌, ◌≡◌, refl, sym, ap, ◌∙◌, arith}
use deps.Prelude.{Option, none, some, List, ◌++◌}
use deps.Prelude.{length, drop, length-append, length-drop, drop-append_le, ◌⊎◌, inl, inr}
use deps.Buffer.Growth.{Answers, length-contents}
use deps.Buffer.Capacity.{Starved}
use deps.Marshal.Outcome.{Outcome, ok, thrown, fault, M, continue, ◌>>=◌}
use deps.Marshal.Bytes.{host_bytes}
use deps.Marshal.Pack.{PackBuffer, pack_bytes, pack_size}
use deps.Marshal.Emit.{held, PackValid, Emits, Emitted}
use deps.Packet.{
  Encoder, write_header, serialize, on_buffer, update_header, stamped, check_code, body, body_size,
}
use deps.Packet.{bytes, size}
use deps.Packet.Header.{
  PacketHeader, FitsHeader, header_bytes, set_length, set_sub_cmd, set_check_code,
}
use deps.Packet.Encode.{write_header-Wrote}

-- An Encoder between two calls: 12 bytes are kept for the header, and the body stands behind them.
pub record EncoderValid (e : Encoder) : Type 0 where
  pub buffer : PackValid e.pb
  pub head : e.head_offset ≡ 0
  pub offset : e.body_offset ≡ 12
  pub room : 12 ≤ length (held e.pb)
  pub fits : FitsHeader e.header

-- A packet: the header in its twelve bytes, then the body, and the length of both in the header, as
-- far as 16 bits hold it.
pub record IsPacket (e : Encoder) : Type 0 where
  pub layout : bytes e ≡ header_bytes e.header ++ body e
  pub counted : e.header.main.length ≡ (12 + length (body e)) % 2 ^ 16

-- The outcome of serializing a message of bytes `bs` behind the body of `e`.
abbrev pub Serialized :
    (ℕ → ℕ → Option (List ℕ))
    → Encoder
    → List ℕ
    → ℕ
    → Option (List ℕ → ℕ)
    → Outcome ℕ
    → Encoder
    → Type 0
Serialized malloc e bs sub_cmd check (ok k) e' =
    EncoderValid e'
    × IsPacket e'
    × (body e' ≡ body e ++ bs)
    × (e'.header.main.cmd ≡ e.header.main.cmd)
    × (e'.header.main.seq ≡ e.header.main.seq)
    × (e'.header.sub.cmd ≡ sub_cmd % 2 ^ 16)
    × (e'.header.sub.check_code ≡ check_code check (body e'))
Serialized malloc e bs sub_cmd check (thrown x) e' =
    (e'.header ≡ e.header) × ((65536 < 12 + length (body e) + length bs) ⊎ Starved malloc)
Serialized malloc e bs sub_cmd check fault e' = ⊥

stamped-FitsHeader :
    (sub_cmd : ℕ) (check : Option (List ℕ → ℕ)) (e : Encoder)
    → FitsHeader e.header
    → FitsHeader (stamped sub_cmd check e)
unfolding stamped set_length set_sub_cmd set_check_code
stamped-FitsHeader sub_cmd check e f = record {
  length = omega arith;
  cmd = f.cmd;
  seq = f.seq;
  sub_cmd = omega arith;
  check_code = omega arith;
}

check_code-lt : (check : Option (List ℕ → ℕ)) (bs : List ℕ) → check_code check bs < 2 ^ 16
unfolding check_code
check_code-lt none bs = omega arith
check_code-lt (some f) bs = omega arith

-- The fields after the three setters.
stamped-fields :
    (sub_cmd : ℕ) (check : Option (List ℕ → ℕ)) (e : Encoder)
    → let h = stamped sub_cmd check e in
      (h.main.length ≡ size e % 2 ^ 16)
      × (h.main.cmd ≡ e.header.main.cmd)
      × (h.main.seq ≡ e.header.main.seq)
      × (h.sub.cmd ≡ sub_cmd % 2 ^ 16)
      × (h.sub.check_code ≡ check_code check (body e))
unfolding stamped set_length set_sub_cmd set_check_code
stamped-fields sub_cmd check e =
    (refl, refl, refl, refl, omega (arith, check_code-lt check (body e)))

-- The size that `serialize` puts into the header.
size-held :
    {e : Encoder} → EncoderValid e → (size e ≡ length (held e.pb)) × (size e ≡ 12 + length (body e))
unfolding size body_size pack_size body pack_bytes
size-held {e} v =
    let l = length-contents v.buffer.valid in
    let d = length-drop e.body_offset (held e.pb) in
    (
      omega (arith, v.buffer.valid, v.offset, v.room),
      omega (arith, v.buffer.valid, v.offset, v.room),
    )

-- An Encoder whose header has been written.
written : Encoder → PacketHeader → PackBuffer → Encoder
written e h pb = record e { header = h; pb = pb }

written-body :
    {e : Encoder} (h : PacketHeader) (pb : PackBuffer)
    → EncoderValid e
    → PackValid pb
    → held pb ≡ header_bytes h ++ drop 12 (held e.pb)
    → FitsHeader h
    → EncoderValid (written e h pb)
      × (body (written e h pb) ≡ body e)
      × (bytes (written e h pb) ≡ header_bytes h ++ body e)
unfolding written body bytes pack_bytes host_bytes
written-body {e} h pb v p k f = (
  record { buffer = p; head = v.head; offset = v.offset; room = rw k (omega arith); fits = f },
  rw (v.offset, k) refl,
  rw (v.offset, k) refl,
)

body-append :
    (e : Encoder) (pb : PackBuffer) (bs : List ℕ)
    → EncoderValid e
    → held pb ≡ held e.pb ++ bs
    → body (record e { pb = pb }) ≡ body e ++ bs
unfolding body pack_bytes
body-append e pb bs v h =
    ap (drop e.body_offset) h
    ∙ drop-append_le e.body_offset (held e.pb) bs (omega (arith, v.offset, v.room))

module _ (malloc : ℕ → ℕ → Option (List ℕ)) (answers : Answers malloc) where
  -- What follows the packing of the message in `serialize`.
  abbrev rest : ℕ → Option (List ℕ → ℕ) → M Encoder ℕ
  rest sub_cmd check =
      update_header (stamped sub_cmd check) >>= λ _. λ e. on_buffer (write_header malloc e.header) e

  rest-Serialized :
      (e e' : Encoder) (bs : List ℕ) (sub_cmd : ℕ) (check : Option (List ℕ → ℕ))
      → EncoderValid e'
      → e'.header ≡ e.header
      → body e' ≡ body e ++ bs
      → Serialized malloc e bs sub_cmd check (rest sub_cmd check e').0 (rest sub_cmd check e').1
  unfolding update_header on_buffer written
  rest-Serialized e e' bs sub_cmd check v k b =
      let h = stamped sub_cmd check e' in
      let w = write_header-Wrote malloc answers h (held e'.pb) e'.pb v.buffer refl v.room in
      let f = stamped-FitsHeader sub_cmd check e' v.fits in
      let (valid, same, whole) = written-body h _ v w.valid w.bytes f in
      let (len, cmd, seq, sub, code) = stamped-fields sub_cmd check e' in
      rw w.answer (
        valid,
        record {
          layout = whole ∙ ap (λ t. header_bytes h ++ t) (sym same);
          counted =
              len ∙ ap (λ k. k % 2 ^ 16) ((size-held v).1 ∙ ap (λ t. 12 + length t) (sym same));
        },
        same ∙ b,
        cmd ∙ ap (λ g. g.main.cmd) k,
        seq ∙ ap (λ g. g.main.seq) k,
        sub,
        code ∙ ap (check_code check) (sym same),
      )

  serialize_after :
      (e : Encoder) (bs : List ℕ) (sub_cmd : ℕ) (check : Option (List ℕ → ℕ))
      (o : Outcome (Unit {0})) (pb : PackBuffer)
      → EncoderValid e
      → Emitted malloc e.pb bs o pb
      → let r = continue o (record e { pb = pb }) (λ _. rest sub_cmd check) in
        Serialized malloc e bs sub_cmd check r.0 r.1
  serialize_after e bs sub_cmd check (ok tt) pb v (p, h) =
      let e' : Encoder = record e { pb = pb } in
      rest-Serialized e e' bs sub_cmd check
        (record {
          buffer = p;
          head = v.head;
          offset = v.offset;
          room = omega (arith, v.room, ap length h, length-append (held e.pb) bs);
          fits = v.fits;
        })
        refl (body-append e pb bs v h)
  serialize_after e bs sub_cmd check (thrown x) pb v (p, q, inl l) =
      (refl, inl (omega (arith, size-held v)))
  serialize_after e bs sub_cmd check (thrown x) pb v (p, q, inr w) = (refl, inr w)
  serialize_after e bs sub_cmd check fault pb v h = h

  -- Serializing a message that packs as `bs` either answers with the whole packet in the buffer: the
  -- header with the fields that were set, then the body of before with `bs` behind it; or it throws,
  -- only if 64K are passed or memory runs out, and the header fields stay as they were.
  pub serialize-Serialized :
      (e : Encoder) (marshal : M PackBuffer (Unit {0})) (bs : List ℕ) (sub_cmd : ℕ)
      (check : Option (List ℕ → ℕ))
      → EncoderValid e
      → Emits malloc marshal bs
      → let (o, e') = serialize malloc sub_cmd marshal check e in
        Serialized malloc e bs sub_cmd check o e'
  unfolding serialize on_buffer
  serialize-Serialized e marshal bs sub_cmd check v m =
      serialize_after e bs sub_cmd check (marshal e.pb).0 (marshal e.pb).1 v (m e.pb v.buffer)
