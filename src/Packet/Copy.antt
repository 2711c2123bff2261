-- ===== src/Packet/Copy.antt =====
-- The copy constructor of the Encoder in net/packet.h.
use deps.Prelude.{ℕ, ◌+◌, ◌^◌, ◌≤◌, ◌<◌, ◌≡◌, refl, ap, ◌∙◌, arith}
use deps.Prelude.{Option, List, [], ◌++◌, append-nil, inl, inr}
use deps.Prelude.{length, take, drop, length-take, length-drop, drop_all}
use deps.Prelude.{take_append_drop}
use deps.Buffer.{Pool}
use deps.Buffer.Growth.{Answers, length-contents}
use deps.Buffer.Contents.{overwritten}
use deps.Buffer.Capacity.{Starved}
use deps.Marshal.Outcome.{Outcome, ok, thrown, fault}
use deps.Marshal.Pack.{PackBuffer, replace, pack_bytes}
use deps.Marshal.Emit.{held, PackValid, Emitted, push-Emits}
use deps.Packet.{Encoder, copy_bytes, filled, copied, copy_encoder, body, bytes}
use deps.Packet.Encode.{replace-Wrote}
use deps.Packet.Serialize.{EncoderValid}
use deps.Packet.Fresh.{Made, new_encoder-Made}

-- The outcome of copying `s`.
abbrev pub Copied : (ℕ → ℕ → Option (List ℕ)) → Encoder → Outcome Encoder → Type 0
Copied malloc s (ok e) =
    EncoderValid e × (bytes e ≡ bytes s) × (body e ≡ body s) × (e.header ≡ s.header)
Copied malloc s (thrown x) = Starved malloc
Copied malloc s fault = ⊥

-- The outcome of the calls on the new buffer.
abbrev Twin : (ℕ → ℕ → Option (List ℕ)) → Encoder → Outcome (Unit {0}) → PackBuffer → Type 0
Twin malloc s (ok u) pb = PackValid pb × (held pb ≡ held s.pb)
Twin malloc s (thrown x) pb = Starved malloc
Twin malloc s fault pb = ⊥

module _ (malloc : ℕ → ℕ → Option (List ℕ)) (answers : Answers malloc) where
  pushed-Twin :
      (s : Encoder) (pb : PackBuffer) (o : Outcome (Unit {0})) (pb' : PackBuffer)
      → EncoderValid s
      → held pb ≡ take 12 (held s.pb)
      → Emitted malloc pb (drop 12 (held s.pb)) o pb'
      → Twin malloc s o pb'
  pushed-Twin s pb (ok u) pb' v e (p, h) =
      (p, h ∙ ap (λ t. t ++ drop 12 (held s.pb)) e ∙ take_append_drop 12 (held s.pb))
  pushed-Twin s pb (thrown x) pb' v e (p, q, inl l) = absurd (
      omega (
        arith,
        ap length e,
        length-take 12 (held s.pb),
        length-drop 12 (held s.pb),
        v.room,
        length-contents v.buffer.valid,
        v.buffer.valid,
      ))
  pushed-Twin s pb (thrown x) pb' v e (p, q, inr w) = w
  pushed-Twin s pb fault pb' v e h = h

  -- The twelve bytes of the header, then the body.
  copy_bytes-Twin :
      (s e : Encoder)
      → EncoderValid s
      → EncoderValid e
      → body e ≡ []
      → Twin malloc s (copy_bytes malloc s e.pb).0 (copy_bytes malloc s e.pb).1
  unfolding copy_bytes body pack_bytes
  copy_bytes-Twin s e v w z =
      let front : List ℕ = take 12 (held s.pb) in
      let n : length front ≡ 12 = omega (arith, length-take 12 (held s.pb), v.room) in
      let short : length (held e.pb) ≤ 12 =
        omega (arith, ap length z, w.offset, length-drop e.body_offset (held e.pb)) in
      let r = replace-Wrote malloc answers 0 front e.pb w.buffer (omega (arith, w.room)) in
      let over : overwritten 0 front (held e.pb) ≡ front =
        ap (λ t. front ++ t) (drop_all (0 + length front) (held e.pb) (omega arith))
        ∙ append-nil front in
      let small : length (drop 12 (held s.pb)) < 2 ^ 64 =
        omega (arith, length-drop 12 (held s.pb), length-contents v.buffer.valid, v.buffer.valid) in
      rw (v.head, v.offset, r.answer)
        (pushed-Twin s (replace malloc 0 front e.pb).1 _ _ v (r.bytes ∙ over)
          (push-Emits malloc answers (drop 12 (held s.pb)) small _ r.valid))

  filled-Copied :
      (s e : Encoder) (o : Outcome (Unit {0})) (pb : PackBuffer)
      → EncoderValid s
      → EncoderValid e
      → Twin malloc s o pb
      → Copied malloc s (filled malloc s e (o, pb)).0
  unfolding filled body bytes pack_bytes
  filled-Copied s e (ok u) pb v w (p, h) = (
    record {
      buffer = p;
      head = w.head;
      offset = w.offset;
      room = omega (arith, v.room, ap length h);
      fits = v.fits;
    },
    h,
    rw (v.offset, w.offset, h) refl,
    refl,
  )
  filled-Copied s e (thrown x) pb v w t = t
  filled-Copied s e fault pb v w t = t

  copied-Copied :
      (s : Encoder) (o : Outcome Encoder) (pb : PackBuffer)
      → EncoderValid s
      → Made malloc o
      → Copied malloc s (copied malloc s (o, pb)).0
  unfolding copied
  copied-Copied s (ok e) pb v (w, z, h) = filled-Copied s e _ _ v w (copy_bytes-Twin s e v w z)
  copied-Copied s (thrown x) pb v m = m
  copied-Copied s fault pb v m = m

  -- A copy of a valid Encoder is a valid Encoder of its own with the same bytes, body and header, unless
  -- memory runs out.
  pub copy_encoder-Copied :
      (s : Encoder) (p : Pool) → EncoderValid s → Copied malloc s (copy_encoder malloc s p).0
  unfolding copy_encoder
  copy_encoder-Copied s p v = copied-Copied s _ _ v (new_encoder-Made malloc p answers)
