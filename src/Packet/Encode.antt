-- ===== src/Packet/Encode.antt =====
-- What `serialize` of net/packet.h leaves in the buffer of an Encoder.
use deps.Prelude.{ℕ, ◌+◌, ◌≤◌, ◌≡◌, refl, sym, ap, ◌∙◌, arith}
use deps.Prelude.{Bool, true, false, Option, List, [], ◌++◌, append_assoc}
use deps.Prelude.{
  length, drop, length-append, take-append_at, drop-append_at, drop-drop, length-drop,
}
use mathlib.Core.Path.{ap₂}
use deps.Buffer.{Buffer, Pool, add_size}
use deps.Buffer.Growth.{Answers, length-contents}
use deps.Buffer.Contents.{Answer, overwritten, replace-Answer}
use deps.Buffer.Capacity.{replace_inside_true}
use deps.Marshal.Outcome.{Outcome, ok, M, pure, continue}
use deps.Marshal.Bytes.{host_bytes}
use deps.Marshal.Pack.{
  PackBuffer, checked, replace_bytes, replace, replace_uint16, replace_uint32, xhton,
}
use deps.Marshal.Emit.{held, PackValid}
use deps.Packet.{write_header}
use deps.Packet.Header.{PacketHeader, header_bytes}

-- `overwritten` at the place that a first part ends.
overwritten_at :
    (k : ℕ) (pre rep tail : List ℕ)
    → k ≡ length pre
    → overwritten k rep (pre ++ tail) ≡ (pre ++ rep) ++ drop (length rep) tail
overwritten_at k pre rep tail e =
    ap₂ (λ xs ys. xs ++ (rep ++ ys)) (take-append_at k pre tail e)
      (sym (drop-drop k (length rep) (pre ++ tail))
        ∙ ap (drop (length rep)) (drop-append_at k pre tail e))
    ∙ sym (append_assoc pre rep (drop (length rep) tail))

-- The outcome of writing within the bytes held.
pub record Wrote (k : ℕ) (cs : List ℕ) (o : Outcome ℕ) (s : PackBuffer) : Type 0 where
  pub answer : o ≡ ok k
  pub valid : PackValid s
  pub bytes : held s ≡ cs

module _ (malloc : ℕ → ℕ → Option (List ℕ)) (answers : Answers malloc) where
  checked_replace :
      (k : ℕ) (cs ds : List ℕ) (s : PackBuffer) (r : Bool × Buffer × Pool)
      → PackValid s
      → r.0 ≡ true
      → Answer 16 s.bb cs ds r.0 r.1
      → let t = checked "replace buffer overflow" r in
        let w = continue t.0 t.1 (λ _. pure k) in Wrote k cs w.0 w.1
  unfolding checked
  checked_replace k cs ds s (true, b, p) v e a = record {
    answer = refl;
    valid = record { valid = a.valid; limit = a.limit ∙ v.limit };
    bytes = a.bytes;
  }
  checked_replace k cs ds s (false, b, p) v e a = absurd (cc)

  pub replace-Wrote :
      (pos : ℕ) (rep : List ℕ) (s : PackBuffer)
      → PackValid s
      → pos + length rep ≤ length (held s)
      → let (o, s') = replace malloc pos rep s in
        Wrote (add_size pos (length rep)) (overwritten pos rep (held s)) o s'
  unfolding replace replace_bytes
  replace-Wrote pos rep s v h =
      let l = length-contents v.valid in
      checked_replace (add_size pos (length rep)) _ _ s _ v
        (replace_inside_true malloc pos rep s.pool v.valid (omega arith))
        (replace-Answer malloc answers pos rep s.pool v.valid (omega (arith, v.valid)))

  -- A field of the header, written where the part before it ends.
  field-Wrote :
      (k : ℕ) (rep pre tail : List ℕ) (s : PackBuffer)
      → PackValid s
      → held s ≡ pre ++ tail
      → k ≡ length pre
      → length rep ≤ length tail
      → let (o, s') = replace malloc k rep s in
        Wrote (add_size k (length rep)) ((pre ++ rep) ++ drop (length rep) tail) o s'
  field-Wrote k rep pre tail s v e n h =
      let w = replace-Wrote k rep s v (omega (arith, ap length e, length-append pre tail)) in
      record {
        answer = w.answer;
        valid = w.valid;
        bytes = w.bytes ∙ ap (overwritten k rep) e ∙ overwritten_at k pre rep tail n;
      }

Wrote-after :
    (j k : ℕ) (cs : List ℕ) (o : Outcome ℕ) (s : PackBuffer) (f : ℕ → M PackBuffer ℕ)
    → o ≡ ok j
    → Wrote k cs (f j s).0 (f j s).1
    → Wrote k cs (continue o s f).0 (continue o s f).1
Wrote-after j k cs o s f e w = rw e w

module _ (malloc : ℕ → ℕ → Option (List ℕ)) (answers : Answers malloc) where
  pub write_header-Wrote :
      (h : PacketHeader) (tail : List ℕ) (s : PackBuffer)
      → PackValid s
      → held s ≡ [] ++ tail
      → 12 ≤ length tail
      → let (o, s') = write_header malloc h s in Wrote 12 (header_bytes h ++ drop 12 tail) o s'
  unfolding write_header replace_uint16 replace_uint32 xhton host_bytes
  write_header-Wrote h tail s v e l =
      let len = host_bytes 2 h.main.length in
      let cmd = host_bytes 2 h.main.cmd in
      let seq = host_bytes 4 h.main.seq in
      let sub = host_bytes 2 h.sub.cmd in
      let check = host_bytes 2 h.sub.check_code in
      let a = field-Wrote malloc answers 0 len [] tail s v e refl (omega arith) in
      let b =
        field-Wrote malloc answers 2 cmd len (drop 2 tail) _ a.valid a.bytes refl
          (omega (arith, length-drop 2 tail)) in
      let c =
        field-Wrote malloc answers 4 seq (len ++ cmd) (drop 4 tail) _ b.valid
          (b.bytes ∙ ap (λ t. (len ++ cmd) ++ t) (drop-drop 2 2 tail)) refl
          (omega (arith, length-drop 4 tail)) in
      let d =
        field-Wrote malloc answers 8 sub ((len ++ cmd) ++ seq) (drop 8 tail) _ c.valid
          (c.bytes ∙ ap (λ t. ((len ++ cmd) ++ seq) ++ t) (drop-drop 4 4 tail)) refl
          (omega (arith, length-drop 8 tail)) in
      let f =
        field-Wrote malloc answers 10 check (((len ++ cmd) ++ seq) ++ sub) (drop 10 tail) _ d.valid
          (d.bytes ∙ ap (λ t. (((len ++ cmd) ++ seq) ++ sub) ++ t) (drop-drop 8 2 tail)) refl
          (omega (arith, length-drop 10 tail)) in
      Wrote-after _ 12 _ _ _ _ a.answer (
        Wrote-after _ 12 _ _ _ _ b.answer (
          Wrote-after _ 12 _ _ _ _ c.answer (
            Wrote-after _ 12 _ _ _ _ d.answer (record {
              answer = f.answer;
              valid = f.valid;
              bytes =
                  f.bytes
                  ∙ ap (λ t. ((((len ++ cmd) ++ seq) ++ sub) ++ check) ++ t) (drop-drop 10 2 tail);
            }))))
