-- ===== src/Marshal/Emit.antt =====
-- What the packing functions of net/marshall.h put behind the bytes of a PackBuffer.
use deps.Prelude.{ℕ, ◌+◌, ◌-◌, ◌*◌, ◌^◌, ◌≤◌, ◌<◌, ◌≡◌, refl, sym, ap, ◌∙◌, arith}
use deps.Prelude.{
  Bool, true, false, Option, List, [], ◌++◌, append-nil, append_assoc, ◌⊎◌, inl, inr,
}
use deps.Prelude.{ltb, length, length-append, take, take_all, replicate, length-replicate}
use Prim.Native.String.{String}
use deps.Buffer.{Buffer, Pool}
use deps.Buffer.Growth.{IsValid, Answers, contents, length-contents}
use deps.Buffer.Contents.{Answer, append-Answer, resize-Answer}
use deps.Buffer.Capacity.{Starved, append_cases, resize_cases}
use deps.Marshal.Outcome.{Outcome, ok, thrown, fault, M, pure, continue, ◌>>◌}
use deps.Marshal.Bytes.{host_bytes, length-host_bytes}
use deps.Marshal.Pack.{
  PackBuffer, checked, resize, append, push, xhton, push_uint16, push_uint32, push_varstr,
  push_varstr32,
}

-- The bytes packed so far.
abbrev pub held : PackBuffer → List ℕ
held s = contents s.bb

-- A PackBuffer never lowers the limit of its buffer.
pub record PackValid (s : PackBuffer) : Type 0 where
  pub valid : IsValid 16 s.bb
  pub limit : s.bb.max_blocks ≡ 16

-- Some first part of `bs` stands behind `xs`.
pub record Partial (xs bs ys : List ℕ) : Type 0 where
  pub front : List ℕ
  pub back : List ℕ
  pub split : bs ≡ front ++ back
  pub there : ys ≡ xs ++ front

-- The outcome of packing `bs`: all of it stands behind the bytes held; or, if it would pass 64K or if
-- memory runs out, the code throws and a first part of it does.
abbrev pub Emitted :
    (ℕ → ℕ → Option (List ℕ)) → PackBuffer → List ℕ → Outcome (Unit {0}) → PackBuffer → Type 0
Emitted malloc s bs (ok _) s' = PackValid s' × (held s' ≡ held s ++ bs)
Emitted malloc s bs (thrown e) s' =
    PackValid s'
    × Partial (held s) bs (held s')
    × ((65536 < length (held s) + length bs) ⊎ Starved malloc)
Emitted malloc s bs fault s' = ⊥

-- A packing function that puts `bs` behind whatever is held.
abbrev pub Emits : (ℕ → ℕ → Option (List ℕ)) → M PackBuffer (Unit {0}) → List ℕ → Type 0
Emits malloc m bs = (s : PackBuffer) → PackValid s → Emitted malloc s bs (m s).0 (m s).1

Partial-none : {xs ys : List ℕ} (bs : List ℕ) → ys ≡ xs → Partial xs bs ys
Partial-none {xs} bs e = record {
  front = [];
  back = bs;
  split = refl;
  there = e ∙ sym (append-nil xs);
}

Partial-after :
    {xs ys cs zs : List ℕ} (bs : List ℕ)
    → ys ≡ xs ++ bs
    → Partial ys cs zs
    → Partial xs (bs ++ cs) zs
Partial-after {xs} bs e p = record {
  front = bs ++ p.front;
  back = p.back;
  split = ap (λ t. bs ++ t) p.split ∙ sym (append_assoc bs p.front p.back);
  there = p.there ∙ ap (λ t. t ++ p.front) e ∙ append_assoc xs bs p.front;
}

Partial-more : {xs bs ys : List ℕ} (cs : List ℕ) → Partial xs bs ys → Partial xs (bs ++ cs) ys
Partial-more cs p = record {
  front = p.front;
  back = p.back ++ cs;
  split = ap (λ t. t ++ cs) p.split ∙ append_assoc p.front p.back cs;
  there = p.there;
}

module _ (malloc : ℕ → ℕ → Option (List ℕ)) where
  Emitted-after :
      (s s' : PackBuffer) (bs cs : List ℕ) (o : Outcome (Unit {0})) (t : PackBuffer)
      → held s' ≡ held s ++ bs
      → Emitted malloc s' cs o t
      → Emitted malloc s (bs ++ cs) o t
  Emitted-after s s' bs cs (ok u) t e (v, h) =
      (v, h ∙ ap (λ k. k ++ cs) e ∙ append_assoc (held s) bs cs)
  Emitted-after s s' bs cs (thrown x) t e (v, p, inl l) = (
    v,
    Partial-after bs e p,
    inl (omega (arith, ap length e, length-append (held s) bs, length-append bs cs)),
  )
  Emitted-after s s' bs cs (thrown x) t e (v, p, inr w) = (v, Partial-after bs e p, inr w)
  Emitted-after s s' bs cs fault t e h = h

  Emitted-bind :
      (s : PackBuffer) (bs cs : List ℕ) (o : Outcome (Unit {0})) (s' : PackBuffer)
      (k : Unit {0} → M PackBuffer (Unit {0}))
      → Emitted malloc s bs o s'
      → Emits malloc (k tt) cs
      → Emitted malloc s (bs ++ cs) (continue o s' k).0 (continue o s' k).1
  Emitted-bind s bs cs (ok tt) s' k (v, e) h = Emitted-after s s' bs cs _ _ e (h s' v)
  Emitted-bind s bs cs (thrown x) s' k (v, p, inl l) h =
      (v, Partial-more cs p, inl (omega (arith, length-append bs cs)))
  Emitted-bind s bs cs (thrown x) s' k (v, p, inr w) h = (v, Partial-more cs p, inr w)
  Emitted-bind s bs cs fault s' k e h = e

  -- One function after another puts the one's bytes behind the other's.
  pub Emits->> :
      (m k : M PackBuffer (Unit {0})) (bs cs : List ℕ)
      → Emits malloc m bs
      → Emits malloc k cs
      → Emits malloc (m >> k) (bs ++ cs)
  Emits->> m k bs cs hm hk s v = Emitted-bind s bs cs (m s).0 (m s).1 (λ _. k) (hm s v) hk

checked-Emitted :
    (malloc : ℕ → ℕ → Option (List ℕ)) (s : PackBuffer) (bs : List ℕ) (what : String)
    (r : Bool × Buffer × Pool)
    → PackValid s
    → Answer 16 s.bb (held s ++ bs) (held s) r.0 r.1
    → (r.0 ≡ true) ⊎ ((s.bb.max_blocks * 4096 < s.bb.size + length bs) ⊎ Starved malloc)
    → Emitted malloc s bs (checked what r).0 (checked what r).1
unfolding checked
checked-Emitted malloc s bs what (true, b, p) v a c =
    (record { valid = a.valid; limit = a.limit ∙ v.limit }, a.bytes)
checked-Emitted malloc s bs what (false, b, p) v a (inl t) = absurd (cc)
checked-Emitted malloc s bs what (false, b, p) v a (inr (inl l)) = (
  record { valid = a.valid; limit = a.limit ∙ v.limit },
  Partial-none bs a.bytes,
  inl (omega (arith, length-contents v.valid, v.limit)),
)
checked-Emitted malloc s bs what (false, b, p) v a (inr (inr w)) =
    (record { valid = a.valid; limit = a.limit ∙ v.limit }, Partial-none bs a.bytes, inr w)

module _ (malloc : ℕ → ℕ → Option (List ℕ)) (answers : Answers malloc) where
  -- `push` puts the bytes that it is given behind those held.
  pub push-Emits : (bs : List ℕ) → length bs < 2 ^ 64 → Emits malloc (push malloc bs) bs
  unfolding push append
  push-Emits bs h s v =
      checked-Emitted malloc s bs _ _ v (append-Answer malloc answers bs s.pool v.valid h)
        (append_cases malloc bs s.pool v.valid h)

  pub push_fixed-Emits :
      (k v : ℕ) → k ≤ 8 → Emits malloc (push malloc (host_bytes k v)) (host_bytes k v)
  push_fixed-Emits k v h = push-Emits (host_bytes k v) (omega (arith, length-host_bytes k v))

  -- `push_varstr` puts the length in two bytes and the text behind it, if that length fits them.
  pub push_varstr-Emits :
      (text : List ℕ) (s : PackBuffer)
      → length text ≤ 0xffff
      → PackValid s
      → let (o, s') = push_varstr malloc text s in
        Emitted malloc s (host_bytes 2 (length text) ++ text) o s'
  unfolding push_varstr push_uint16 xhton
  push_varstr-Emits text s h v =
      let f : ltb 0xffff (length text) ≡ false = ground arith in
      rw f (
        Emits->> malloc _ _ (host_bytes 2 (length text)) text
          (push_fixed-Emits 2 (length text) (omega arith)) (push-Emits text (omega arith)) s v)

  -- `push_varstr32` puts the length in four bytes and the text behind it, if that length fits them.
  pub push_varstr32-Emits :
      (text : List ℕ) (s : PackBuffer)
      → length text ≤ 0xffff_ffff
      → PackValid s
      → let (o, s') = push_varstr32 malloc text s in
        Emitted malloc s (host_bytes 4 (length text) ++ text) o s'
  unfolding push_varstr32 push_uint32 xhton
  push_varstr32-Emits text s h v =
      let f : ltb 0xffff_ffff (length text) ≡ false = ground arith in
      rw f (
        Emits->> malloc _ _ (host_bytes 4 (length text)) text
          (push_fixed-Emits 4 (length text) (omega arith)) (push-Emits text (omega arith)) s v)

pub Emits-pure : (malloc : ℕ → ℕ → Option (List ℕ)) → Emits malloc (pure tt) []
Emits-pure malloc s v = (v, sym (append-nil (held s)))

-- Growing a PackBuffer by `resize` puts zeros behind the bytes held.
pub resize-Emitted :
    (malloc : ℕ → ℕ → Option (List ℕ)) (answers : Answers malloc) (n k : ℕ) (s : PackBuffer)
    → PackValid s
    → n ≡ s.bb.size + k
    → n < 2 ^ 64
    → Emitted malloc s (replicate k 0) (resize malloc n s).0 (resize malloc n s).1
unfolding resize
resize-Emitted malloc answers n k s v e h =
    let l = length-contents v.valid in
    let grown : n - s.bb.size ≡ k = omega arith in
    let whole : take n (held s) ≡ held s = take_all n (held s) (omega arith) in
    let a = resize-Answer malloc answers n 0 s.pool v.valid h in
    let c = resize_cases malloc n 0 s.pool v.valid h in
    checked-Emitted malloc s (replicate k 0) _ _ v (rw (grown, whole) at a) (elim c [
      | inl t ↦ inl t
      | inr (inl g) ↦ inr (inl (omega (arith, length-replicate {A = ℕ} k 0)))
      | inr (inr w) ↦ inr (inr w)
    ])
