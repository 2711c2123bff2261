-- ===== src/Buffer/Forward.antt =====
-- ForwardBuffer of net/blockbuffer.h: a view that erases from the front only when it is destroyed.
use deps.Prelude.{ℕ, ◌+◌, ◌≤◌, ◌<◌, ◌≡◌, refl, ◌∙◌, sym, ap, arith}
use deps.Prelude.{Bool, true, false, List, ◌++◌, inl, inr, ◌⊎◌}
use deps.Prelude.{
  ◌==◌, if◌then◌else◌, length, take, drop, drop-drop, drop-append_le, take-drop, length-take,
  length-append,
}
use mathlib.Core.Path.{ap₂}
use deps.Prelude.{Bool-cases, tests}
use deps.Buffer.{Buffer, Pool, add_size, sub_size, erase}
use deps.Buffer.Growth.{IsValid, contents, length-contents}
use deps.Buffer.Erase.{removed, erase-Edited}

-- The object, with the buffer that it points to; `attached` is false once `m_sb` is NULL.
pub record Forward : Type 0 where
  pub sb : Buffer
  pub attached : Bool
  pub pos : ℕ

pub new : Buffer → Forward
new b = record { sb = b; attached = true; pos = 0 }

-- The bytes at `data()`, `size()` of them.
pub view : Forward → List ℕ
view f = drop f.pos (contents f.sb)

abbrev pub size : Forward → ℕ
size f = sub_size f.sb.size f.pos

pub erase_front : ℕ → ℕ → Forward → Pool → Forward × Pool
erase_front pos n f p =
    if pos == 0
    then (record f { pos = add_size f.pos n }, p)
    else (let (b, p') = erase (add_size f.pos pos) n false f.sb p in (record f { sb = b }, p'))

pub release : Forward → Forward
release f = record f { attached = false }

-- The destructor, with the buffer that it leaves behind.
pub destroy : Forward → Pool → Buffer × Pool
destroy f p = if f.attached then erase 0 f.pos false f.sb p else (f.sb, p)

-- `assert(m_pos <= m_sb->size())`, over a valid buffer.
pub record InView (top : ℕ) (f : Forward) : Type 0 where
  pub valid : IsValid top f.sb
  pub inside : f.pos ≤ f.sb.size

front_view :
    {top : ℕ} {f : Forward} (n : ℕ)
    → InView top f
    → f.pos + n ≤ f.sb.size
    → drop (add_size f.pos n) (contents f.sb) ≡ removed 0 n (drop f.pos (contents f.sb))
front_view {top} {f} n v h =
    let e : add_size f.pos n ≡ f.pos + n = omega (arith, v.valid) in
    let z : 0 + n ≡ n = omega arith in rw (e, z) (sym (drop-drop f.pos n (contents f.sb)))

-- Bytes removed behind the part already passed over.
inner_view :
    (a pos n : ℕ) (cs : List ℕ)
    → a + pos ≤ length cs
    → drop a (removed (a + pos) n cs) ≡ removed pos n (drop a cs)
inner_view a pos n cs h =
    drop-append_le a (take (a + pos) cs) _ (omega (arith, length-take (a + pos) cs))
    ∙ ap₂ ◌++◌ (sym (take-drop a pos (a + pos) cs refl))
        (ap (λ k. drop k cs) (omega arith) ∙ sym (drop-drop a (pos + n) cs))

-- `erase` on the view removes n of the bytes that are seen, from `pos` on. From the front it leaves
-- the buffer alone. The view stays within the buffer.
pub erase_front_lem :
    {top : ℕ} {f : Forward} (pos n : ℕ) (p : Pool)
    → InView top f
    → f.pos + pos + n ≤ f.sb.size
    → let (f', p') = erase_front pos n f p in
      InView top f'
      × (view f' ≡ removed pos n (view f))
      × ((0 < pos) ⊎ (contents f'.sb ≡ contents f.sb))
unfolding erase_front view
erase_front_lem {top} {f} pos n p v h = elim (Bool-cases (pos == 0)) [
  | inl z ↦
      let e : pos ≡ 0 = omega tests in
      rw (z, e)
        (
          record { valid = v.valid; inside = omega (tests, v.valid) },
          front_view n v (omega tests),
          inr refl,
        )
  | inr z ↦
      let e : add_size f.pos pos ≡ f.pos + pos = omega (arith, v.valid) in
      let r = (erase-Edited (f.pos + pos) n false p v.valid (omega arith)).0 in
      let l = length-contents v.valid in
      rw (z, e)
        (
          record {
            valid = r.valid;
            inside = omega (
              arith,
              l,
              length-contents r.valid,
              ap length r.bytes,
              length-append (take (f.pos + pos) (contents f.sb))
                  (drop (f.pos + pos + n) (contents f.sb)),
              length-take (f.pos + pos) (contents f.sb),
            );
          },
          ap (drop f.pos) r.bytes ∙ inner_view f.pos pos n (contents f.sb) (omega arith),
          inl (omega tests),
        )
]

-- When an attached view is destroyed, the buffer holds what was seen.
pub contents-destroy :
    {top : ℕ} {f : Forward} (p : Pool)
    → InView top f
    → f.attached ≡ true
    → contents (destroy f p).0 ≡ view f
unfolding destroy view
contents-destroy {top} {f} p v a = rw a (
    (erase-Edited 0 f.pos false p v.valid (omega arith)).0.bytes
    ∙ ap (λ k. drop k (contents f.sb)) (omega arith))
