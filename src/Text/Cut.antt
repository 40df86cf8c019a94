-- ===== src/Text/Cut.antt =====
-- What the cut leaves.
use Prim.Native.Char.{Char}
use Prim.Native.String.{String}
use durable_workflows.Base.{
  ℕ, zero, suc, ◌+◌, ◌-◌, ◌≤◌, ◌<◌, ◌≡◌, refl, arith, true, false, ◌==◌, ◌||◌, ◌&&◌, ap, leb,
  leb→le, if◌then◌else◌, inl, inr, Bool-cases,
}
use durable_workflows.Text.{width, len, is_char_boundary, boundary_below, truncate, truncate_utf8}

-- `s` begins with `t`.
pub data IsPrefix : String → String → Type 0 where
  nil : {s : String} → IsPrefix String.[] s
  cons : {c : Char} {t s : String} → IsPrefix t s → IsPrefix (String.◌∷◌ c t) (String.◌∷◌ c s)

width_pos : (c : Char) → 0 < width c
unfolding width
width_pos c = ground arith

boundary_zero : (s : String) → is_char_boundary s 0 ≡ true
unfolding is_char_boundary
boundary_zero String.[] = refl
boundary_zero (String.◌∷◌ c s) = refl

-- The loop ends at the last boundary that is not above its start.
boundary_below-is_char_boundary :
    (s : String) (n : ℕ) → is_char_boundary s (boundary_below s n) ≡ true
unfolding boundary_below
boundary_below-is_char_boundary s zero = boundary_zero s
boundary_below-is_char_boundary s (suc n) = elim (Bool-cases (is_char_boundary s (suc n))) [
  | inl e ↦ rw (e, if◌then◌else◌) e
  | inr e ↦ rw (e, if◌then◌else◌) (boundary_below-is_char_boundary s n)
]

boundary_below-le : (s : String) (n : ℕ) → boundary_below s n ≤ n
unfolding boundary_below
boundary_below-le s zero = omega arith
boundary_below-le s (suc n) = ground (arith, boundary_below-le s n)

boundary_below-last :
    (s : String) (n i : ℕ) → is_char_boundary s i ≡ true → i ≤ n → i ≤ boundary_below s n
unfolding boundary_below
boundary_below-last s zero i b h = h
boundary_below-last s (suc n) i b h = elim (Bool-cases (is_char_boundary s (suc n))) [
  | inl e ↦ rw (e, if◌then◌else◌) h
  | inr e ↦ rw (e, if◌then◌else◌) (boundary_below-last s n i b (earlier e))
]
  where
    earlier : is_char_boundary s (suc n) ≡ false → i ≤ n
    earlier e = grind (arith, ap (is_char_boundary s))

rest_boundary :
    (w i : ℕ) (s : String)
    → 0 < w
    → leb w i ≡ true
    → i == 0 || leb w i && is_char_boundary s (i - w) ≡ true
    → is_char_boundary s (i - w) ≡ true
rest_boundary w i s pos e b = ground arith

len-truncate : (s : String) (i : ℕ) → is_char_boundary s i ≡ true → len (truncate s i) ≡ i
unfolding is_char_boundary len truncate
len-truncate String.[] i b = ground arith
len-truncate (String.◌∷◌ c s) i b = elim (Bool-cases (leb (width c) i)) [
  | inl e ↦
      rw (e, if◌then◌else◌)
        (omega (
          arith,
          len-truncate s (i - width c) (rest_boundary (width c) i s (width_pos c) e b),
          leb→le (width c) i e,
        ))
  | inr e ↦ rw (e, if◌then◌else◌) (ground arith)
]

truncate-IsPrefix : (s : String) (i : ℕ) → IsPrefix (truncate s i) s
unfolding truncate
truncate-IsPrefix String.[] i = nil
truncate-IsPrefix (String.◌∷◌ c s) i = elim (Bool-cases (leb (width c) i)) [
  | inl e ↦ rw (e, if◌then◌else◌) (cons (truncate-IsPrefix s (i - width c)))
  | inr e ↦ rw (e, if◌then◌else◌) nil
]

IsPrefix-refl : (s : String) → IsPrefix s s
IsPrefix-refl String.[] = nil
IsPrefix-refl (String.◌∷◌ c s) = cons (IsPrefix-refl s)

step :
    (c : Char) (t s : String)
    → is_char_boundary s (len t) ≡ true
    → is_char_boundary (String.◌∷◌ c s) (width c + len t) ≡ true
unfolding is_char_boundary
step c t s h = let e : width c + len t - width c ≡ len t = omega arith in rw (e, h) (ground arith)

boundary-len : {u s : String} → IsPrefix u s → is_char_boundary s (len u) ≡ true
unfolding len
boundary-len {s = s} nil = boundary_zero s
boundary-len (cons {c = c} {t = t} {s = s} p) = step c t s (boundary-len p)

len-le : {u s : String} → IsPrefix u s → len u ≤ len s
unfolding len
len-le nil = omega arith
len-le (cons p) = omega (arith, len-le p)

-- The text that `truncate_utf8` leaves is a prefix of the text, it has at most `max_bytes` bytes, and
-- every other prefix of at most `max_bytes` bytes is no longer.
pub truncate_utf8_longest :
    (s : String) (max_bytes : ℕ)
    → IsPrefix (truncate_utf8 s max_bytes) s
      × (len (truncate_utf8 s max_bytes) ≤ max_bytes)
      × ((u : String) → IsPrefix u s → len u ≤ max_bytes → len u ≤ len (truncate_utf8 s max_bytes))
unfolding truncate_utf8
truncate_utf8_longest s max_bytes = elim (Bool-cases (leb (len s) max_bytes)) [
  | inl e ↦ rw (e, if◌then◌else◌) (IsPrefix-refl s, leb→le _ _ e, λ u p h. len-le p)
  | inr e ↦
      rw (e, if◌then◌else◌)
        (
          truncate-IsPrefix s (boundary_below s max_bytes),
          rw (len-truncate s _ (boundary_below-is_char_boundary s max_bytes))
              (boundary_below-le s max_bytes),
          λ u p h.
              rw (len-truncate s _ (boundary_below-is_char_boundary s max_bytes))
                (boundary_below-last s max_bytes (len u) (boundary-len p) h),
        )
]
