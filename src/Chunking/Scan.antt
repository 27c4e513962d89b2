-- ===== src/Chunking/Scan.antt =====
-- `find_ascii_space_candidate` of src/inference/chunking.cpp: its word-at-a-time search is the search
-- byte by byte.
use astral_runtime.Base.{
  ℕ, zero, suc, ◌+◌, ◌-◌, ◌*◌, ◌/◌, ◌%◌, ◌≤◌, ◌<◌, bit_and, List, [], ◌∷◌, true, ◌≡◌, refl, ap, ap₂,
  ◌∙◌, sym, subst, ◌≢◌, arith, leb, ltb, ◌==◌, ==_iff, ◌⊎◌, inl, inr, Bool-cases, u64_mod, sub64,
  if◌then◌else◌, length, take, drop, length-take, all_below, all_below-true, bit_and-le,
  bit_and-low_byte,
}
use astral_runtime.Chunking.{
  can_be_space, load_word, space_mask, trailing_zero_bits, find_byte, find_candidate,
}

abbrev pub AllBytes : List ℕ → Type 0
AllBytes [] = Unit
AllBytes (b ∷ bs) = (b < 256) × AllBytes bs

-- The constants of the source, for words of `n` bytes.
abbrev modulus : ℕ → ℕ
modulus zero = 1
modulus (suc n) = 256 * modulus n

abbrev limits : ℕ → ℕ
limits zero = 0
limits (suc n) = 0x21 + 256 * limits n

abbrev signs : ℕ → ℕ
signs zero = 0
signs (suc n) = 0x80 + 256 * signs n

-- `word - kAsciiWhitespaceLimitBytes`, with the wrap.
abbrev lowered : ℕ → ℕ → ℕ
lowered n w = if leb (limits n) w then w - limits n else w + modulus n - limits n

abbrev mask : ℕ → ℕ → ℕ
mask n w = bit_and (bit_and (lowered n w) (modulus n - 1 - w)) (signs n)

limits-lt : (n : ℕ) → limits n < modulus n
limits-lt zero = omega arith
limits-lt (suc n) = omega (arith, limits-lt n)

load_word-lt : (bs : List ℕ) → AllBytes bs → load_word bs < modulus (length bs)
unfolding load_word
load_word-lt [] h = omega arith
load_word-lt (b ∷ bs) h = omega (arith, load_word-lt bs h.1)

and3 :
    (x y z : ℕ)
    → bit_and (bit_and x y) z
      ≡ bit_and (bit_and (x % 256) (y % 256)) (z % 256)
        + 256 * bit_and (bit_and (x / 256) (y / 256)) (z / 256)
and3 x y z = omega (
  arith,
  bit_and-low_byte (bit_and x y) z,
  ap₂ bit_and low (λ _. z % 256),
  ap (λ t. 256 * t) (ap₂ bit_and high (λ _. z / 256)),
)
  where
    small : bit_and (x % 256) (y % 256) < 256
    small = omega (arith, bit_and-le (x % 256) (y % 256))

    low : bit_and x y % 256 ≡ bit_and (x % 256) (y % 256)
    low = omega (arith, bit_and-low_byte x y, small)

    high : bit_and x y / 256 ≡ bit_and (x / 256) (y / 256)
    high = omega (arith, bit_and-low_byte x y, small)

-- A byte from 0x21 on leaves no mark and no borrow; a lower one leaves its mark.
no_mark : (b : ℕ) → b < 256 → 0x21 ≤ b → bit_and (bit_and (b - 0x21) (255 - b)) 0x80 ≡ 0
unfolding all_below
no_mark b h lo = (==_iff (bit_and (bit_and (b - 0x21) (255 - b)) 0x80) 0).0 (
    ground (
      arith,
      all_below-true 256
          (λ c. if ltb c 0x21 then true else bit_and (bit_and (c - 0x21) (255 - c)) 0x80 == 0) b
          refl h,
    ))

marked : (b : ℕ) → b < 0x21 → bit_and (bit_and (b + 223) (255 - b)) 0x80 ≡ 0x80
unfolding all_below
marked b h =
    (==_iff (bit_and (bit_and (b + 223) (255 - b)) 0x80) 0x80).0
      (all_below-true 0x21 (λ c. bit_and (bit_and (c + 223) (255 - c)) 0x80 == 0x80) b refl h)

and3_parts :
    (x y z xl yl zl xh yh zh : ℕ)
    → x % 256 ≡ xl
    → y % 256 ≡ yl
    → z % 256 ≡ zl
    → x / 256 ≡ xh
    → y / 256 ≡ yh
    → z / 256 ≡ zh
    → bit_and (bit_and x y) z ≡ bit_and (bit_and xl yl) zl + 256 * bit_and (bit_and xh yh) zh
and3_parts x y z xl yl zl xh yh zh a b c d e f =
    and3 x y z
    ∙ ap₂ (λ s t. s + 256 * t) (ap₂ bit_and (ap₂ bit_and a b) c) (ap₂ bit_and (ap₂ bit_and d e) f)

mask-skip :
    (n b w : ℕ) → b < 256 → 0x21 ≤ b → w < modulus n → mask (suc n) (b + 256 * w) ≡ 256 * mask n w
mask-skip n b w h lo hw =
    and3_parts (lowered (suc n) (b + 256 * w)) (modulus (suc n) - 1 - (b + 256 * w)) (signs (suc n))
      (b - 0x21) (255 - b) 0x80 (lowered n w) (modulus n - 1 - w) (signs n)
      (ground (arith, limits-lt n)) (omega arith) (omega arith) (ground (arith, limits-lt n))
      (omega arith) (omega arith)
    ∙ omega (arith, no_mark b h lo)

mask-hit :
    (n b w : ℕ) → b < 0x21 → w < modulus n → (x : ℕ) × (mask (suc n) (b + 256 * w) ≡ 0x80 + 256 * x)
mask-hit n b w h hw = (
  bit_and (bit_and high (modulus n - 1 - w)) (signs n),
  and3_parts (lowered (suc n) (b + 256 * w)) (modulus (suc n) - 1 - (b + 256 * w)) (signs (suc n))
        (b + 223) (255 - b) 0x80 high (modulus n - 1 - w) (signs n) (ground (arith, limits-lt n))
        (omega arith) (omega arith) refl (omega arith) (omega arith)
      ∙ omega (arith, marked b h),
)
  where
    high : ℕ
    high = lowered (suc n) (b + 256 * w) / 256

pub find_byte-shift : (bs : List ℕ) (p k : ℕ) → find_byte bs (p + k) ≡ p + find_byte bs k
unfolding find_byte
find_byte-shift [] p k = refl
find_byte-shift (b ∷ bs) p k = ground (arith, find_byte-shift bs p (k + 1), ap (find_byte bs) assoc)
  where
    assoc : p + k + 1 ≡ p + (k + 1)
    assoc = omega arith

-- A mask whose lowest bit is the sign bit of byte `k`.
abbrev mark_at : ℕ → ℕ → ℕ
mark_at zero x = 0x80 + 256 * x
mark_at (suc k) x = 256 * mark_at k x

-- The mask of a word: zero where no byte is a candidate, else its lowest bit marks the first one.
abbrev Marks : List ℕ → Type 0
Marks bs =
    ((mask (length bs) (load_word bs) ≡ 0) × (find_byte bs 0 ≡ length bs))
    ⊎ ((k x : ℕ) × (mask (length bs) (load_word bs) ≡ mark_at k x)
        × (find_byte bs 0 ≡ k)
        × (k < length bs))

mask-Marks : (bs : List ℕ) → AllBytes bs → Marks bs
unfolding find_byte can_be_space load_word
mask-Marks [] h = inl (refl, refl)
mask-Marks (b ∷ bs) h = elim (Bool-cases (leb b 0x20)) [
  | inl c ↦
      let (x, e) = mask-hit (length bs) b (load_word bs) (ground arith) (load_word-lt bs h.1) in
      inr (0, x, e, rw c, omega arith)
  | inr c ↦ elim (mask-Marks bs h.1) [
    | inl (m, f) ↦ inl (
      mask-skip (length bs) b (load_word bs) h.0 (ground arith) (load_word-lt bs h.1)
          ∙ omega (arith, m),
      rw c (omega (arith, find_byte-shift bs 1 0, f)),
    )
    | inr (k, x, m, f, l) ↦ inr (
      suc k,
      x,
      mask-skip (length bs) b (load_word bs) h.0 (ground arith) (load_word-lt bs h.1)
          ∙ ap (λ t. 256 * t) m,
      rw c (omega (arith, find_byte-shift bs 1 0, f)),
      omega arith,
    )
  ]
]

abbrev doubled : ℕ → ℕ → ℕ
doubled zero m = m
doubled (suc i) m = 2 * doubled i m

trailing_zero_bits-doubled :
    (i n m : ℕ) → i < n → m % 2 ≡ 1 → trailing_zero_bits n (doubled i m) ≡ i
unfolding trailing_zero_bits
trailing_zero_bits-doubled i zero m h o = absurd (omega arith)
trailing_zero_bits-doubled zero (suc n) m h o = ground arith
trailing_zero_bits-doubled (suc i) (suc n) m h o =
    ground (arith, trailing_zero_bits-doubled i n m, ap (trailing_zero_bits n) half)
  where
    half : 2 * doubled i m / 2 ≡ doubled i m
    half = omega arith

-- The place of the sign bit of byte `k`.
abbrev sign_bit : ℕ → ℕ
sign_bit zero = 7
sign_bit (suc k) = suc (suc (suc (suc (suc (suc (suc (suc (sign_bit k))))))))

sign_bit-eq : (k : ℕ) → sign_bit k ≡ 8 * k + 7
sign_bit-eq zero = refl
sign_bit-eq (suc k) = omega (arith, sign_bit-eq k)

mark_at-doubled : (k x : ℕ) → mark_at k x ≡ doubled (sign_bit k) (2 * x + 1)
mark_at-doubled zero x = omega arith
mark_at-doubled (suc k) x = omega (arith, mark_at-doubled k x)

trailing_zero_bits-mark : (k x : ℕ) → k < 8 → trailing_zero_bits 64 (mark_at k x) / 8 ≡ k
trailing_zero_bits-mark k x h = rw (mark_at-doubled k x) (
    omega (
      arith,
      trailing_zero_bits-doubled (sign_bit k) 64 (2 * x + 1) (omega (arith, sign_bit-eq k))
          (omega arith),
      sign_bit-eq k,
    ))

mark_at-pos : (k x : ℕ) → 0 < mark_at k x
mark_at-pos zero x = omega arith
mark_at-pos (suc k) x = omega (arith, mark_at-pos k x)

lowered-word :
    (w : ℕ)
    → w < u64_mod
    → sub64 w 0x2121_2121_2121_2121 ≡ (
        if leb 0x2121_2121_2121_2121 w
        then w - 0x2121_2121_2121_2121
        else w + u64_mod - 0x2121_2121_2121_2121)
lowered-word w h = ground arith

-- The search within a full word.
space_mask-finds :
    (bs : List ℕ)
    → AllBytes bs
    → length bs ≡ 8
    → ((space_mask (load_word bs) ≡ 0) × (find_byte bs 0 ≡ 8))
      ⊎ ((space_mask (load_word bs) ≢ 0)
          × (find_byte bs 0 ≡ trailing_zero_bits 64 (space_mask (load_word bs)) / 8)
          × (find_byte bs 0 < 8))
unfolding space_mask
space_mask-finds bs h e = elim (mask-Marks bs h) [
  | inl (m, f) ↦ inl (wide ∙ m, f ∙ e)
  | inr (k, x, m, f, l) ↦ inr (
    λ z. omega (arith, mark_at-pos k x, wide, m, z),
    f
        ∙ sym (
            ap (λ t. trailing_zero_bits 64 t / 8) (wide ∙ m)
            ∙ trailing_zero_bits-mark k x (omega arith)),
    omega arith,
  )
]
  where
    bound : load_word bs < modulus (length bs)
    bound = load_word-lt bs h

    bound8 : load_word bs < modulus 8
    bound8 = subst (λ n. load_word bs < modulus n) e bound

    wide : space_mask (load_word bs) ≡ mask (length bs) (load_word bs)
    wide =
        subst (λ n. space_mask (load_word bs) ≡ mask n (load_word bs)) (sym e)
          (ap (λ t. bit_and (bit_and t (u64_mod - 1 - load_word bs)) 0x8080_8080_8080_8080)
            (lowered-word (load_word bs) bound8))

-- A prefix with no candidate is passed over; one with a candidate decides.
find_byte-take :
    (n : ℕ) (bs : List ℕ) (p : ℕ)
    → find_byte bs p ≡ (
        if ltb (find_byte (take n bs) 0) (length (take n bs))
        then p + find_byte (take n bs) 0
        else find_byte (drop n bs) (p + length (take n bs)))
unfolding find_byte
find_byte-take zero bs p = omega (arith, ap (find_byte bs) same)
  where
    same : p + 0 ≡ p
    same = omega arith
find_byte-take (suc n) [] p = omega arith
find_byte-take (suc n) (b ∷ bs) p = ground (
  arith,
  find_byte-shift (take n bs) 1 0,
  find_byte-take n bs (p + 1),
  ap (find_byte (drop n bs)) same,
)
  where
    same : p + 1 + length (take n bs) ≡ p + suc (length (take n bs))
    same = omega arith

AllBytes-take : (n : ℕ) (bs : List ℕ) → AllBytes bs → AllBytes (take n bs)
AllBytes-take zero bs h = tt
AllBytes-take (suc n) [] h = tt
AllBytes-take (suc n) (b ∷ bs) h = (h.0, AllBytes-take n bs h.1)

pub AllBytes-drop : (n : ℕ) (bs : List ℕ) → AllBytes bs → AllBytes (drop n bs)
AllBytes-drop zero bs h = h
AllBytes-drop (suc n) [] h = tt
AllBytes-drop (suc n) (b ∷ bs) h = AllBytes-drop n bs h.1

-- The search by words of eight bytes, with its borrows and its bit scan, finds on every text the
-- position that the search byte by byte finds.
pub find_candidate-eq :
    (fuel : ℕ) (bs : List ℕ) (p : ℕ) → AllBytes bs → find_candidate fuel bs p ≡ find_byte bs p
unfolding find_candidate
find_candidate-eq zero bs p h = refl
find_candidate-eq (suc fuel) bs p h = elim (Bool-cases (leb 8 (length bs))) [
  | inr short ↦ rw (short, find_candidate)
  | inl long ↦ elim (space_mask-finds (take 8 bs) (AllBytes-take 8 bs h) (eight long)) [
    | inl (z, f) ↦ ground (
      arith,
      find_candidate-eq fuel (drop 8 bs) (p + 8) (AllBytes-drop 8 bs h),
      find_byte-take 8 bs p,
      eight long,
      ap (λ n. find_byte (drop 8 bs) (p + n)) (eight long),
    )
    | inr (z, f, l) ↦ ground (arith, find_byte-take 8 bs p, eight long)
  ]
]
  where
    eight : leb 8 (length bs) ≡ true → length (take 8 bs) ≡ 8
    eight l = ground (arith, length-take 8 bs)
