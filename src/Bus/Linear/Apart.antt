-- ===== src/Bus/Linear/Apart.antt =====
-- src/core/memory.rs: writes of the linear memory that do not meet a read.
use m68k_rs.Base.{
  ℕ, ◌+◌, ◌-◌, ◌*◌, ◌/◌, ◌%◌, ◌^◌, ◌<◌, ◌≤◌, ◌≡◌, ◌≢◌, refl, sym, ap, ◌∙◌, wrapping_add, u8, bit_or,
  bit_or_fields, arith, ◌⊎◌, inl,
}
use native.Mathlib.Nat.{mod-add-mod, mod-eq-sub-mod, mod-eq_of_lt, mod-lt}
use m68k_rs.Bus.Linear.{LinearMemoryBus, index, write_long, read_long, read_word, write_word}
use m68k_rs.Bus.Linear.Laws.{
  IsValid, index_lem, write_word-IsValid, write_long-IsValid, read_long-write_long,
  index-write_long,
}

-- Numbers less than `n` apart have different remainders.
past_end : (r d n : ℕ) → n ≤ r + d → r < n → d < n → (r + d) % n ≡ r + d - n
past_end r d n h p q =
    mod-eq-sub-mod {n = r + d} {m = n} h ∙ mod-eq_of_lt {n = r + d - n} {m = n} (omega arith)

apart : (a d n : ℕ) → 0 < d → d < n → a % n ≢ (a + d) % n
apart a d n p q = ground (
  arith,
  mod-add-mod a n d,
  mod-lt a {m = n} (omega arith),
  mod-eq_of_lt {n = a % n + d} {m = n},
  past_end (a % n) d n,
)

-- Bytes that a write does not reach.
word_elsewhere :
    (b : LinearMemoryBus) (a x j : ℕ)
    → j ≢ index b a
    → j ≢ index b (wrapping_add a 1)
    → (write_word b a x).memory j ≡ b.memory j
unfolding write_word
word_elsewhere b a x j p q = ground arith

word_low :
    (b : LinearMemoryBus) (a x : ℕ) → (write_word b a x).memory (index b (wrapping_add a 1)) ≡ u8 x
unfolding write_word
word_low b a x = ground arith

word_high :
    (b : LinearMemoryBus) (a x : ℕ)
    → index b a ≢ index b (wrapping_add a 1)
    → (write_word b a x).memory (index b a) ≡ u8 (x / 2 ^ 8)
unfolding write_word
word_high b a x p = ground arith

join_bytes : (x : ℕ) → x < 2 ^ 16 → bit_or (u8 (x / 2 ^ 8) * 2 ^ 8) (u8 x) ≡ x
join_bytes x h = bit_or_fields 8 (u8 (x / 2 ^ 8)) (u8 x) (omega arith) ∙ omega arith

long_elsewhere :
    (b : LinearMemoryBus) (a x j : ℕ)
    → j ≢ index b a
    → j ≢ index b (wrapping_add a 1)
    → j ≢ index b (wrapping_add a 2)
    → j ≢ index b (wrapping_add a 3)
    → (write_long b a x).memory j ≡ b.memory j
unfolding write_long
long_elsewhere b a x j p q r s = ground arith

index-write_word : (b : LinearMemoryBus) (a x c : ℕ) → index (write_word b a x) c ≡ index b c
unfolding index write_word
index-write_word b a x c = refl

-- The bytes from `a` on, in a buffer that is long enough.
module _ (b : LinearMemoryBus) (v : IsValid b) (a n : ℕ) (size : n ≤ b.len)
    (room : a + n ≤ 2 ^ 32) where
  place : (i : ℕ) → i < n → index b (wrapping_add a i) ≡ (a + i) % b.len
  place i h = index_lem b (wrapping_add a i) v ∙ ap (λ t. t % b.len) (omega arith)

  places_differ :
      (i j : ℕ) → i < j → j < n → index b (wrapping_add a i) ≢ index b (wrapping_add a j)
  places_differ i j p q =
      let e = ap (λ t. t % b.len) (split i j p) in
      ground (arith, place i, place j, apart (a + i) (j - i) b.len, e)
    where
      split : (i j : ℕ) → i < j → a + i + (j - i) ≡ a + j
      split i j p = omega arith

  differ :
      (i j : ℕ) → i ≢ j → i < n → j < n → index b (wrapping_add a i) ≢ index b (wrapping_add a j)
  differ i j d p q = ground (arith, places_differ i j, places_differ j i)

-- Reads that a write does not reach, of words and longwords that start `i` and `j` bytes after `a`.
module _ (b : LinearMemoryBus) (v : IsValid b) (a n : ℕ) (size : n ≤ b.len)
    (room : a + n ≤ 2 ^ 32) where
  shifted : (i k : ℕ) → i + k < n → wrapping_add (wrapping_add a i) k ≡ wrapping_add a (i + k)
  shifted i k h = omega arith

  word_byte :
      (i j x : ℕ)
      → i + 1 < n
      → j < n
      → j ≢ i
      → j ≢ i + 1
      → (write_word b (wrapping_add a i) x).memory (index b (wrapping_add a j))
        ≡ b.memory (index b (wrapping_add a j))
  word_byte i j x h k p q =
      word_elsewhere b (wrapping_add a i) x (index b (wrapping_add a j))
        (differ b v a n size room j i p k (omega arith))
        (rw (shifted i 1 h) (differ b v a n size room j (i + 1) q k h))

  long_byte :
      (i j x : ℕ)
      → i + 3 < n
      → j < n
      → (j < i) ⊎ (i + 3 < j)
      → (write_long b (wrapping_add a i) x).memory (index b (wrapping_add a j))
        ≡ b.memory (index b (wrapping_add a j))
  long_byte i j x h k p =
      long_elsewhere b (wrapping_add a i) x (index b (wrapping_add a j))
        (differ b v a n size room j i (ground arith) k (omega arith))
        (rw (shifted i 1 (omega arith))
          (differ b v a n size room j (i + 1) (ground arith) k (omega arith)))
        (rw (shifted i 2 (omega arith))
          (differ b v a n size room j (i + 2) (ground arith) k (omega arith)))
        (rw (shifted i 3 (omega arith))
          (differ b v a n size room j (i + 3) (ground arith) k (omega arith)))

  pub read_word-write_word_apart :
      (i j x : ℕ)
      → i + 1 < n
      → j + 1 < n
      → (i + 1 < j) ⊎ (j + 1 < i)
      → (read_word (write_word b (wrapping_add a i) x) (wrapping_add a j)).0
        ≡ (read_word b (wrapping_add a j)).0
  unfolding read_word
  read_word-write_word_apart i j x h k p =
      rw
        (
          shifted j 1 k,
          index-write_word b (wrapping_add a i) x (wrapping_add a j),
          index-write_word b (wrapping_add a i) x (wrapping_add a (j + 1)),
          word_byte i j x h (omega arith) (ground arith) (ground arith),
          word_byte i (j + 1) x h k (ground arith) (ground arith),
        )
        refl

  pub read_word-write_long_apart :
      (i j x : ℕ)
      → i + 3 < n
      → j + 1 < n
      → (i + 3 < j) ⊎ (j + 1 < i)
      → (read_word (write_long b (wrapping_add a i) x) (wrapping_add a j)).0
        ≡ (read_word b (wrapping_add a j)).0
  unfolding read_word
  read_word-write_long_apart i j x h k p =
      rw
        (
          shifted j 1 k,
          index-write_long b (wrapping_add a i) x (wrapping_add a j),
          index-write_long b (wrapping_add a i) x (wrapping_add a (j + 1)),
          long_byte i j x h (omega arith) (ground arith),
          long_byte i (j + 1) x h k (ground arith),
        )
        refl

  pub read_long-write_word_apart :
      (i j x : ℕ)
      → i + 1 < n
      → j + 3 < n
      → (i + 1 < j) ⊎ (j + 3 < i)
      → (read_long (write_word b (wrapping_add a i) x) (wrapping_add a j)).0
        ≡ (read_long b (wrapping_add a j)).0
  unfolding read_long
  read_long-write_word_apart i j x h k p =
      rw
        (
          shifted j 1 (omega arith),
          shifted j 2 (omega arith),
          shifted j 3 k,
          index-write_word b (wrapping_add a i) x (wrapping_add a j),
          index-write_word b (wrapping_add a i) x (wrapping_add a (j + 1)),
          index-write_word b (wrapping_add a i) x (wrapping_add a (j + 2)),
          index-write_word b (wrapping_add a i) x (wrapping_add a (j + 3)),
          word_byte i j x h (omega arith) (ground arith) (ground arith),
          word_byte i (j + 1) x h (omega arith) (ground arith) (ground arith),
          word_byte i (j + 2) x h (omega arith) (ground arith) (ground arith),
          word_byte i (j + 3) x h k (ground arith) (ground arith),
        )
        refl

  -- A word that was written is read back.
  pub read_word-write_word :
      (i x : ℕ)
      → i + 1 < n
      → x < 2 ^ 16
      → (read_word (write_word b (wrapping_add a i) x) (wrapping_add a i)).0 ≡ x
  unfolding read_word
  read_word-write_word i x h small =
      rw
        (
          shifted i 1 h,
          index-write_word b (wrapping_add a i) x (wrapping_add a i),
          index-write_word b (wrapping_add a i) x (wrapping_add a (i + 1)),
          word_high b (wrapping_add a i) x (
              rw (shifted i 1 h)
                (differ b v a n size room i (i + 1) (omega arith) (omega arith) h)),
          ap (λ t. (write_word b (wrapping_add a i) x).memory (index b t)) (sym (shifted i 1 h)),
          word_low b (wrapping_add a i) x,
        )
        (join_bytes x small)

-- Three fields that are written from the top down read back: a word, a longword and a word.
module _ (b : LinearMemoryBus) (v : IsValid b) (a : ℕ) (size : 8 ≤ b.len) (room : a + 8 ≤ 2 ^ 32)
    (x y z : ℕ) (p : x < 2 ^ 16) (q : y < 2 ^ 32) (r : z < 2 ^ 16) where
  abbrev pub three_fields : LinearMemoryBus
  three_fields =
      write_word (write_long (write_word b (wrapping_add a 6) x) (wrapping_add a 2) y)
        (wrapping_add a 0) z

  pub three_fields_lem :
      ((read_word three_fields (wrapping_add a 6)).0 ≡ x)
      × ((read_long three_fields (wrapping_add a 2)).0 ≡ y)
      × ((read_word three_fields (wrapping_add a 0)).0 ≡ z)
  unfolding write_word write_long
  three_fields_lem =
      let b1 = write_word b (wrapping_add a 6) x in
      let b2 = write_long b1 (wrapping_add a 2) y in
      let v1 = write_word-IsValid b (wrapping_add a 6) x v in
      let v2 = write_long-IsValid b1 (wrapping_add a 2) y v1 in
      (
        read_word-write_word_apart b2 v2 a 8 size room 0 6 z (omega arith) (omega arith)
              (inl (omega arith))
            ∙ read_word-write_long_apart b1 v1 a 8 size room 2 6 y (omega arith) (omega arith)
                (inl (omega arith))
            ∙ read_word-write_word b v a 8 size room 6 x (omega arith) p,
        read_long-write_word_apart b2 v2 a 8 size room 0 2 z (omega arith) (omega arith)
              (inl (omega arith))
            ∙ read_long-write_long b1 (wrapping_add a 2) y v1 (omega arith) (omega arith) q,
        read_word-write_word b2 v2 a 8 size room 0 z (omega arith) r,
      )
