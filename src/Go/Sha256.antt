-- ===== src/Go/Sha256.antt =====
-- `sha256.Sum256` of crypto/sha256 (FIPS 180-4), over bytes.
use Prim.Native.Nat.{bit_and, bit_xor}
use arxveil.Prelude.{
  ℕ, zero, suc, ◌+◌, ◌-◌, ◌*◌, ◌/◌, ◌%◌, ◌^◌, ◌≡◌, refl, List, [], ◌∷◌, ◌++◌, length, take, drop,
  replicate, get_or,
}
use arxveil.Go.Text.{Bytes, codes}

abbrev word : ℕ
word = 2 ^ 32

rotate_right : ℕ → ℕ → ℕ
rotate_right x n = x / 2 ^ n + x * 2 ^ (32 - n) % word

xor3 : ℕ → ℕ → ℕ → ℕ
xor3 a b c = bit_xor a (bit_xor b c)

-- The fractional parts of the cube roots of the first 64 primes.
abbrev round_constants : List ℕ
round_constants =
    0x428a2f98 ∷ 0x71374491 ∷ 0xb5c0fbcf ∷ 0xe9b5dba5 ∷ 0x3956c25b ∷ 0x59f111f1 ∷ 0x923f82a4
    ∷ 0xab1c5ed5 ∷ 0xd807aa98 ∷ 0x12835b01 ∷ 0x243185be ∷ 0x550c7dc3 ∷ 0x72be5d74 ∷ 0x80deb1fe
    ∷ 0x9bdc06a7 ∷ 0xc19bf174 ∷ 0xe49b69c1 ∷ 0xefbe4786 ∷ 0x0fc19dc6 ∷ 0x240ca1cc ∷ 0x2de92c6f
    ∷ 0x4a7484aa ∷ 0x5cb0a9dc ∷ 0x76f988da ∷ 0x983e5152 ∷ 0xa831c66d ∷ 0xb00327c8 ∷ 0xbf597fc7
    ∷ 0xc6e00bf3 ∷ 0xd5a79147 ∷ 0x06ca6351 ∷ 0x14292967 ∷ 0x27b70a85 ∷ 0x2e1b2138 ∷ 0x4d2c6dfc
    ∷ 0x53380d13 ∷ 0x650a7354 ∷ 0x766a0abb ∷ 0x81c2c92e ∷ 0x92722c85 ∷ 0xa2bfe8a1 ∷ 0xa81a664b
    ∷ 0xc24b8b70 ∷ 0xc76c51a3 ∷ 0xd192e819 ∷ 0xd6990624 ∷ 0xf40e3585 ∷ 0x106aa070 ∷ 0x19a4c116
    ∷ 0x1e376c08 ∷ 0x2748774c ∷ 0x34b0bcb5 ∷ 0x391c0cb3 ∷ 0x4ed8aa4a ∷ 0x5b9cca4f ∷ 0x682e6ff3
    ∷ 0x748f82ee ∷ 0x78a5636f ∷ 0x84c87814 ∷ 0x8cc70208 ∷ 0x90befffa ∷ 0xa4506ceb ∷ 0xbef9a3f7
    ∷ 0xc67178f2 ∷ []

big_endian : ℕ → ℕ → ℕ → ℕ → ℕ
big_endian a b c d = ((a * 256 + b) * 256 + c) * 256 + d

words : Bytes → List ℕ
unfolding big_endian
words (a ∷ b ∷ c ∷ d ∷ rest) = big_endian a b c d ∷ words rest
words _ = []

word_bytes : ℕ → Bytes
word_bytes w = (w / 2 ^ 24) ∷ (w / 2 ^ 16 % 256) ∷ (w / 2 ^ 8 % 256) ∷ (w % 256) ∷ []

-- The message, a one bit, zeros up to 56 bytes modulo 64, and the length in bits as 8 bytes.
pad : Bytes → Bytes
unfolding word_bytes
pad m =
    m
    ++ (0x80 ∷ replicate ((119 - length m % 64) % 64) 0)
    ++ word_bytes (length m * 8 / word % word)
    ++ word_bytes (length m * 8 % word)

-- The next word of the schedule, from the 16 words before it.
next_word : List ℕ → ℕ
unfolding rotate_right xor3
next_word w =
    let x = get_or w 1 0 in
    let y = get_or w 14 0 in
    let s0 = xor3 (rotate_right x 7) (rotate_right x 18) (x / 2 ^ 3) in
    let s1 = xor3 (rotate_right y 17) (rotate_right y 19) (y / 2 ^ 10) in
    (get_or w 0 0 + s0 + get_or w 9 0 + s1) % word

record State : Type 0 where
  a : ℕ
  b : ℕ
  c : ℕ
  d : ℕ
  e : ℕ
  f : ℕ
  g : ℕ
  h : ℕ

round : ℕ → ℕ → State → State
unfolding rotate_right xor3
round k w s =
    let s1 = xor3 (rotate_right s.e 6) (rotate_right s.e 11) (rotate_right s.e 25) in
    let ch = bit_xor (bit_and s.e s.f) (bit_and (word - 1 - s.e) s.g) in
    let t1 = s.h + s1 + ch + k + w in
    let s0 = xor3 (rotate_right s.a 2) (rotate_right s.a 13) (rotate_right s.a 22) in
    let maj = xor3 (bit_and s.a s.b) (bit_and s.a s.c) (bit_and s.b s.c) in
    record {
      a = (t1 + s0 + maj) % word;
      b = s.a;
      c = s.b;
      d = s.c;
      e = (s.d + t1) % word;
      f = s.e;
      g = s.f;
      h = s.g;
    }

-- 64 rounds over a sliding window of the schedule.
rounds : List ℕ → List ℕ → State → State
unfolding round next_word
rounds [] w s = s
rounds (k ∷ ks) w s = rounds ks (drop 1 w ++ (next_word w ∷ [])) (round k (get_or w 0 0) s)

compress : List ℕ → State → State
unfolding rounds
compress w s =
    let t = rounds round_constants w s in
    record {
      a = (s.a + t.a) % word;
      b = (s.b + t.b) % word;
      c = (s.c + t.c) % word;
      d = (s.d + t.d) % word;
      e = (s.e + t.e) % word;
      f = (s.f + t.f) % word;
      g = (s.g + t.g) % word;
      h = (s.h + t.h) % word;
    }

-- One block of 16 words at a time; the first argument bounds the number of blocks.
blocks : ℕ → List ℕ → State → State
unfolding compress
blocks zero ws s = s
blocks (suc n) ws s = blocks n (drop 16 ws) (compress (take 16 ws) s)

initial_state : State
initial_state = record {
  a = 0x6a09e667;
  b = 0xbb67ae85;
  c = 0x3c6ef372;
  d = 0xa54ff53a;
  e = 0x510e527f;
  f = 0x9b05688c;
  g = 0x1f83d9ab;
  h = 0x5be0cd19;
}

digest : State → Bytes
unfolding word_bytes
digest s =
    word_bytes s.a
    ++ word_bytes s.b
    ++ word_bytes s.c
    ++ word_bytes s.d
    ++ word_bytes s.e
    ++ word_bytes s.f
    ++ word_bytes s.g
    ++ word_bytes s.h

unfoldable pub sum256 : Bytes → Bytes
unfolding pad words blocks initial_state digest
sum256 m = let p = pad m in digest (blocks (length p / 64) (words p) initial_state)

sum256_example :
    sum256 (codes "abc")
    ≡ 0xba ∷ 0x78 ∷ 0x16 ∷ 0xbf ∷ 0x8f ∷ 0x01 ∷ 0xcf ∷ 0xea ∷ 0x41 ∷ 0x41 ∷ 0x40 ∷ 0xde ∷ 0x5d
      ∷ 0xae ∷ 0x22 ∷ 0x23 ∷ 0xb0 ∷ 0x03 ∷ 0x61 ∷ 0xa3 ∷ 0x96 ∷ 0x17 ∷ 0x7a ∷ 0x9c ∷ 0xb4 ∷ 0x10
      ∷ 0xff ∷ 0x61 ∷ 0xf2 ∷ 0x00 ∷ 0x15 ∷ 0xad ∷ []
unfolding sum256
sum256_example = refl

pub length-sum256 : (m : Bytes) → length (sum256 m) ≡ 32
unfolding digest
length-sum256 m = unfold sum256 in refl
