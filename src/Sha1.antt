-- ===== src/Sha1.antt =====
-- src/sha1.rs: SHA-1 over bytes, with the arithmetic of `u32` and `u64` written out.
pub mod Shape
use Prim.Native.Nat.{bit_and, bit_or, bit_xor}
use ruzor.Prelude.{
  ℕ, zero, suc, ◌+◌, ◌-◌, ◌*◌, ◌/◌, ◌%◌, ◌^◌, ◌≡◌, refl, List, [], ◌∷◌, ◌++◌, ◌==◌, ltb,
  if◌then◌else◌, length, get_or, take, drop, replicate,
}
use ruzor.Text.{Text, Bytes, codes}

-- `a.wrapping_add(b)`
abbrev pub add32 : ℕ → ℕ → ℕ
add32 a b = (a + b) % 2 ^ 32

-- `!a`
not32 : ℕ → ℕ
not32 a = bit_xor a 0xffff_ffff

-- `a.rotate_left(k)`, for k below 32
rotate_left : ℕ → ℕ → ℕ
rotate_left a k = a * 2 ^ k % 2 ^ 32 + a / 2 ^ (32 - k)

-- the bytes of `a.to_be_bytes()`, at most `n` of them
be_bytes : ℕ → ℕ → Bytes
be_bytes zero a = []
be_bytes (suc n) a = a / 256 ^ n % 256 ∷ be_bytes n a

-- `h0`, …, `h4`, and `a`, …, `e`
pub record Words : Type 0 where
  pub a : ℕ
  pub b : ℕ
  pub c : ℕ
  pub d : ℕ
  pub e : ℕ

-- H0, …, H4
abbrev initial : Words
initial = record {
  a = 0x6745_2301;
  b = 0xefcd_ab89;
  c = 0x98ba_dcfe;
  d = 0x1032_5476;
  e = 0xc3d2_e1f0;
}

-- `while (msg.len() % 64) != 56 { msg.push(0); }`, with the rounds left as fuel
pad_zeros : ℕ → ℕ → Bytes
pad_zeros zero len = []
pad_zeros (suc f) len = let rest = pad_zeros f (len + 1) in if len % 64 == 56 then [] else 0 ∷ rest

-- the message with its padding; `bytes.len() as u64 * 8` wraps
unfoldable pub pad : Bytes → Bytes
unfolding pad_zeros be_bytes
pad bytes =
    let n = length bytes in bytes ++ (0x80 ∷ (pad_zeros 64 (n + 1) ++ be_bytes 8 (n * 8 % 2 ^ 64)))

-- `u32::from_be_bytes` of four bytes each: the first 16 words
words_of : ℕ → Bytes → List ℕ
words_of zero chunk = []
words_of (suc n) chunk =
    (get_or chunk 0 0 * 2 ^ 24
      + get_or chunk 1 0 * 2 ^ 16
      + get_or chunk 2 0 * 2 ^ 8
      + get_or chunk 3 0)
    ∷ words_of n (drop 4 chunk)

-- `for i in 16..80`; `w` holds the words so far, the last one first
extend_words : ℕ → List ℕ → List ℕ
extend_words zero w = w
extend_words (suc n) w = extend_words n (
    rotate_left
      (bit_xor (bit_xor (bit_xor (get_or w 2 0) (get_or w 7 0)) (get_or w 13 0)) (get_or w 15 0)) 1
    ∷ w)

rev : List ℕ → List ℕ → List ℕ
rev [] acc = acc
rev (x ∷ xs) acc = rev xs (x ∷ acc)

schedule : Bytes → List ℕ
unfolding words_of extend_words rev rotate_left
schedule chunk = rev (extend_words 64 (rev (words_of 16 chunk) [])) []

-- the `match i` of a round: `f` and `k`
round_f : ℕ → Words → ℕ
round_f i s =
    if ltb i 20
    then bit_or (bit_and s.b s.c) (bit_and (not32 s.b) s.d)
    else if ltb i 40
    then bit_xor (bit_xor s.b s.c) s.d
    else if ltb i 60
    then bit_or (bit_or (bit_and s.b s.c) (bit_and s.b s.d)) (bit_and s.c s.d)
    else bit_xor (bit_xor s.b s.c) s.d

round_k : ℕ → ℕ
round_k i =
    if ltb i 20
    then 0x5a82_7999
    else if ltb i 40
    then 0x6ed9_eba1
    else if ltb i 60
    then 0x8f1b_bcdc
    else 0xca62_c1d6

round : ℕ → ℕ → Words → Words
unfolding rotate_left round_f round_k not32
round i word s = record {
  a = add32 (add32 (add32 (add32 (rotate_left s.a 5) (round_f i s)) s.e) (round_k i)) word;
  b = s.a;
  c = rotate_left s.b 30;
  d = s.c;
  e = s.d;
}

rounds : ℕ → List ℕ → Words → Words
rounds i [] s = s
rounds i (word ∷ w) s = rounds (i + 1) w (round i word s)

abbrev add_words : Words → Words → Words
add_words h s = record {
  a = add32 h.a s.a;
  b = add32 h.b s.b;
  c = add32 h.c s.c;
  d = add32 h.d s.d;
  e = add32 h.e s.e;
}

compress : Words → Bytes → Words
unfolding schedule rounds round
compress h chunk = add_words h (rounds 0 (schedule chunk) h)

-- `for chunk in msg.as_chunks::<64>()`, with the number of whole chunks
chunks : ℕ → Bytes → Words → Words
unfolding compress
chunks zero msg h = h
chunks (suc n) msg h = chunks n (drop 64 msg) (compress h (take 64 msg))

output : Words → Bytes
unfolding be_bytes
output h =
    be_bytes 4 h.a ++ (be_bytes 4 h.b ++ (be_bytes 4 h.c ++ (be_bytes 4 h.d ++ be_bytes 4 h.e)))

-- `digest`
unfoldable pub digest : Bytes → Bytes
unfolding pad chunks output
digest bytes = let msg = pad bytes in output (chunks (length msg / 64) msg initial)

hex_digit : ℕ → ℕ
hex_digit d = get_or (codes "0123456789abcdef") d 0

-- `hex`
unfoldable pub hex : Bytes → Text
unfolding hex_digit
hex [] = []
hex (byte ∷ bytes) = hex_digit (byte / 16) ∷ hex_digit (byte % 16) ∷ hex bytes

-- `hexdigest`
unfoldable pub hexdigest : Bytes → Text
unfolding digest hex
hexdigest bytes = hex (digest bytes)

-- `Sha1`: the bytes fed so far
pub record Sha1 : Type 0 where
  pub bytes : Bytes

unfoldable pub update : Sha1 → Bytes → Sha1
update s more = record { bytes = s.bytes ++ more }

pub finish : Sha1 → Bytes
finish s = digest s.bytes

unfoldable pub finish_hex : Sha1 → Text
unfolding finish hex
finish_hex s = hex (finish s)

sha1_empty : hexdigest [] ≡ codes "da39a3ee5e6b4b0d3255bfef95601890afd80709"
unfolding hexdigest
sha1_empty = refl

sha1_abc : hexdigest (codes "abc") ≡ codes "a9993e364706816aba3e25717850c26c9cd0d89d"
unfolding hexdigest
sha1_abc = refl

sha1_two_blocks :
    hexdigest (codes "abcdbcdecdefdefgefghfghighijhijkijkljklmklmnlmnomnopnopq")
    ≡ codes "84983e441c3bd26ebaae4aa1f95129e5e54670f1"
unfolding hexdigest
sha1_two_blocks = refl
