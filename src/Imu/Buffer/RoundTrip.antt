-- ===== src/Imu/Buffer/RoundTrip.antt =====
-- What a number written by BufferUtils.cpp reads back as. Only the 32-bit float is written in the
-- order in which it is read.
use guillemot_core.Prelude.{ℕ, ◌+◌, ◌*◌, ◌/◌, ◌%◌, ◌^◌, ◌<◌, ◌≡◌, ◌↔◌, ◌∷◌, arith}
use guillemot_core.Prelude.Run.{done, ◌>>=◌}
use guillemot_core.Imu.Buffer.{
  Bytes, put_uint16, get_uint16, put_uint32, get_uint32, put_float32, get_float32, put_float64,
  get_float64,
}

-- A 32-bit float that is written into a buffer with room for it reads back unchanged, whatever the
-- buffer held and whatever follows.
pub put-get_float32 :
    (a b c d : ℕ) (rest : Bytes) (data' : ℕ)
    → data' < 2 ^ 32
    → (put_float32 (a ∷ b ∷ c ∷ d ∷ rest) data' >>= get_float32) ≡ done data'
unfolding put_float32 get_float32
put-get_float32 a b c d rest data' h = ground arith

pub get-put_float32 :
    (a b c d : ℕ) (rest : Bytes)
    → a < 256
    → b < 256
    → c < 256
    → d < 256
    → (get_float32 (a ∷ b ∷ c ∷ d ∷ rest) >>= λ v. put_float32 (a ∷ b ∷ c ∷ d ∷ rest) v)
      ≡ done (a ∷ b ∷ c ∷ d ∷ rest)
unfolding put_float32 get_float32
get-put_float32 a b c d rest ha hb hc hd = ground arith

-- A 16-bit number is written low byte first and read high byte first, so it reads back unchanged
-- exactly when its two bytes are equal.
pub put-get_uint16 :
    (a b : ℕ) (rest : Bytes) (data' : ℕ)
    → data' < 2 ^ 16
    → ((put_uint16 (a ∷ b ∷ rest) data' >>= get_uint16) ≡ done data') ↔ (data' % 256 ≡ data' / 256)
unfolding put_uint16 get_uint16
put-get_uint16 a b rest data' h = ((λ e. ground arith), (λ e. ground arith))

-- A 32-bit number reads back with its four bytes in the opposite order, so writing and reading
-- twice gives it back.
pub put-get-twice_uint32 :
    (a b c d : ℕ) (rest : Bytes) (data' : ℕ)
    → data' < 2 ^ 32
    → (put_uint32 (a ∷ b ∷ c ∷ d ∷ rest) data'
        >>= get_uint32
        >>= put_uint32 (a ∷ b ∷ c ∷ d ∷ rest)
        >>= get_uint32)
      ≡ done data'
unfolding put_uint32 get_uint32
put-get-twice_uint32 a b c d rest data' h = ground arith

-- A 64-bit float reads back as its low half, followed by the four bytes that the buffer held
-- before: the writer never stores the high half for good.
pub put-get_float64 :
    (b0 b1 b2 b3 b4 b5 b6 b7 : ℕ) (rest : Bytes) (data' : ℕ)
    → (put_float64 (b0 ∷ b1 ∷ b2 ∷ b3 ∷ b4 ∷ b5 ∷ b6 ∷ b7 ∷ rest) data' >>= get_float64)
      ≡ done (data' % 2 ^ 32 * 2 ^ 32 + (b4 * 2 ^ 24 + b5 * 2 ^ 16 + b6 * 2 ^ 8 + b7))
unfolding put_float64 get_float64
put-get_float64 b0 b1 b2 b3 b4 b5 b6 b7 rest data' = ground arith
