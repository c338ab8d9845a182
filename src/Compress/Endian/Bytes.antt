-- ===== src/Compress/Endian/Bytes.antt =====
-- What the encoders write are bytes.
use ticktock.Prelude.{zero, suc, arith, ℤ}
use ticktock.BitSet.Bits.{IsBytes}
use ticktock.Compress.Endian.{compress_int16, compress_int32, compress_int64}

pub compress_int16-IsBytes : (n : ℤ) → IsBytes (compress_int16 n)
unfolding compress_int16
compress_int16-IsBytes n zero = omega arith
compress_int16-IsBytes n (suc zero) = omega arith
compress_int16-IsBytes n (suc (suc j)) = omega arith

pub compress_int32-IsBytes : (n : ℤ) → IsBytes (compress_int32 n)
unfolding compress_int32
compress_int32-IsBytes n zero = omega arith
compress_int32-IsBytes n (suc zero) = omega arith
compress_int32-IsBytes n (suc (suc zero)) = omega arith
compress_int32-IsBytes n (suc (suc (suc zero))) = omega arith
compress_int32-IsBytes n (suc (suc (suc (suc j)))) = omega arith

pub compress_int64-IsBytes : (n : ℤ) → IsBytes (compress_int64 n)
unfolding compress_int64
compress_int64-IsBytes n zero = omega arith
compress_int64-IsBytes n (suc zero) = omega arith
compress_int64-IsBytes n (suc (suc zero)) = omega arith
compress_int64-IsBytes n (suc (suc (suc zero))) = omega arith
compress_int64-IsBytes n (suc (suc (suc (suc zero)))) = omega arith
compress_int64-IsBytes n (suc (suc (suc (suc (suc zero))))) = omega arith
compress_int64-IsBytes n (suc (suc (suc (suc (suc (suc zero)))))) = omega arith
compress_int64-IsBytes n (suc (suc (suc (suc (suc (suc (suc zero))))))) = omega arith
compress_int64-IsBytes n (suc (suc (suc (suc (suc (suc (suc (suc j)))))))) = omega arith
