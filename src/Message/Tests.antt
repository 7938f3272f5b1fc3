-- ===== src/Message/Tests.antt =====
-- The theorem at "b.a", written behind "a".
use tor_android_service_arch.Message.Compress.{Compel, compress_name}
use tor_android_service_arch.Message.CompressFits.{CompressSound, compress_name-CompressSound}
use tor_android_service_arch.Message.Fits.{Fits}
use tor_android_service_arch.Names.{Bytes}
use tor_android_service_arch.Prelude.{refl, arith, true, List, [], ◌∷◌}

abbrev written : List Compel
written = record { index = 12; s = 1 ∷ 97 ∷ 0 ∷ [] } ∷ []

abbrev b_a_name : Bytes
b_a_name = 1 ∷ 98 ∷ 1 ∷ 97 ∷ 0 ∷ []

a-Fits : Fits (1 ∷ 97 ∷ 0 ∷ []) ((97 ∷ []) ∷ [])
a-Fits = record { is_name = (omega arith, omega arith, tt); encoded = refl; short = omega arith }

b_a-Fits : Fits b_a_name ((98 ∷ []) ∷ (97 ∷ []) ∷ [])
b_a-Fits = record {
  is_name = (omega arith, omega arith, (omega arith, omega arith, tt));
  encoded = refl;
  short = omega arith;
}

compress_name-CompressSound_example :
    CompressSound true b_a_name (compress_name (λ b. b) true b_a_name 20 written)
compress_name-CompressSound_example =
    compress_name-CompressSound (λ b. b) b_a_name ((98 ∷ []) ∷ (97 ∷ []) ∷ []) b_a-Fits true 20
      written (((97 ∷ []) ∷ [], a-Fits), tt)
