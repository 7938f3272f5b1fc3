-- ===== src/Message/Decompress/Tests.antt =====
-- The theorems at a message that holds "a", and "b.a" by way of a pointer.
use tor_android_service_arch.Message.Decompress.Complete.{decompress_name-Denotes}
use tor_android_service_arch.Message.Decompress.Denotes.{Denotes, root, label, pointer}
use tor_android_service_arch.Message.Decompress.Total.{Sound, decompress_name-Sound}
use tor_android_service_arch.Message.Decompress.{decompress_name, named}
use tor_android_service_arch.Names.Wire.{Label, encode}
use tor_android_service_arch.Names.{Bytes}
use tor_android_service_arch.Prelude.{◌-◌, ◌≡◌, refl, arith, List, [], ◌∷◌}

abbrev packet : Bytes
packet = 1 ∷ 97 ∷ 0 ∷ 1 ∷ 98 ∷ 0xc0 ∷ 0 ∷ []

abbrev b_a : List Label
b_a = (98 ∷ []) ∷ (97 ∷ []) ∷ []

packet-Denotes : Denotes packet 3 b_a 4 1
packet-Denotes =
    label refl refl (omega arith) (omega arith) (refl, tt)
      (pointer refl (omega arith) refl
        (label refl refl (omega arith) (omega arith) (refl, tt) (root refl) refl))
      refl

decompress_name-Denotes_example : decompress_name packet 3 4 ≡ named 4 (4 - 4) (encode b_a)
decompress_name-Denotes_example =
    decompress_name-Denotes packet 3 4 b_a 4 1 packet-Denotes (omega arith) (omega arith)
      (omega arith)

decompress_name-Sound_example : Sound packet 3 4 (decompress_name packet 3 4)
decompress_name-Sound_example = decompress_name-Sound packet 3 4
