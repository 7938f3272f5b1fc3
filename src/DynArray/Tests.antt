-- ===== src/DynArray/Tests.antt =====
-- An array of eight elements grows by a block of eight.
use tor_android_service_arch.DynArray.{Darray, da_grow1}
use tor_android_service_arch.Prelude.{◌≡◌, refl, true, some}

abbrev full : Darray
full = record { nel = 8; room = 8 }

full_grows :
    da_grow1 true (some full) ≡ record { array = some (record { nel = 9; room = 16 }); cleaned = 0 }
unfolding da_grow1
full_grows = refl
