-- ===== src/Buffer/Examples.antt =====
-- The theorems on buffers at concrete inputs, and tests.
use allvm_tools.Buffer.{get_8, put_64, get_64, get_32, get_16, Buffer, read}
use allvm_tools.Buffer.Inv.{
  step, call_put_16, call_put_32, step-failed, step-Kept, SameRoom, IsValid,
}
use allvm_tools.Buffer.Cursor.{seen, view, fetch, get-refines}
use allvm_tools.Buffer.Words.{RoundTrip, get-put, w64}
use allvm_tools.Base.{[], true, ◌∷◌, refl, arith, false, ◌≡◌}

abbrev eight : Buffer
eight = record {
  ok = true;
  free_data = false;
  bytes = 1 ∷ 2 ∷ 3 ∷ 4 ∷ 5 ∷ 6 ∷ 7 ∷ 8 ∷ [];
  size = 8;
  offset = 0;
}

eight-IsValid : IsValid eight
eight-IsValid = omega arith

abbrev broken : Buffer
broken = record eight { ok = false; offset = 3 }

step-Kept_example :
    IsValid (step (call_put_32 0x01020304) eight)
    × SameRoom (call_put_32 0x01020304) eight (step (call_put_32 0x01020304) eight)
step-Kept_example = step-Kept (call_put_32 0x01020304) tt eight-IsValid

step-failed_example : step (call_put_16 7) broken ≡ broken
step-failed_example = step-failed (call_put_16 7) broken refl (λ h. h)

get-put_example : RoundTrip eight put_64 get_64 0x1122334455667788
get-put_example =
    get-put w64 eight 0x1122334455667788 (eight-IsValid, refl, omega arith) (omega arith)

get-refines_example :
    (seen (get_8 eight) ≡ fetch 1 (view eight))
    × (seen (get_16 eight) ≡ fetch 2 (view eight))
    × (seen (get_32 eight) ≡ fetch 4 (view eight))
    × (seen (get_64 eight) ≡ fetch 8 (view eight))
get-refines_example = get-refines eight-IsValid

little_endian_order : (get_16 eight).0 ≡ 0x0201
unfolding get_16
little_endian_order = refl

short_read : read (record eight { offset = 6 }) 12 ≡ ((2, 7 ∷ 8 ∷ []), record eight { offset = 8 })
unfolding read
short_read = refl
