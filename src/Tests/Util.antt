-- ===== src/Tests/Util.antt =====
-- The theorems on src/util.c at concrete inputs.
use libgdb.Prelude.{arith, ◌++◌, replicate, ◌≡◌, refl, ◌∷◌}
use libgdb.Prelude.Outcome.{ok}
use libgdb.Util.Memset.Reference.{memset-write_bytes}
use libgdb.Util.Memset.{memset, fill_words, fill_loop, stores}
use libgdb.Util.Buffer.{store, object_bytes, write_bytes}

-- Sixty bytes from place 2 of an object at an address that is odd.
memset_run : memset 3 (replicate 70 1) 2 0 60 ≡ ok (1 ∷ 1 ∷ replicate 60 0 ++ replicate 8 1)
unfolding memset fill_words fill_loop stores write_bytes store object_bytes
memset_run = refl

memset_long_run :
    memset 4 (replicate 160 1) 1 0x1ff 155 ≡ ok (1 ∷ replicate 155 255 ++ replicate 4 1)
unfolding memset fill_words fill_loop stores write_bytes store object_bytes
memset_long_run = refl

memset_short_run : memset 0 (replicate 6 1) 1 7 5 ≡ ok (1 ∷ replicate 5 7)
unfolding memset fill_words fill_loop stores write_bytes store object_bytes
memset_short_run = refl

-- Thirty-nine bytes of an object at an address that is 3 more than a multiple of 8.
memset-write_bytes_example :
    memset 3 (replicate 50 1) 2 0x2ff 39 ≡ write_bytes (replicate 50 1) 2 (replicate 39 255)
memset-write_bytes_example = memset-write_bytes 3 (replicate 50 1) 2 0x2ff 39 (omega arith)
