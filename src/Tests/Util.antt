-- ===== src/Tests/Util.antt =====
-- src/common/tdb_util.c and src/common/tdb_buf.c on concrete inputs.
use transaction_db.Base.{◌-◌, ◌^◌}
use transaction_db.Util.Arena.{Arena, arena_alloc}
use transaction_db.Util.Arena.Bounds.{IsServed, arena_alloc-IsServed, arena_alloc_wraps}
use transaction_db.Base.{◌≡◌, refl, true, some, none, [], ◌∷◌, ◌++◌, arith, length, dec_lt}
use transaction_db.Base.Order.{lt_wf}
use transaction_db.Util.Varint.{put_varint, put_varint_loop, get_varint, get_varint_loop}
use transaction_db.Util.Varint.RoundTrip.{get_varint-put_varint, get_varint_truncated}
use transaction_db.Util.Buf.{init, append}
use transaction_db.Util.Buf.Write.{Wrote, append-Wrote}

put_300 : put_varint 300 ≡ 0xac ∷ 0x02 ∷ []
unfolding put_varint put_varint_loop lt_wf dec_lt
put_300 = refl

get_300 : get_varint (0xac ∷ 0x02 ∷ 9 ∷ []) ≡ some (300, 2)
unfolding get_varint get_varint_loop
get_300 = refl

get_varint-put_varint_example :
    get_varint (put_varint 300 ++ (9 ∷ [])) ≡ some (300, length (put_varint 300))
get_varint-put_varint_example = get_varint-put_varint 300 (9 ∷ []) (omega arith)

get_varint_truncated_example : get_varint (0xac ∷ []) ≡ none
get_varint_truncated_example = get_varint_truncated 300 0x02 (0xac ∷ []) [] (omega arith) put_300

append-Wrote_example : Wrote init (1 ∷ 2 ∷ []) (append (λ n. true) init (1 ∷ 2 ∷ []))
unfolding init
append-Wrote_example = append-Wrote (λ n. true) (λ n. refl) init (1 ∷ 2 ∷ []) (omega arith)

abbrev one_block : Arena
one_block = record { blocks = record { used = 32; cap = 4096 } ∷ []; block_size = 4096 }

arena_alloc-IsServed_example : IsServed one_block 5 (arena_alloc (λ n. true) one_block 5)
arena_alloc-IsServed_example =
    arena_alloc-IsServed (λ n. true) one_block 5
      (((omega arith, omega arith, refl), tt), omega arith) (omega arith)

arena_alloc_wraps_example : arena_alloc (λ n. true) one_block (2 ^ 64 - 1) ≡ (some 32, one_block)
arena_alloc_wraps_example =
    arena_alloc_wraps (λ n. true) one_block record { used = 32; cap = 4096 } [] (2 ^ 64 - 1) refl
      (omega arith, omega arith, refl) (omega arith) (omega arith)
