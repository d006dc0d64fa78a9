-- ===== src/Storage/Pager/FreeList/Reuse.antt =====
-- The page that a trunk took last is the one that it gives next.
use transaction_db.Base.{
  ℕ, ◌+◌, ◌-◌, ◌*◌, ◌^◌, ◌<◌, ◌≤◌, ◌≡◌, sym, ap, ◌∙◌, List, ◌++◌, arith, length, take, drop,
  length-take, length-append, length-drop, drop-append, drop_add,
}
use transaction_db.Util.BigEndian.{put_u32, get_u32-put_u32, length-put_u32}
use transaction_db.Storage.Pager.{poke}
use transaction_db.Storage.Pager.FreeList.{leaf_at, leaf_count, last_leaf, with_leaf}

drop-poke :
    (off : ℕ) (bytes d : List ℕ)
    → off ≤ length d
    → drop off (poke off bytes d) ≡ bytes ++ drop (off + length bytes) d
unfolding poke
drop-poke off bytes d h =
    let n : length (take off d) ≡ off = omega (arith, length-take off d) in
    rw n at (drop-append (take off d) (bytes ++ drop (off + length bytes) d))

length-poke :
    (off : ℕ) (bytes d : List ℕ)
    → off + length bytes ≤ length d
    → length (poke off bytes d) ≡ length d
unfolding poke
length-poke off bytes d h = omega (
  arith,
  length-append (take off d) (bytes ++ drop (off + length bytes) d),
  length-append bytes (drop (off + length bytes) d),
  length-take off d,
  length-drop (off + length bytes) d,
)

-- A store before `i` does not reach what lies from `i` on.
drop-poke_before :
    (off i : ℕ) (bytes d : List ℕ)
    → off + length bytes ≤ i
    → i ≤ length d
    → drop i (poke off bytes d) ≡ drop i d
drop-poke_before off i bytes d h h' =
    let k : ℕ = off + length bytes in
    let j : ℕ = i - k in
    let e : i ≡ k + j = omega arith in
    let past : drop k (poke off bytes d) ≡ drop k d =
      drop_add off (length bytes) (poke off bytes d)
      ∙ rw (drop-poke off bytes d (omega arith)) (drop-append bytes (drop k d)) in
    rw e (drop_add k j (poke off bytes d) ∙ ap (λ q. drop j q) past ∙ sym (drop_add k j d))

-- A trunk page with room for one more entry in its bytes, which are no more than 65536, that takes the
-- page `n` as `tdb_pager_free` does: it has one entry more, as many bytes, and its last entry, the
-- page that `tdb_pager_alloc` takes, is `n`.
pub with_leaf-last_leaf :
    (d : List ℕ) (n : ℕ)
    → n < 2 ^ 32
    → 13 + leaf_count d * 4 ≤ length d
    → length d ≤ 65536
    → (leaf_count (with_leaf d n) ≡ leaf_count d + 1)
      × (length (with_leaf d n) ≡ length d)
      × (last_leaf (with_leaf d n) ≡ n)
unfolding with_leaf last_leaf leaf_count leaf_at
with_leaf-last_leaf d n h fits small =
    let c : ℕ = leaf_count d in
    let narrow : leaf_at c ≡ 9 + c * 4 = omega arith in
    let q : List ℕ = poke (leaf_at c) (put_u32 n) d in
    let ln = length-put_u32 n in
    let lc = length-put_u32 (c + 1) in
    let lq : length q ≡ length d = length-poke (leaf_at c) (put_u32 n) d (omega (arith, ln)) in
    let counted : leaf_count (with_leaf d n) ≡ c + 1 =
      rw (drop-poke 5 (put_u32 (c + 1)) q (omega (arith, lq)))
        (get_u32-put_u32 (c + 1) _ (omega arith)) in
    let last : leaf_count (with_leaf d n) - 1 ≡ c = omega (arith, counted) in
    (
      counted,
      length-poke 5 (put_u32 (c + 1)) q (omega (arith, lq, lc)) ∙ lq,
      rw last (
          rw
            (
              drop-poke_before 5 (leaf_at c) (put_u32 (c + 1)) q (omega (arith, lc))
                  (omega (arith, lq)),
              drop-poke (leaf_at c) (put_u32 n) d (omega arith),
            )
            (get_u32-put_u32 n _ h)),
    )
