-- ===== src/Storage/Pager/FreeList.antt =====
-- storage/tdb_pager.c: the list of free pages, whose trunk pages hold the numbers of the others.
pub mod Reuse
use transaction_db.Base.{
  ℕ, ◌+◌, ◌-◌, ◌*◌, ◌/◌, ◌%◌, ◌^◌, Bool, true, false, ◌||◌, Option, none, some, List, [], ◌∷◌, ◌++◌,
  drop, ltb, ◌==◌, if◌then◌else◌,
}
use transaction_db.Status.{Failure, readonly, misuse, nomem}
use transaction_db.Util.BigEndian.{put_u32, get_u32}
use transaction_db.Storage.Header.{Header, zeros}
use transaction_db.Storage.Pager.{
  StoreOps, Pager, Page, poke, cache_remove, page_new, get, unref, write, data_of, set_data,
  set_hdr,
}

-- The place of the entry `idx` of a trunk page, in 32 bits.
unfoldable pub leaf_at : ℕ → ℕ
leaf_at idx = (9 + idx * 4) % 2 ^ 32

unfoldable pub leaf_count : List ℕ → ℕ
leaf_count trunk = get_u32 (drop 5 trunk)

-- The last entry.
unfoldable pub last_leaf : List ℕ → ℕ
last_leaf trunk = get_u32 (drop (leaf_at (leaf_count trunk - 1)) trunk)

-- The trunk page with one more entry.
unfoldable pub with_leaf : List ℕ → ℕ → List ℕ
with_leaf trunk n =
    poke 5 (put_u32 (leaf_count trunk + 1)) (poke (leaf_at (leaf_count trunk)) (put_u32 n) trunk)

-- A new trunk page: its type, the next trunk, no entries.
unfoldable pub trunk_image : ℕ → ℕ → List ℕ
trunk_image size next = 0xfe ∷ (put_u32 next ++ (put_u32 0 ++ zeros (size - 9)))

module _ (ops : StoreOps) where
  -- Storing to the trunk page `head`, and giving it back.
  unfoldable pub store_trunk : Pager ops → ℕ → List ℕ → Pager ops
  store_trunk p head d = unref ops (write ops (set_data ops p head d) head).1 head

  -- A page from the trunk that is pinned, whose bytes are `d`.
  unfoldable pub pop_leaf : Pager ops → List ℕ → ℕ × Pager ops
  pop_leaf p d =
      let count = leaf_count d in
      let head = p.hdr.freelist_head in
      let less = record p.hdr { freelist_count = (p.hdr.freelist_count + (2 ^ 32 - 1)) % 2 ^ 32 } in
      if ltb 0 count
      then (last_leaf d, set_hdr ops (store_trunk p head (poke 5 (put_u32 (count - 1)) d)) less)
      else (head, set_hdr ops (unref ops p head) record less { freelist_head = get_u32 (drop 1 d) })

  unfoldable pub take_free : Bool → Pager ops → Option Failure × ℕ × Pager ops
  take_free mem p =
      if p.hdr.freelist_head == 0
      then (none, 0, p)
      else (let (rc, p') = get ops mem p p.hdr.freelist_head in
          elim rc [
            | some e ↦ (some e, 0, p')
            | none ↦ let (n, q) = pop_leaf p' (data_of ops p' p'.hdr.freelist_head) in (none, n, q)
          ])

  -- The page number that is taken where the list gave none.
  unfoldable pub grow : ℕ → Pager ops → ℕ × Pager ops
  grow n p =
      let size = (p.hdr.db_size + 1) % 2 ^ 32 in
      if n == 0 then (size, set_hdr ops p record p.hdr { db_size = size }) else (n, p)

  -- The end of `tdb_pager_alloc`: a zeroed page in place of a stale one.
  unfoldable pub fresh : Bool → ℕ → Pager ops → Option Failure × ℕ × Pager ops
  fresh mem n p =
      let p' = cache_remove ops p n in
      if mem
      then (
        none,
        n,
        page_new ops p' record { pgno = n; content = zeros p.page_size; dirty = true; refs = 1 },
      )
      else (some nomem, 0, p')

  -- `tdb_pager_alloc`: the status, the number of the page, the pager. `m₁` and `m₂` say whether the
  -- allocator grants the trunk page and the new page.
  unfoldable pub alloc : Bool → Bool → Pager ops → Option Failure × ℕ × Pager ops
  alloc m₁ m₂ p =
      if p.is_readonly
      then (some readonly, 0, p)
      else (let (rc, n, p') = take_free m₁ p in
          elim rc [ some e ↦ (some e, 0, p') | none ↦ let (n', q) = grow n p' in fresh m₂ n' q ])

  -- The end of `tdb_pager_free`: the page becomes a trunk.
  unfoldable pub make_trunk : Bool → Pager ops → ℕ → Option Failure × Pager ops
  make_trunk mem p n =
      let (rc, p') = get ops mem p n in
      elim rc [
        | some e ↦ (some e, p')
        | none ↦ (
          none,
          set_hdr ops (store_trunk p' n (trunk_image p.page_size p.hdr.freelist_head))
              record p.hdr {
                freelist_head = n;
                freelist_count = (p.hdr.freelist_count + 1) % 2 ^ 32;
              },
        )
      ]

  unfoldable pub per_trunk : Pager ops → ℕ
  per_trunk p = (p.page_size + (2 ^ 32 - 9)) % 2 ^ 32 / 4

  -- The trunk that is pinned, whose bytes are `d`, takes the page where it has room.
  unfoldable pub push_leaf : Bool → Pager ops → ℕ → List ℕ → Option Failure × Pager ops
  push_leaf mem p n d =
      let head = p.hdr.freelist_head in
      let count = leaf_count d in
      if ltb count (per_trunk p)
      then (
        none,
        set_hdr ops (store_trunk p head (with_leaf d n))
            record p.hdr { freelist_count = (p.hdr.freelist_count + 1) % 2 ^ 32 },
      )
      else make_trunk mem (unref ops p head) n

  -- `tdb_pager_free`
  unfoldable pub free : Bool → Bool → Pager ops → ℕ → Option Failure × Pager ops
  free m₁ m₂ p n =
      if p.is_readonly
      then (some readonly, p)
      else if n == 0 || n == 1
      then (some misuse, p)
      else if p.hdr.freelist_head == 0
      then make_trunk m₂ p n
      else (let (rc, p') = get ops m₁ p p.hdr.freelist_head in
          elim rc [
            | some e ↦ (some e, p')
            | none ↦ push_leaf m₂ p' n (data_of ops p' p'.hdr.freelist_head)
          ])
