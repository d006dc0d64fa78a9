-- ===== src/Storage/Wal/Recover/Start.antt =====
-- The steps of recovery: the header of the log is read back, and what follows it is handed on.
use transaction_db.Base.{
  ℕ, ◌+◌, ◌^◌, ◌<◌, ◌≤◌, ◌≡◌, refl, inr, true, false, Option, some, List, [], ◌∷◌, ◌++◌, arith,
  length, drop, replicate, length-append, All, ltb, ◌==◌,
}
use transaction_db.Status.{ok, ◌>>=◌}
use transaction_db.Util.BigEndian.{put_u32, get_u32, get_u32-put_u32}
use transaction_db.Util.Checksum.Laws.{IsU32}
use transaction_db.Storage.File.{FileOps}
use transaction_db.Storage.Compress.{ZstdOps}
use transaction_db.Storage.Wal.{Wal, wal_magic, header_body, header_bytes}
use transaction_db.Storage.Wal.Recover.{
  Scan, rebuild, scan, start_scan, finish_recover, adopt_header, recover_from, recover,
}
use transaction_db.Storage.Wal.Format.{
  Logged, IsLogged, Salts, header_of, sums_of, log_bytes, last_seed, header_of-fields, IsReadable,
}
use transaction_db.Storage.Wal.Recover.Log.{first_log, IsTorn}

-- A write-ahead log in the file of `w`: a header, whole frames, and a torn end.
pub record IsLog (ops : FileOps) (r : IsReadable ops) (w : Wal ops) (s : Salts) (seq : ℕ)
    (es : List Logged) (tail : List ℕ) : Type 0 where
  pub salt1_fits : IsU32 s.salt1
  pub salt2_fits : IsU32 s.salt2
  pub seq_fits : IsU32 seq
  pub small : w.page_size < 2 ^ 31
  pub frames : All (IsLogged w.page_size) es
  pub pages : All (λ e. e.pgno < 2 ^ 31) es
  pub torn : IsTorn s w.page_size (last_seed s s.salt1 es) tail
  pub content :
      r.bytes w.file ≡ header_bytes ops (first_log ops w s seq) ++ (log_bytes s s.salt1 es ++ tail)

pub length-log_bytes :
    (s : Salts) (n seed : ℕ) (es : List Logged)
    → IsU32 s.salt1
    → IsU32 s.salt2
    → All (IsLogged n) es
    → length es ≤ length (log_bytes s seed es)
length-log_bytes s n seed [] u₁ u₂ hs = omega arith
length-log_bytes s n seed (e ∷ es) u₁ u₂ (he, hs) =
    let rest : List ℕ = log_bytes s (sums_of s seed e).0 es in
    omega (
      arith,
      (header_of-fields s u₁ u₂ n seed e he).long,
      length-append (header_of s seed e) (e.page ++ rest),
      length-append e.page rest,
      length-log_bytes s n (sums_of s seed e).0 es u₁ u₂ hs,
    )

module _ (ops : FileOps) (z : Option ZstdOps) where
  pub length-header_bytes : (w : Wal ops) → length (header_bytes ops w) ≡ 32
  unfolding header_bytes header_body put_u32
  length-header_bytes w = refl

  -- The header that was written, field by field.
  header_fields :
      (a b c d x y u v : ℕ)
      → IsU32 a
      → IsU32 b
      → IsU32 c
      → IsU32 d
      → IsU32 x
      → IsU32 y
      → let h =
          (put_u32 a ++ (put_u32 b ++ (put_u32 c ++ (put_u32 d ++ (put_u32 x ++ put_u32 y)))))
          ++ (put_u32 u ++ put_u32 v) in
        (get_u32 h ≡ a)
        × (get_u32 (drop 4 h) ≡ b)
        × (get_u32 (drop 8 h) ≡ c)
        × (get_u32 (drop 12 h) ≡ d)
        × (get_u32 (drop 16 h) ≡ x)
        × (get_u32 (drop 20 h) ≡ y)
  unfolding put_u32
  header_fields a b c d x y u v ha hb hc hd hx hy = (
    get_u32-put_u32 a _ ha,
    get_u32-put_u32 b _ hb,
    get_u32-put_u32 c _ hc,
    get_u32-put_u32 d _ hd,
    get_u32-put_u32 x _ hx,
    get_u32-put_u32 y _ hy,
  )

  adopt_fields :
      (w : Wal ops) (s : Salts) (seq : ℕ) (h : List ℕ)
      → get_u32 h ≡ wal_magic
      → get_u32 (drop 4 h) ≡ 1
      → get_u32 (drop 8 h) ≡ w.page_size
      → get_u32 (drop 12 h) ≡ seq
      → get_u32 (drop 16 h) ≡ s.salt1
      → get_u32 (drop 20 h) ≡ s.salt2
      → adopt_header ops z w h ≡ some (first_log ops w s seq)
  unfolding adopt_header
  adopt_fields w s seq h e₁ e₂ e₃ e₄ e₅ e₆ =
      rw (e₁, e₂, e₃, e₄, e₅, e₆)
        (let same : (w.page_size == w.page_size) ≡ true = ground arith in rw same refl)

  -- The header that was written gives its fields back.
  pub adopt_header-header_bytes :
      (w : Wal ops) (s : Salts) (seq : ℕ)
      → IsU32 s.salt1
      → IsU32 s.salt2
      → IsU32 seq
      → w.page_size < 2 ^ 31
      → adopt_header ops z w (header_bytes ops (first_log ops w s seq))
        ≡ some (first_log ops w s seq)
  unfolding header_bytes header_body
  adopt_header-header_bytes w s seq u₁ u₂ us small =
      let (a, b, c, d, e, f) =
        header_fields wal_magic 1 w.page_size seq s.salt1 s.salt2 _ _ (omega arith) (omega arith)
          (omega arith) us u₁ u₂ in
      adopt_fields w s seq _ a b c d e f

  pub finish_log :
      (w : Wal ops) (s : Salts) (seq : ℕ) (k : Scan) (slots : List ℕ)
      → rebuild ops z true (first_log ops w s seq) k.committed 0 (replicate (length w.slots) 0)
        ≡ ok slots
      → finish_recover ops z true (first_log ops w s seq) (some k)
        ≡ ok (record (first_log ops w s seq) {
          slots = slots;
          nframe = k.committed;
          db_size = k.committed_size;
          end_off = k.committed_end;
        })
  unfolding finish_recover
  finish_log w s seq k slots e = rw (e, ◌>>=◌) refl

  pub recover_step :
      (w v : Wal ops) (fsize : ℕ) (h : List ℕ) (k : Scan)
      → ops.file_size w.file ≡ inr fsize
      → 32 ≤ fsize
      → ops.read w.file 32 0 ≡ inr h
      → adopt_header ops z w h ≡ some v
      → scan ops z (fsize + 1) v fsize (start_scan ops z v.salt1) ≡ some k
      → recover ops z true w ≡ finish_recover ops z true v (some k)
  unfolding recover recover_from
  recover_step w v fsize h k sized enough read adopted scanned =
      let large : ltb fsize 32 ≡ false = ground arith in
      rw (sized, recover)
        (rw large (rw (read, recover) (rw (adopted, recover_from) (rw scanned refl))))
