-- ===== src/Storage/Wal/Format.antt =====
-- The bytes of a log of the first version, as `tdb_wal_append` writes them: frames, each with the first
-- checksum of the one before in its own.
use transaction_db.Base.{
  ℕ, ◌-◌, ◌≡◌, refl, inr, List, [], ◌∷◌, ◌++◌, arith, length, take, drop, append_assoc, append-nil,
  take-append,
}
use transaction_db.Util.BigEndian.{put_u32, get_u32, get_u32-put_u32}
use transaction_db.Util.Checksum.{crc32c}
use transaction_db.Util.Checksum.Laws.{IsU32, crc32c-append}
use transaction_db.Storage.File.{FileOps, read_bytes}
use transaction_db.Storage.Wal.{frame_checksum}
use transaction_db.Storage.Wal.Append.{frame_prefix, frame_header}

-- What a frame records: the page, the size of the database in a commit frame and 0 in another, the image.
pub record Logged : Type 0 where
  pub pgno : ℕ
  pub size : ℕ
  pub page : List ℕ

-- The fields fit, and the image has the size of a page.
abbrev pub IsLogged : ℕ → Logged → Type 0
IsLogged n e = IsU32 e.pgno × IsU32 e.size × (length e.page ≡ n)

-- The salts of a log.
pub record Salts : Type 0 where
  pub salt1 : ℕ
  pub salt2 : ℕ

abbrev pub prefix_of : Salts → Logged → List ℕ
prefix_of s e = frame_prefix e.pgno e.size s.salt1 s.salt2

abbrev pub sums_of : Salts → ℕ → Logged → ℕ × ℕ
sums_of s seed e = frame_checksum seed (prefix_of s e) e.page

abbrev pub header_of : Salts → ℕ → Logged → List ℕ
header_of s seed e = frame_header seed (prefix_of s e) e.page

-- The frames of a log, the first one behind the checksum `seed`.
abbrev pub log_bytes : Salts → ℕ → List Logged → List ℕ
log_bytes s seed [] = []
log_bytes s seed (e ∷ es) = header_of s seed e ++ (e.page ++ log_bytes s (sums_of s seed e).0 es)

abbrev pub last_seed : Salts → ℕ → List Logged → ℕ
last_seed s seed [] = seed
last_seed s seed (e ∷ es) = last_seed s (sums_of s seed e).0 es

pub log_bytes-append :
    (s : Salts) (seed : ℕ) (es fs : List Logged)
    → log_bytes s seed (es ++ fs) ≡ log_bytes s seed es ++ log_bytes s (last_seed s seed es) fs
log_bytes-append s seed [] fs = refl
log_bytes-append s seed (e ∷ es) fs =
    rw (log_bytes-append s (sums_of s seed e).0 es fs) (simp append_assoc refl)

crc32c-IsU32 : (seed : ℕ) (p : List ℕ) → IsU32 (crc32c seed p)
crc32c-IsU32 seed p = (crc32c-append seed [] p).1

sums-IsU32 :
    (seed : ℕ) (p q : List ℕ)
    → IsU32 (frame_checksum seed p q).0 × IsU32 (frame_checksum seed p q).1
unfolding frame_checksum
sums-IsU32 seed p q = (crc32c-IsU32 (crc32c seed p) q, crc32c-IsU32 (crc32c 0 p) q)

-- The header of a frame, read field by field, whatever follows it.
pub record HeaderFields (s : Salts) (seed : ℕ) (e : Logged) (h : List ℕ) : Type 0 where
  pub long : length h ≡ 24
  pub page_field : get_u32 h ≡ e.pgno
  pub size_field : get_u32 (drop 4 h) ≡ e.size
  pub salt1_field : get_u32 (drop 8 h) ≡ s.salt1
  pub salt2_field : get_u32 (drop 12 h) ≡ s.salt2
  pub sum1_field : get_u32 (drop 16 h) ≡ (sums_of s seed e).0
  pub sum2_field : get_u32 (drop 20 h) ≡ (sums_of s seed e).1
  pub summed : take 16 h ≡ prefix_of s e

module _ (s : Salts) (small₁ : IsU32 s.salt1) (small₂ : IsU32 s.salt2) where
  drop_fields :
      (a b c d x y : ℕ)
      → IsU32 a
      → IsU32 b
      → IsU32 c
      → IsU32 d
      → IsU32 x
      → IsU32 y
      → let h =
          (put_u32 a ++ (put_u32 b ++ (put_u32 c ++ put_u32 d))) ++ (put_u32 x ++ put_u32 y) in
        (length h ≡ 24)
        × (get_u32 h ≡ a)
        × (get_u32 (drop 4 h) ≡ b)
        × (get_u32 (drop 8 h) ≡ c)
        × (get_u32 (drop 12 h) ≡ d)
        × (get_u32 (drop 16 h) ≡ x)
        × (get_u32 (drop 20 h) ≡ y)
        × (take 16 h ≡ put_u32 a ++ (put_u32 b ++ (put_u32 c ++ put_u32 d)))
  unfolding put_u32
  drop_fields a b c d x y ha hb hc hd hx hy = (
    refl,
    get_u32-put_u32 a _ ha,
    get_u32-put_u32 b _ hb,
    get_u32-put_u32 c _ hc,
    get_u32-put_u32 d _ hd,
    get_u32-put_u32 x _ hx,
    get_u32-put_u32 y [] hy,
    refl,
  )

  pub header_of-fields :
      (n seed : ℕ) (e : Logged) → IsLogged n e → HeaderFields s seed e (header_of s seed e)
  unfolding frame_header frame_prefix
  header_of-fields n seed e (hp, hs, hl) =
      let sums = sums-IsU32 seed (prefix_of s e) e.page in
      let (a, b, c, d, f, g, h, i) =
        drop_fields e.pgno e.size s.salt1 s.salt2 (sums_of s seed e).0 (sums_of s seed e).1 hp hs
          small₁ small₂ sums.0 sums.1 in
      record {
        long = a;
        page_field = b;
        size_field = c;
        salt1_field = d;
        salt2_field = f;
        sum1_field = g;
        sum2_field = h;
        summed = i;
      }

-- Reading `p` at a place where it stands.
pub read_bytes-there :
    (b p rest : List ℕ) (n off : ℕ) → drop off b ≡ p ++ rest → length p ≡ n → read_bytes b n off ≡ p
unfolding read_bytes
read_bytes-there b p rest n off e h =
    let first : take n (drop off b) ≡ p = rw e (rw (← h) (take-append p rest)) in
    let none_left : n - length p ≡ 0 = omega arith in rw first (rw none_left (append-nil p))

-- What the log needs of its file: reads do not fail and give the bytes of the file, whose number is
-- its size.
pub record IsReadable (ops : FileOps) : Type 0 where
  pub bytes : ops.State → List ℕ
  pub reads : (f : ops.State) (n off : ℕ) → ops.read f n off ≡ inr (read_bytes (bytes f) n off)
  pub sized : (f : ops.State) → ops.file_size f ≡ inr (length (bytes f))
