-- ===== src/Storage/Wal/Append/Writes.antt =====
-- What `tdb_wal_append` does to the bytes of a log of the first version.
use transaction_db.Base.{
  ℕ, suc, ◌+◌, ◌-◌, ◌*◌, ◌%◌, ◌^◌, ◌<◌, ◌≤◌, ◌≡◌, refl, sym, ap, subst, ◌∙◌, inr, true, false,
  Option, none, List, [], ◌∷◌, ◌++◌, arith, length, take, drop, set, append_assoc, append-nil,
  take-append, length-append, All, ◌==◌,
}
use transaction_db.Status.{ok}
use transaction_db.Util.BigEndian.{get_u32}
use transaction_db.Util.Checksum.Laws.{IsU32}
use transaction_db.Storage.File.{FileOps, overwrite}
use transaction_db.Storage.Compress.{ZstdOps}
use transaction_db.Storage.Wal.{Wal, frame_offset, frame_stride, map_ensure}
use transaction_db.Storage.Wal.Append.{
  seed_of, committed_size, index_page, index_frame, write_payload, append_off, write_frame,
  wal_append, payload, payload_prefix,
}
use transaction_db.Storage.Wal.Format.{
  Logged, IsLogged, Salts, header_of, sums_of, log_bytes, last_seed, log_bytes-append,
  header_of-fields, read_bytes-there, IsReadable,
}
use transaction_db.Storage.Wal.Recover.Log.{drop-drop}

-- What the log needs of writes to its file: they do not fail and replace the bytes there.
pub record IsWritable (ops : FileOps) (r : IsReadable ops) : Type 0 where
  pub granted : (f : ops.State) (p : List ℕ) (off : ℕ) → (ops.write f p off).0 ≡ none
  pub written :
      (f : ops.State) (p : List ℕ) (off : ℕ)
      → off ≤ length (r.bytes f)
      → r.bytes (ops.write f p off).1 ≡ overwrite (r.bytes f) off p

-- The log `w` with the fields of an open log of `k` frames.
abbrev pub open_log : (ops : FileOps) → Wal ops → Salts → ℕ → ℕ → Wal ops
open_log ops w s seq k = record w {
  version = 1;
  salt1 = s.salt1;
  salt2 = s.salt2;
  ckpt_seq = seq;
  nframe = k;
}

drop_append_more {ℓ} :
    {A : Type ℓ} (n : ℕ) (xs ys : List A) → drop (length xs + n) (xs ++ ys) ≡ drop n ys
drop_append_more n [] ys = let none_more : 0 + n ≡ n = omega arith in rw none_more refl
drop_append_more n (x ∷ xs) ys =
    let next : suc (length xs) + n ≡ suc (length xs + n) = omega arith in
    rw next (drop_append_more n xs ys)

pub overwrite-append :
    (b t p : List ℕ) (off : ℕ)
    → length b ≡ off
    → overwrite (b ++ t) off p ≡ b ++ (p ++ drop (length p) t)
unfolding overwrite
overwrite-append b t p off h =
    let behind : drop (off + length p) (b ++ t) ≡ drop (length p) t =
      rw (← h) (drop_append_more (length p) b t) in
    let before : take off (b ++ t) ≡ b = rw (← h) (take-append b t) in rw (before, behind) refl

last_view {ℓ} :
    {A : Type ℓ} (x : A) (xs : List A) → (ys : List A) × (y : A) × (x ∷ xs ≡ ys ++ (y ∷ []))
last_view x [] = ([], x, refl)
last_view x (y ∷ ys) = let (zs, z, e) = last_view y ys in (x ∷ zs, z, ap (λ t. x ∷ t) e)

All-split {ℓ κ} :
    {A : Type ℓ} (P : A → Type κ) (xs : List A) (y : A) → All P (xs ++ (y ∷ [])) → All P xs × P y
All-split P [] y (h, hs) = (tt, h)
All-split P (x ∷ xs) y (h, hs) = let (a, b) = All-split P xs y hs in ((h, a), b)

pub All-join {ℓ κ} :
    {A : Type ℓ} (P : A → Type κ) (xs : List A) (y : A) → All P xs → P y → All P (xs ++ (y ∷ []))
All-join P [] y hs h = (h, tt)
All-join P (x ∷ xs) y (h, hs) k = (h, All-join P xs y hs k)

pub length-log_bytes_exact :
    (s : Salts) (n seed : ℕ) (es : List Logged)
    → IsU32 s.salt1
    → IsU32 s.salt2
    → All (IsLogged n) es
    → length (log_bytes s seed es) ≡ length es * (24 + n)
length-log_bytes_exact s n seed [] u₁ u₂ hs = omega arith
length-log_bytes_exact s n seed (e ∷ es) u₁ u₂ (he, hs) =
    let rest : List ℕ = log_bytes s (sums_of s seed e).0 es in
    omega (
      arith,
      (header_of-fields s u₁ u₂ n seed e he).long,
      length-append (header_of s seed e) (e.page ++ rest),
      length-append e.page rest,
      length-log_bytes_exact s n (sums_of s seed e).0 es u₁ u₂ hs,
      he.2,
    )

last_seed-append :
    (s : Salts) (seed : ℕ) (es : List Logged) (e : Logged)
    → last_seed s seed (es ++ (e ∷ [])) ≡ (sums_of s (last_seed s seed es) e).0
last_seed-append s seed [] e = refl
last_seed-append s seed (f ∷ es) e = last_seed-append s (sums_of s seed f).0 es e

module _ (ops : FileOps) (z : Option ZstdOps) (w : Wal ops) (s : Salts) (seq k : ℕ) where
  pub wal_append_step :
      (pgno : ℕ) (page slots : List ℕ) (commit : Option ℕ) (seed : ℕ)
      → seed_of ops z true (open_log ops w s seq k) ≡ inr seed
      → ((f : ops.State) (p : List ℕ) (at : ℕ) → (ops.write f p at).0 ≡ none)
      → map_ensure true w.slots pgno ≡ ok slots
      → let off : ℕ = frame_offset ops (open_log ops w s seq k) k in
        let e : Logged = record { pgno = pgno; size = committed_size 0 commit; page = page } in
        let off : ℕ = frame_offset ops (open_log ops w s seq k) k in
        let f₁ : ops.State = (ops.write w.file (header_of s seed e) off).1 in
        let f₂ : ops.State = (ops.write f₁ page (off + 24 + 0)).1 in
        wal_append ops z true (open_log ops w s seq k) pgno page commit
        ≡ ok (
          none,
          record (open_log ops w s seq (k + 1)) {
            file = f₂;
            end_off = off + 24 + 0 + length page;
            slots = set slots pgno (k + 1);
            db_size = committed_size w.db_size commit;
          },
        )
  unfolding wal_append write_frame write_payload index_frame index_page append_off payload
      payload_prefix
  wal_append_step pgno page slots commit seed e granted ensured =
      let l : Logged = record { pgno = pgno; size = committed_size 0 commit; page = page } in
      let off : ℕ = frame_offset ops (open_log ops w s seq k) k in
      let f₁ : ops.State = (ops.write w.file (header_of s seed l) off).1 in
      rw (e, wal_append)
        (rw (granted w.file (header_of s seed l) off, write_frame)
          (rw (granted f₁ page (off + 24 + 0), write_payload) (rw (ensured, index_page) refl)))

module _ (ops : FileOps) (z : Option ZstdOps) (r : IsReadable ops) (w : Wal ops) (s : Salts)
    (seq : ℕ) (u₁ : IsU32 s.salt1) (u₂ : IsU32 s.salt2) (small : w.page_size < 2 ^ 31) where
  pub offset_open :
      (i k : ℕ) → frame_offset ops (open_log ops w s seq k) i ≡ 32 + i * (24 + w.page_size)
  unfolding frame_offset frame_stride
  offset_open i k =
      let whole : (24 + w.page_size) % 2 ^ 32 ≡ 24 + w.page_size = omega arith in
      ap (λ t. 32 + i * t) whole

  seed_step :
      (k : ℕ) (h : List ℕ)
      → ops.read w.file 24 (32 + k * (24 + w.page_size)) ≡ inr h
      → seed_of ops z true (open_log ops w s seq (k + 1)) ≡ inr (get_u32 (drop 16 h))
  unfolding seed_of
  seed_step k h e =
      let some_frame : (k + 1 == 0) ≡ false = ground arith in
      let before : k + 1 - 1 ≡ k = omega arith in
      rw some_frame (rw before (rw (offset_open k (k + 1)) (rw e refl)))

  -- The last frame of a log, and what is behind it.
  last_there :
      (ys : List Logged) (y : Logged) (tail : List ℕ)
      → All (IsLogged w.page_size) ys
      → drop 32 (r.bytes w.file) ≡ log_bytes s s.salt1 (ys ++ (y ∷ [])) ++ tail
      → drop (32 + length ys * (24 + w.page_size)) (r.bytes w.file)
        ≡ header_of s (last_seed s s.salt1 ys) y ++ (y.page ++ tail)
  last_there ys y tail hs there =
      let rest : List ℕ = header_of s (last_seed s s.salt1 ys) y ++ (y.page ++ tail) in
      let split : drop 32 (r.bytes w.file) ≡ log_bytes s s.salt1 ys ++ rest =
        there
        ∙ rw (log_bytes-append s s.salt1 ys (y ∷ [])) (simp (append_assoc, append-nil) refl) in
      drop-drop 32 (length ys * (24 + w.page_size)) (log_bytes s s.salt1 ys) rest
        (length-log_bytes_exact s w.page_size s.salt1 ys u₁ u₂ hs) (r.bytes w.file) split

  seed_of-last :
      (ys : List Logged) (y : Logged) (tail : List ℕ)
      → All (IsLogged w.page_size) (ys ++ (y ∷ []))
      → drop 32 (r.bytes w.file) ≡ log_bytes s s.salt1 (ys ++ (y ∷ [])) ++ tail
      → seed_of ops z true (open_log ops w s seq (length (ys ++ (y ∷ []))))
        ≡ inr (last_seed s s.salt1 (ys ++ (y ∷ [])))
  seed_of-last ys y tail hs there =
      let (hys, hy) = All-split (IsLogged w.page_size) ys y hs in
      let seed : ℕ = last_seed s s.salt1 ys in
      let hf = header_of-fields s u₁ u₂ w.page_size seed y hy in
      let off : ℕ = 32 + length ys * (24 + w.page_size) in
      let read : ops.read w.file 24 off ≡ inr (header_of s seed y) =
        r.reads w.file 24 off
        ∙ ap inr (
            read_bytes-there (r.bytes w.file) (header_of s seed y) _ 24 off
              (last_there ys y tail hys there) hf.long) in
      let count : length (ys ++ (y ∷ [])) ≡ length ys + 1 =
        omega (arith, length-append ys (y ∷ [])) in
      rw (count, last_seed-append s s.salt1 ys y)
        (seed_step (length ys) (header_of s seed y) read ∙ ap inr hf.sum1_field)

  -- The checksum that the next frame takes up.
  pub seed_of-log_bytes :
      (es : List Logged) (tail : List ℕ)
      → All (IsLogged w.page_size) es
      → drop 32 (r.bytes w.file) ≡ log_bytes s s.salt1 es ++ tail
      → seed_of ops z true (open_log ops w s seq (length es)) ≡ inr (last_seed s s.salt1 es)
  unfolding seed_of
  seed_of-log_bytes [] tail hs there = refl
  seed_of-log_bytes (x ∷ xs) tail hs there =
      let (ys, y, e) = last_view x xs in
      let whole : All (IsLogged w.page_size) (ys ++ (y ∷ [])) =
        subst (λ t. All (IsLogged w.page_size) t) e hs in
      let content : drop 32 (r.bytes w.file) ≡ log_bytes s s.salt1 (ys ++ (y ∷ [])) ++ tail =
        there ∙ ap (λ t. log_bytes s s.salt1 t ++ tail) e in
      subst
        (λ t. seed_of ops z true (open_log ops w s seq (length t)) ≡ inr (last_seed s s.salt1 t))
        (sym e) (seed_of-last ys y tail whole content)
