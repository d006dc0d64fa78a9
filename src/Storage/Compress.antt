-- ===== src/Storage/Compress.antt =====
-- storage/tdb_compress.c: the codec of page images. Zstandard is a library that the code calls: it is
-- the record `ZstdOps`, given in the builds that have it. A buffer that is not NULL is not modelled.
use transaction_db.Base.{ℕ, ◌⊎◌, inl, inr, Option, none, some, List, length, ltb, if◌then◌else◌}
use transaction_db.Status.{Failure, error, nomem}

-- `ZSTD_compressBound`, `ZSTD_compress` and `ZSTD_decompress` on a capacity; `none` where
-- `ZSTD_isError` holds.
pub record ZstdOps : Type 0 where
  pub compress_bound : ℕ → ℕ
  pub zstd_compress : ℕ → List ℕ → Option (List ℕ)
  pub zstd_decompress : ℕ → List ℕ → Option (List ℕ)

unfoldable pub compress_codec : Option ZstdOps → ℕ
compress_codec none = 0
compress_codec (some z) = 1

unfoldable pub bound_of : Option ZstdOps → ℕ → ℕ
bound_of none n = n
bound_of (some z) n = z.compress_bound n

unfoldable pub or_error : Option (List ℕ) → Failure ⊎ List ℕ
or_error none = inl error
or_error (some p) = inr p

-- The codec that copies.
unfoldable pub copy_within : ℕ → List ℕ → Failure ⊎ List ℕ
copy_within cap p = if ltb cap (length p) then inl nomem else inr p

unfoldable pub compress : Option ZstdOps → ℕ → List ℕ → Failure ⊎ List ℕ
compress none cap p = copy_within cap p
compress (some z) cap p = or_error (z.zstd_compress cap p)

unfoldable pub decompress : Option ZstdOps → ℕ → List ℕ → Failure ⊎ List ℕ
decompress none cap p = copy_within cap p
decompress (some z) cap p = or_error (z.zstd_decompress cap p)
