-- ===== src/Catalog/Acl/Serial/RoundTrip.antt =====
-- The entry that is read is the one that was written.
use transaction_db.Base.{
  ℕ, suc, leb, sym, length-drop, ◌+◌, ◌%◌, ◌^◌, ◌<◌, ◌≤◌, ◌≡◌, refl, ap, ◌∙◌, Bool, true, false,
  Option, none, some, List, [], ◌∷◌, ◌++◌, length, take, drop, arith, ltb, take-append, drop-append,
  drop_add, append_assoc, append-nil, length-append,
}
use transaction_db.Status.{Result}
use transaction_db.Util.Varint.{get_varint, put_varint}
use transaction_db.Util.Varint.Encode.{length-put_varint}
use transaction_db.Util.Varint.RoundTrip.{get_varint-put_varint}
use transaction_db.Util.Buf.{Buf, init, append, putc, buf_put_varint}
use transaction_db.Util.Buf.Write.{Wrote, append-Wrote, putc-Wrote, buf_put_varint-Wrote}
use transaction_db.Catalog.Acl.{Entry, strdup}
use transaction_db.Catalog.Acl.Serial.{
  after, w_str, entry_serialize, done, read_str, read_strs, entry_of, read_entry, entry_deserialize,
}

-- The length of a string with the byte count in front of it, at most.
abbrev pub str_len : Option (List ℕ) → ℕ
str_len none = 10
str_len (some s) = length s + 10

abbrev pub str_bytes : Option (List ℕ) → List ℕ
str_bytes none = put_varint 0
str_bytes (some s) = put_varint (suc (length s)) ++ s

abbrev pub entry_bytes : Entry → List ℕ
entry_bytes e =
    b'G' ∷ e.kind % 256 ∷ (str_bytes e.grantee ++ (str_bytes e.priv ++ str_bytes e.object))

after-Wrote :
    (b : Buf) (p : List ℕ) (r : Result Buf) → Wrote b p r → (after b r).content ≡ b.content ++ p
unfolding after
after-Wrote b p r w = rw w.granted w.content

module _ (alloc : ℕ → Bool) (all_granted : (n : ℕ) → alloc n ≡ true) where
  length-str_bytes : (s : Option (List ℕ)) → str_len s < 2 ^ 31 → length (str_bytes s) ≤ str_len s
  length-str_bytes none h = omega (arith, length-put_varint 0 (omega arith))
  length-str_bytes (some s) h = omega (
    arith,
    length-append (put_varint (suc (length s))) s,
    length-put_varint (suc (length s)) (omega arith),
  )

  w_str-content :
      (b : Buf) (s : Option (List ℕ))
      → str_len s < 2 ^ 31
      → length b.content < 2 ^ 33
      → (w_str alloc b s).content ≡ b.content ++ str_bytes s
  unfolding w_str
  w_str-content b none h fits =
      after-Wrote b _ _ (buf_put_varint-Wrote alloc all_granted b 0 (omega arith) (omega arith))
  w_str-content b (some s) h fits =
      let n : ℕ = suc (length s) in
      let b' : Buf = after b (buf_put_varint alloc b n) in
      let e : b'.content ≡ b.content ++ put_varint n =
        after-Wrote b _ _
          (buf_put_varint-Wrote alloc all_granted b n (omega arith) (omega arith)) in
      let grown : length b'.content ≡ length b.content + length (put_varint n) =
        rw e (length-append b.content (put_varint n)) in
      after-Wrote b' _ _ (
        append-Wrote alloc all_granted b' s
          (omega (arith, grown, length-put_varint n (omega arith))))
      ∙ rw e (append_assoc b.content (put_varint n) s)

  read_str-none :
      (p : List ℕ) (pos a : ℕ)
      → get_varint (drop pos p) ≡ some (0, a)
      → read_str alloc p pos ≡ done (none, some (pos + a))
  unfolding read_str
  read_str-none p pos a e = rw (e, read_str) refl

  read_str-some :
      (p : List ℕ) (pos l a : ℕ)
      → get_varint (drop pos p) ≡ some (suc l, a)
      → pos + a + l < 2 ^ 31
      → pos + a + l ≤ length p
      → read_str alloc p pos ≡ done (some (take l (drop (pos + a) p)), some (pos + a + l))
  unfolding read_str
  read_str-some p pos l a e small there =
      let narrow : l % 2 ^ 32 ≡ l = omega arith in
      let positive : leb (2 ^ 31) l ≡ false = ground arith in
      let inside : leb (2 ^ 31) (pos + a + l) ≡ false = ground arith in
      let enough : ltb (length p) (pos + a + l) ≡ false = ground arith in
      let copied : strdup (alloc (l + 1)) (take l (drop (pos + a) p))
          ≡ some (take l (drop (pos + a) p)) =
        unfold strdup in ground (arith, all_granted (l + 1)) in
      rw (e, read_str) (rw (narrow, positive, inside, enough) (rw copied refl))

  read_str_lem :
      (s : Option (List ℕ)) (p : List ℕ) (pos : ℕ) (rest : List ℕ)
      → drop pos p ≡ str_bytes s ++ rest
      → pos + str_len s < 2 ^ 31
      → read_str alloc p pos ≡ done (s, some (pos + length (str_bytes s)))
  read_str_lem none p pos rest e h =
      read_str-none p pos (length (put_varint 0))
        (rw e (get_varint-put_varint 0 rest (omega arith)))
  read_str_lem (some s) p pos rest e h =
      let n : ℕ = suc (length s) in
      let w : List ℕ = put_varint n in
      let whole : drop pos p ≡ w ++ (s ++ rest) = e ∙ append_assoc w s rest in
      let behind : drop (pos + length w) p ≡ s ++ rest =
        drop_add pos (length w) p ∙ ap (drop (length w)) whole ∙ drop-append w (s ++ rest) in
      let lw = length-put_varint n (omega arith) in
      let size : length (drop pos p) ≡ length w + (length s + length rest) =
        rw whole (omega (arith, length-append w (s ++ rest), length-append s rest)) in
      let read =
        read_str-some p pos (length s) (length w)
          (rw whole (get_varint-put_varint n (s ++ rest) (omega arith))) (omega (arith, lw))
          (omega (arith, size, length-drop pos p, lw)) in
      let place : pos + length w + length s ≡ pos + length (w ++ s) =
        omega (arith, length-append w s) in
      read ∙ rw (behind, take-append s rest, place) refl

  read_strs-read :
      (p : List ℕ) (k pos : ℕ) (s : Option (List ℕ)) (pos' : Option ℕ) (ss : List (Option (List ℕ)))
      → pos < length p
      → read_str alloc p pos ≡ done (s, pos')
      → read_strs alloc p k pos' ≡ done ss
      → read_strs alloc p (suc k) (some pos) ≡ done (s ∷ ss)
  unfolding read_strs
  read_strs-read p k pos s pos' ss h e e' =
      let more : leb (length p) pos ≡ false = ground arith in
      rw (more, read_strs) (rw (e, read_strs) (rw (e', read_strs) refl))

  some_byte :
      (s : Option (List ℕ)) (rest : List ℕ) → str_len s < 2 ^ 31 → 1 ≤ length (str_bytes s ++ rest)
  some_byte none rest h =
      omega (arith, length-append (put_varint 0) rest, length-put_varint 0 (omega arith))
  some_byte (some s) rest h = omega (
    arith,
    length-append (put_varint (suc (length s)) ++ s) rest,
    length-append (put_varint (suc (length s))) s,
    length-put_varint (suc (length s)) (omega arith),
  )

  -- One string read of those that were written, the others behind it.
  read_one :
      (p : List ℕ) (k pos : ℕ) (s : Option (List ℕ)) (rest : List ℕ) (ss : List (Option (List ℕ)))
      → drop pos p ≡ str_bytes s ++ rest
      → pos + str_len s < 2 ^ 31
      → read_strs alloc p k (some (pos + length (str_bytes s))) ≡ done ss
      → read_strs alloc p (suc k) (some pos) ≡ done (s ∷ ss)
  read_one p k pos s rest ss here h e =
      let more : 1 ≤ length (drop pos p) = rw here (some_byte s rest (omega arith)) in
      read_strs-read p k pos s _ ss (omega (arith, more, length-drop pos p))
        (read_str_lem s p pos rest here h) e

  read_three :
      (p : List ℕ) (g q o : Option (List ℕ))
      → drop 2 p ≡ str_bytes g ++ (str_bytes q ++ str_bytes o)
      → str_len g + str_len q + str_len o + 2 < 2 ^ 31
      → read_strs alloc p 3 (some 2) ≡ done (g ∷ q ∷ o ∷ [])
  unfolding read_strs
  read_three p g q o here h =
      let lg = length-str_bytes g (omega arith) in
      let lq = length-str_bytes q (omega arith) in
      let pos₂ : ℕ = 2 + length (str_bytes g) in
      let pos₃ : ℕ = pos₂ + length (str_bytes q) in
      let second : drop pos₂ p ≡ str_bytes q ++ str_bytes o =
        drop_add 2 (length (str_bytes g)) p
        ∙ ap (drop (length (str_bytes g))) here
        ∙ drop-append (str_bytes g) (str_bytes q ++ str_bytes o) in
      let third : drop pos₃ p ≡ str_bytes o =
        drop_add pos₂ (length (str_bytes q)) p
        ∙ ap (drop (length (str_bytes q))) second
        ∙ drop-append (str_bytes q) (str_bytes o) in
      read_one p 2 2 g _ _ here (omega arith) (
        read_one p 1 pos₂ q _ _ second (omega (arith, lg)) (
          read_one p 0 pos₃ o [] [] (third ∙ sym (append-nil (str_bytes o))) (omega (arith, lg, lq))
            refl))

  serialize-content :
      (e : Entry) (b : Buf)
      → length b.content + str_len e.grantee + str_len e.priv + str_len e.object + 2 < 2 ^ 31
      → (entry_serialize alloc e b).content ≡ b.content ++ entry_bytes e
  unfolding entry_serialize
  serialize-content e b h =
      let b₁ : Buf = after b (putc alloc b b'G') in
      let e₁ : b₁.content ≡ b.content ++ (b'G' ∷ []) =
        after-Wrote b _ _ (putc-Wrote alloc all_granted b b'G' (omega arith)) in
      let l₁ : length b₁.content ≡ length b.content + 1 =
        rw e₁ (length-append b.content (b'G' ∷ [])) in
      let k : List ℕ = e.kind % 256 ∷ [] in
      let b₂ : Buf = after b₁ (append alloc b₁ k) in
      let e₂ : b₂.content ≡ b₁.content ++ k =
        after-Wrote b₁ _ _ (append-Wrote alloc all_granted b₁ k (omega (arith, l₁))) in
      let l₂ : length b₂.content ≡ length b₁.content + 1 = rw e₂ (length-append b₁.content k) in
      let b₃ : Buf = w_str alloc b₂ e.grantee in
      let e₃ = w_str-content b₂ e.grantee (omega arith) (omega (arith, l₁, l₂)) in
      let l₃ : length b₃.content ≡ length b₂.content + length (str_bytes e.grantee) =
        rw e₃ (length-append b₂.content (str_bytes e.grantee)) in
      let s₃ = length-str_bytes e.grantee (omega arith) in
      let b₄ : Buf = w_str alloc b₃ e.priv in
      let e₄ = w_str-content b₃ e.priv (omega arith) (omega (arith, l₁, l₂, l₃, s₃)) in
      let l₄ : length b₄.content ≡ length b₃.content + length (str_bytes e.priv) =
        rw e₄ (length-append b₃.content (str_bytes e.priv)) in
      let s₄ = length-str_bytes e.priv (omega arith) in
      let e₅ = w_str-content b₄ e.object (omega arith) (omega (arith, l₁, l₂, l₃, l₄, s₃, s₄)) in
      e₅ ∙ rw (e₄, e₃, e₂, e₁) (simp append_assoc refl)

  -- With memory to be had: an entry whose kind is a byte and whose strings are not gigantic is
  -- written into an empty buffer so that `tdb_acl_entry_deserialize` reads the same entry from it,
  -- NULL and empty strings told apart.
  pub entry_deserialize-serialize :
      (e : Entry)
      → e.kind < 256
      → str_len e.grantee + str_len e.priv + str_len e.object + 2 < 2 ^ 31
      → entry_deserialize alloc (entry_serialize alloc e init).content ≡ done e
  unfolding entry_deserialize read_entry entry_of init
  entry_deserialize-serialize e small short =
      let narrow : e.kind % 256 ≡ e.kind = omega arith in
      rw (serialize-content e init (omega arith))
        (rw (read_three (entry_bytes e) e.grantee e.priv e.object refl short) (rw narrow refl))
