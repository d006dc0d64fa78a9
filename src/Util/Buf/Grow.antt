-- ===== src/Util/Buf/Grow.antt =====
-- `tdb_buf_reserve`: what it grants, and that it ends.
use transaction_db.Base.{
  ℕ, zero, suc, ◌+◌, ◌*◌, ◌%◌, ◌^◌, ◌≤◌, ◌<◌, ◌≡◌, refl, Bool, true, Option, none, some, arith,
  length, leb, ltb, if◌then◌else◌, Bool-cases, inl, inr, ap, ◌∙◌, ltb→lt, lt→ltb, ◌==◌,
}
use transaction_db.Status.{ok}
use transaction_db.Util.Buf.{Buf, size_mod, grow_loop, grow_fuel, finish_reserve, reserve}

grow_loop_step :
    (f cap want : ℕ)
    → cap < want
    → want ≤ 2 ^ 63
    → grow_loop (suc f) cap want ≡ grow_loop f (cap * 2) want
unfolding grow_loop
grow_loop_step f cap want h hw =
    let small : cap * 2 % size_mod ≡ cap * 2 = omega arith in rw (lt→ltb cap want h, small)

pow_suc : (f : ℕ) → 2 ^ suc f ≡ 2 * 2 ^ f
pow_suc f = omega arith

-- The loop stops at a capacity that is large enough, and it stops within its fuel.
grow_loop_ends :
    (f cap want : ℕ)
    → 0 < cap
    → want ≤ 2 ^ 63
    → want ≤ cap * 2 ^ f
    → (r : ℕ) × (grow_loop (suc f) cap want ≡ some r) × (want ≤ r)
unfolding grow_loop
grow_loop_ends zero cap want h hw hf = (cap, ground arith, omega arith)
grow_loop_ends (suc f) cap want h hw hf = elim (Bool-cases (ltb cap want)) [
  | inl more ↦
      let (r, e, le) =
        grow_loop_ends f (cap * 2) want (omega arith) hw
          (omega (arith, ap (λ (t : ℕ). cap * t) (pow_suc f))) in
      (r, grow_loop_step (suc f) cap want (ltb→lt cap want more) hw ∙ e, le)
  | inr done ↦ (cap, rw done, ground arith)
]

-- Whatever the loop returns is large enough.
grow_loop_enough : (f cap want r : ℕ) → grow_loop f cap want ≡ some r → want ≤ r
unfolding grow_loop
grow_loop_enough zero cap want r e = cc
grow_loop_enough (suc f) cap want r e =
    ground (arith, grow_loop_enough f (cap * 2 % size_mod) want r)

finish_reserve_ok :
    (alloc : ℕ → Bool) (b : Buf) (o : Option ℕ) {b' : Buf}
    → finish_reserve alloc b o ≡ ok b'
    → (cap : ℕ) × (o ≡ some cap) × (b' ≡ record b { cap = cap })
unfolding finish_reserve
finish_reserve_ok alloc b none e = cc
finish_reserve_ok alloc b (some cap) e = (cap, refl, ground arith)

-- A granted reservation keeps the bytes and leaves room for `need` more.
pub reserve_ok :
    (alloc : ℕ → Bool) (b : Buf) (need : ℕ) {b' : Buf}
    → length b.content + need < size_mod
    → reserve alloc b need ≡ ok b'
    → (b'.content ≡ b.content) × (length b.content + need ≤ b'.cap)
unfolding reserve
reserve_ok alloc b need {b'} fits e =
    let want : ℕ = (length b.content + need) % size_mod in
    let start : ℕ = if b.cap == 0 then 64 else b.cap in
    elim (Bool-cases (leb want b.cap)) [
      | inl room ↦ ground arith
      | inr full ↦
          let grown : finish_reserve alloc b (grow_loop grow_fuel start want) ≡ ok b' =
            rw full at e in
          let (cap, found, same) =
            finish_reserve_ok alloc b (grow_loop grow_fuel start want) grown in
          let enough : want ≤ cap = grow_loop_enough grow_fuel start want cap found in
          rw same (refl, omega arith)
    ]

-- With memory to be had, a reservation that stays below 2 ^ 63 bytes is granted: the loop ends.
pub reserve_total :
    (alloc : ℕ → Bool) (b : Buf) (need : ℕ)
    → ((n : ℕ) → alloc n ≡ true)
    → length b.content + need ≤ 2 ^ 63
    → (b' : Buf) × (reserve alloc b need ≡ ok b')
unfolding reserve finish_reserve
reserve_total alloc b need granted fits =
    let want : ℕ = (length b.content + need) % size_mod in
    let start : ℕ = if b.cap == 0 then 64 else b.cap in
    elim (Bool-cases (leb want b.cap)) [
      | inl room ↦ (b, rw room)
      | inr full ↦
          let (cap, found, enough) =
            grow_loop_ends 64 start want (ground arith) (omega arith) (ground arith) in
          (record b { cap = cap }, rw (full, found, granted))
    ]
