-- ===== src/Storage/Wal/Slots.antt =====
-- The array of `map_ensure`: it grows so that a page has its place, and keeps what it has.
use transaction_db.Base.{
  ℕ, zero, suc, ◌+◌, ◌-◌, ◌*◌, ◌%◌, ◌^◌, ◌<◌, ◌≤◌, ◌≡◌, refl, ap, ◌∙◌, true, inl, inr, some, List,
  [], ◌∷◌, ◌++◌, arith, length, get_or, set, replicate, leb, ltb, ◌==◌, if◌then◌else◌, Bool-cases,
  length-append, length-replicate,
}
use transaction_db.Status.{ok}
use transaction_db.Storage.Wal.{slot_cap, extend_slots, map_ensure}

pow_suc : (f : ℕ) → 2 ^ suc f ≡ 2 * 2 ^ f
pow_suc f = omega arith

slot_cap_step :
    (f cap pgno : ℕ)
    → cap ≤ pgno
    → pgno < 2 ^ 31
    → slot_cap (suc f) cap pgno ≡ slot_cap f (cap * 2) pgno
unfolding slot_cap
slot_cap_step f cap pgno le small =
    let more : leb cap pgno ≡ true = ground arith in
    let wide : cap * 2 % 2 ^ 32 ≡ cap * 2 = omega arith in rw (more, wide)

slot_cap_ends :
    (f cap pgno : ℕ)
    → 0 < cap
    → pgno < 2 ^ 31
    → pgno < cap * 2 ^ f
    → (c : ℕ) × (slot_cap (suc f) cap pgno ≡ some c) × (pgno < c)
unfolding slot_cap
slot_cap_ends zero cap pgno h small hf = (cap, ground arith, omega arith)
slot_cap_ends (suc f) cap pgno h small hf = elim (Bool-cases (leb cap pgno)) [
  | inl more ↦
      let le : cap ≤ pgno = ground arith in
      let (c, e, lt) =
        slot_cap_ends f (cap * 2) pgno (omega arith) small
          (omega (arith, ap (λ (t : ℕ). cap * t) (pow_suc f))) in
      (c, slot_cap_step (suc f) cap pgno le small ∙ e, lt)
  | inr done ↦ (cap, rw done refl, ground arith)
]

get_or-append_zeros : (xs : List ℕ) (n p : ℕ) → get_or (xs ++ replicate n 0) p 0 ≡ get_or xs p 0
get_or-append_zeros [] zero p = refl
get_or-append_zeros [] (suc n) zero = refl
get_or-append_zeros [] (suc n) (suc p) = get_or-append_zeros [] n p
get_or-append_zeros (x ∷ xs) n zero = refl
get_or-append_zeros (x ∷ xs) n (suc p) = get_or-append_zeros xs n p

pub get_or-zeros : (n p : ℕ) → get_or {A = ℕ} (replicate n 0) p 0 ≡ 0
get_or-zeros zero p = refl
get_or-zeros (suc n) zero = refl
get_or-zeros (suc n) (suc p) = get_or-zeros n p

-- A write to the array, seen at each place.
pub get_or-set :
    (xs : List ℕ) (i v p : ℕ)
    → i < length xs
    → get_or (set xs i v) p 0 ≡ (if i == p then v else get_or xs p 0)
get_or-set [] i v p h = absurd (omega arith)
get_or-set (x ∷ xs) zero v zero h = refl
get_or-set (x ∷ xs) zero v (suc p) h = ground arith
get_or-set (x ∷ xs) (suc i) v zero h = ground arith
get_or-set (x ∷ xs) (suc i) v (suc p) h = ground (arith, get_or-set xs i v p (omega arith))

-- With memory to be had and a page below 2 ^ 31, the array has a place for the page, and no slot
-- changes.
pub map_ensure_lem :
    (slots : List ℕ) (pgno : ℕ)
    → pgno < 2 ^ 31
    → (slots' : List ℕ) × (map_ensure true slots pgno ≡ ok slots')
      × (pgno < length slots')
      × ((p : ℕ) → get_or slots' p 0 ≡ get_or slots p 0)
unfolding map_ensure extend_slots
map_ensure_lem slots pgno small = elim (Bool-cases (ltb pgno (length slots))) [
  | inl there ↦ (slots, rw there refl, ground arith, λ p. refl)
  | inr absent ↦
      let start : ℕ = if length slots == 0 then 64 else length slots in
      let positive : 0 < start = ground arith in
      let (c, e, lt) = slot_cap_ends 33 start pgno positive small (omega arith) in
      let long : length (slots ++ replicate (c - length slots) 0)
          ≡ length slots + (c - length slots) =
        omega (
          arith,
          length-append slots (replicate (c - length slots) 0),
          length-replicate {A = ℕ} (c - length slots) 0,
        ) in
      (
        slots ++ replicate (c - length slots) 0,
        rw absent (rw e refl),
        omega arith,
        get_or-append_zeros slots (c - length slots),
      )
]
