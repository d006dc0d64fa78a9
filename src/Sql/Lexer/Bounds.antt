-- ===== src/Sql/Lexer/Bounds.antt =====
-- The loops of the lexer stay inside the source.
use transaction_db.Base.{
  ℕ, zero, suc, ◌+◌, ◌<◌, ◌≤◌, ◌≡◌, refl, ◌⊎◌, inl, inr, Bool, true, false, ◌&&◌, not, some, List,
  [], ◌∷◌, ◌++◌, arith, length, get_or, drop, length-drop, leb, ltb, ◌==◌, Bool-cases,
}
use transaction_db.Base.CString.{is_space}
use transaction_db.Sql.Lexer.{skip_while, run, comment_end, pair_at, skip_trivia}
use transaction_db.Sql.Lexer.Next.{step_over, quote_end, closes, dollar_end, starts_with}

skip_while_lem :
    (p : ℕ → Bool) (s : List ℕ) (pos : ℕ)
    → (pos ≤ skip_while p s pos) × (skip_while p s pos ≤ pos + length s)
unfolding skip_while
skip_while_lem p [] pos = (omega arith, omega arith)
skip_while_lem p (c ∷ cs) pos =
    let h = skip_while_lem p cs (pos + 1) in
    elim (Bool-cases (p c)) [
      | inl e ↦ rw e (omega (arith, h.0), omega (arith, h.1))
      | inr e ↦ rw e (omega arith, omega arith)
    ]

-- A loop inside the source ends inside it.
pub run_lem :
    (p : ℕ → Bool) (z : List ℕ) (pos : ℕ)
    → pos ≤ length z
    → (pos ≤ run p z pos) × (run p z pos ≤ length z)
unfolding run
run_lem p z pos h =
    let (a, b) = skip_while_lem p (drop pos z) pos in (a, omega (arith, b, length-drop pos z))

drop_here : (z : List ℕ) (pos : ℕ) → pos < length z → drop pos z ≡ get_or z pos 0 ∷ drop (pos + 1) z
drop_here [] pos h = absurd (omega arith)
drop_here (c ∷ z) zero h = refl
drop_here (c ∷ z) (suc pos) h =
    let next : suc pos + 1 ≡ suc (pos + 1) = omega arith in rw next (drop_here z pos (omega arith))

pub run_moves :
    (p : ℕ → Bool) (z : List ℕ) (pos : ℕ)
    → pos < length z
    → p (get_or z pos 0) ≡ true
    → (pos < run p z pos) × (run p z pos ≤ length z)
unfolding run skip_while
run_moves p z pos h e =
    let (a, b) = skip_while_lem p (drop (pos + 1) z) (pos + 1) in
    rw (drop_here z pos h) (rw e (omega (arith, a), omega (arith, b, length-drop (pos + 1) z)))

pub run_stays :
    (p : ℕ → Bool) (z : List ℕ) (pos : ℕ)
    → pos < length z
    → p (get_or z pos 0) ≡ false
    → run p z pos ≡ pos
unfolding run skip_while
run_stays p z pos h e = rw (drop_here z pos h) (rw e refl)

comment_end_lem :
    (s : List ℕ) (pos : ℕ) → (pos ≤ comment_end s pos) × (comment_end s pos ≤ pos + length s)
unfolding comment_end
comment_end_lem [] pos = (omega arith, omega arith)
comment_end_lem (a ∷ []) pos = (omega arith, omega arith)
comment_end_lem (a ∷ b ∷ cs) pos =
    let h = comment_end_lem (b ∷ cs) (pos + 1) in
    elim (Bool-cases (a == b'*' && b == b'/')) [
      | inl e ↦ rw e (omega arith, omega arith)
      | inr e ↦ rw e (omega (arith, h.0), omega (arith, h.1))
    ]

pub quote_end_lem :
    (d : ℕ) (s : List ℕ) (pos : ℕ)
    → (pos ≤ quote_end d s pos) × (quote_end d s pos ≤ pos + length s)
unfolding quote_end
quote_end_lem d [] pos = (omega arith, omega arith)
quote_end_lem d (c ∷ []) pos = ground arith
quote_end_lem d (c ∷ e ∷ cs) pos =
    let h = quote_end_lem d cs (pos + 2) in
    let k = quote_end_lem d (e ∷ cs) (pos + 1) in ground arith

pub step_over_lem :
    (z : List ℕ) (pos : ℕ) → pos ≤ length z → (pos ≤ step_over z pos) × (step_over z pos ≤ length z)
unfolding step_over
step_over_lem z pos h = ground arith

get_or-past : (s : List ℕ) (past : ℕ) → get_or (s ++ (past ∷ [])) (length s) 0 ≡ past
get_or-past [] past = refl
get_or-past (c ∷ s) past = get_or-past s past

pub and_true : (a b : Bool) → (a && b) ≡ true → (a ≡ true) × (b ≡ true)
and_true true b h = (refl, h)
and_true false b h = cc

closes_room :
    (past : ℕ) (tag s : List ℕ)
    → (past == b'$') ≡ false
    → closes past tag s ≡ true
    → length tag < length s
unfolding closes
closes_room past tag s h e =
    let (both, dollar) =
      and_true (leb (length tag) (length s) && starts_with tag s)
        (get_or (s ++ (past ∷ [])) (length tag) 0 == b'$') e in
    let (fits, same) = and_true (leb (length tag) (length s)) (starts_with tag s) both in
    elim (Bool-cases (ltb (length tag) (length s))) [
      | inl less ↦ ground arith
      | inr not_less ↦
          let full : length tag ≡ length s = ground arith in
          let there : (past == b'$') ≡ true = rw (full, get_or-past s past) at dollar in cc
    ]

-- With a byte other than a dollar sign behind the source, a dollar quote that ends does so inside it.
pub dollar_end_lem :
    (past : ℕ) (tag s : List ℕ) (pos : ℕ)
    → (past == b'$') ≡ false
    → let end = dollar_end past tag s pos in
      (pos ≤ end) × ((end ≡ pos + length s) ⊎ (end + length tag + 2 ≤ pos + length s))
unfolding dollar_end
dollar_end_lem past tag [] pos h = (omega arith, inl (omega arith))
dollar_end_lem past tag (c ∷ cs) pos h = elim (Bool-cases (c == b'$' && closes past tag cs)) [
  | inl e ↦
      let room = closes_room past tag cs h (and_true (c == b'$') (closes past tag cs) e).1 in
      rw e (omega arith, inr (omega arith))
  | inr e ↦
      let (a, b) = dollar_end_lem past tag cs (pos + 1) h in
      rw e (
        omega (arith, a),
        elim b [
          | inl whole ↦ inl (omega (arith, whole))
          | inr inside ↦ inr (omega (arith, inside))
        ],
      )
]

pair_at_room : (a b : ℕ) (z : List ℕ) (pos : ℕ) → pair_at a b z pos ≡ true → pos + 2 ≤ length z
unfolding pair_at
pair_at_room a b z pos e =
    let (both, second) =
      and_true (ltb (pos + 1) (length z) && get_or z pos 0 == a) (get_or z (pos + 1) 0 == b) e in
    let (fits, first) = and_true (ltb (pos + 1) (length z)) (get_or z pos 0 == a) both in
    ground arith

-- With a round for each byte that is left, and one more, the loop of `skip_trivia` ends, inside the
-- source.
pub skip_trivia_lem :
    (fuel : ℕ) (z : List ℕ) (pos : ℕ)
    → pos ≤ length z
    → length z < pos + fuel
    → (end : ℕ) × (skip_trivia fuel z pos ≡ some end) × (pos ≤ end) × (end ≤ length z)
unfolding skip_trivia
skip_trivia_lem zero z pos h enough = absurd (omega arith)
skip_trivia_lem (suc f) z pos h enough =
    let p : ℕ = run is_space z pos in
    let (a, b) = run_lem is_space z pos h in
    elim (Bool-cases (pair_at b'-' b'-' z p)) [
      | inl line ↦
          let room = pair_at_room b'-' b'-' z p line in
          let (c, d) = run_lem (λ t. not (t == b'\n')) z (p + 2) room in
          let (end, e, lo, hi) =
            skip_trivia_lem f z (run (λ t. not (t == b'\n')) z (p + 2)) d (omega (arith, c, a)) in
          (end, rw line e, omega (arith, lo, c, a), hi)
      | inr no_line ↦ elim (Bool-cases (pair_at b'/' b'*' z p)) [
        | inl block ↦
            let room = pair_at_room b'/' b'*' z p block in
            let (c, d) = comment_end_lem (drop (p + 2) z) (p + 2) in
            let inside : comment_end (drop (p + 2) z) (p + 2) ≤ length z =
              omega (arith, d, length-drop (p + 2) z) in
            let (end, e, lo, hi) =
              skip_trivia_lem f z (comment_end (drop (p + 2) z) (p + 2)) inside
                (omega (arith, c, a)) in
            (end, rw (no_line, block) e, omega (arith, lo, c, a), hi)
        | inr neither ↦ (p, rw (no_line, neither) refl, a, b)
      ]
    ]
