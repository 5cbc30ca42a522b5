-- ===== src/PathStore/Ranges.antt =====
-- The ranges of files that a worker of `getWorkerSublistShared` gets.
use native.Mathlib.Nat.{mul-le-mul_left, mul-le-mul_right, mod-lt}
use native.Mathlib.Omega.{div_any}
use elbencho.Prelude.{
  ℕ, zero, suc, ◌+◌, ◌-◌, ◌*◌, ◌/◌, ◌%◌, ◌^◌, ◌≤◌, ◌<◌, ◌≡◌, ◌∙◌, ap, sym, subst, refl, arith, Bool,
  true, false, ◌&&◌, List, [], ◌∷◌, ◌++◌, ltb, leb, ltb→lt, ltb→le, leb→le, leb→gt, lt→ltb, le→ltb,
  ◌==◌, ==_iff, if◌then◌else◌, min, max, Bool-cases, inl, inr, add64, add64-eq, sub64, sub64-eq,
  mul64, mul64-eq, ok, throws, ok-injective, Error,
}
use elbencho.PathStore.{
  PathStoreElem, PathStore, num_file_blocks, push, slice, range_in_file, range_len_in_file,
  assign_ranges,
}

-- The files of a list one after another, as blocks numbered from `current` on: the bytes of each
-- file in the blocks from `start` to `end`.
abbrev pub cut : ℕ → ℕ → ℕ → ℕ → List PathStoreElem → List PathStoreElem
cut bs start end current [] = []
cut bs start end current (e ∷ es) =
    let blocks = num_file_blocks e.total_len bs in
    let from = max start current in
    let to = min end (current + blocks) in
    let rest = cut bs start end (current + blocks) es in
    if ltb from to
    then slice e ((from - current) * bs)
        (min e.total_len ((to - current) * bs) - (from - current) * bs)
      ∷ rest
    else rest

pub cut_none :
    (bs start end current : ℕ) (es : List PathStoreElem)
    → end ≤ max start current
    → cut bs start end current es ≡ []
cut_none bs start end current [] h = refl
cut_none bs start end current (e ∷ es) h =
    let blocks = num_file_blocks e.total_len bs in
    let no : ltb (max start current) (min end (current + blocks)) ≡ false =
      le→ltb _ _ (omega arith) in
    rw no (cut_none bs start end (current + blocks) es (omega arith))

pub record IsCeil (size bs blocks : ℕ) : Type 0 where
  pub some_block : 0 < blocks
  pub enough : size ≤ blocks * bs
  pub last_used : (blocks - 1) * bs < size
  pub small : blocks ≤ size

whole_blocks : (size bs q : ℕ) → 0 < bs → 0 < size → bs * q ≡ size → IsCeil size bs q
whole_blocks size bs zero p h e = absurd (omega (arith, e))
whole_blocks size bs (suc q) p h e =
    let one : suc q - 1 ≡ q = omega arith in
    let le : suc q * 1 ≤ suc q * bs = mul-le-mul_left (suc q) p in
    record {
      some_block = omega arith;
      enough = omega (arith, e);
      last_used = rw one (omega (arith, e));
      small = omega (arith, e, le);
    }

part_block :
    (size bs q r : ℕ) → 0 < bs → 0 < r → r < bs → bs * q + r ≡ size → IsCeil size bs (q + 1)
part_block size bs q r p pos lt e =
    let one : q + 1 - 1 ≡ q = omega arith in
    let le : q * 1 ≤ q * bs = mul-le-mul_left q p in
    record {
      some_block = omega arith;
      enough = omega (arith, e);
      last_used = rw one (omega (arith, e));
      small = omega (arith, e, le);
    }

-- A file has as many blocks as its size needs.
pub num_file_blocks-IsCeil :
    (size bs : ℕ) → 0 < bs → 0 < size → IsCeil size bs (num_file_blocks size bs)
unfolding num_file_blocks
num_file_blocks-IsCeil size bs p q =
    let f = div_any size bs in
    let m = mod-lt size p in
    elim (Bool-cases (size % bs == 0)) [
      | inl even ↦
          let z : size % bs ≡ 0 = (==_iff _ _).0 even in
          let e : size / bs + 0 ≡ size / bs = omega arith in
          rw (even, e) (whole_blocks size bs (size / bs) p q (omega (arith, f, z)))
      | inr odd ↦
          let pos : 0 < size % bs = ground arith in
          rw odd (part_block size bs (size / bs) (size % bs) p pos m f)
    ]

same_pair : {a b c d : ℕ} → a ≡ c → b ≡ d → ◌≡◌ {A = ℕ × ℕ} (a, b) (c, d)
same_pair {b = b} {c = c} p q = ap (λ x. (x, b)) p ∙ ap (λ y. (c, y)) q

-- The range of a file that holds some of the worker's blocks: `current` to `current + blocks` are the
-- file's, `from` to `end` the worker's that are left.
module _ (bs start end current blocks size : ℕ) (pos : 0 < bs) (ceil : IsCeil size bs blocks)
    (word : current + size < 2 ^ 62) (end_word : end < 2 ^ 62) (meets : start < current + blocks)
    (throw : Bool) where
  abbrev from : ℕ
  from = max start current

  from_bytes : (from - current) * bs < size
  from_bytes =
      let le : (max start current - current) * bs ≤ (blocks - 1) * bs =
        mul-le-mul_right bs (omega (arith, ceil.some_block)) in
      omega (arith, le, ceil.last_used)

  range_in_file-eq :
      range_in_file bs start end throw current blocks
      ≡ ((from - current) * bs, current + blocks - from)
  unfolding range_in_file
  range_in_file-eq = elim (Bool-cases (leb start current)) [
    | inl le ↦
        let h = leb→le start current le in
        let none : max start current - current ≡ 0 = omega arith in
        let all : current + blocks - max start current ≡ blocks = omega arith in
        rw (le, none, all) (same_pair (omega arith) refl)
    | inr gt ↦
        let h = leb→gt start current gt in
        let m : max start current ≡ start = omega arith in
        let bytes : (start - current) * bs < size =
          subst (λ x. (x - current) * bs < size) m from_bytes in
        let few = ceil.small in
        let a : sub64 start current ≡ start - current =
          sub64-eq start current (omega arith) (omega arith) in
        let b : mul64 (start - current) bs ≡ (start - current) * bs =
          mul64-eq (start - current) bs (omega arith) in
        let c : sub64 blocks (start - current) ≡ blocks - (start - current) =
          sub64-eq blocks (start - current) (omega arith) (omega arith) in
        rw (gt, a, b, c, m) (same_pair refl (omega arith))
  ]

  range_len_in_file-eq :
      from < end
      → range_len_in_file bs start end throw size
          ((from - current) * bs, current + blocks - from)
          (end - from)
        ≡ (
          min size ((min end (current + blocks) - current) * bs) - (from - current) * bs,
          end - max start (current + blocks),
        )
  unfolding range_len_in_file
  range_len_in_file-eq more =
      elim (Bool-cases (ltb (end - max start current) (current + blocks - max start current))) [
        | inl part ↦
            let h = ltb→lt _ _ part in
            let upto : min end (current + blocks) ≡ end = omega arith in
            let le : (end - current) * bs ≤ (blocks - 1) * bs = mul-le-mul_right bs (omega arith) in
            let used = ceil.last_used in
            let split : end - current ≡ (max start current - current) + (end - max start current) =
              omega arith in
            let sum : (end - current) * bs
                ≡ (max start current - current) * bs + (end - max start current) * bs =
              subst
                (λ x. x * bs ≡ (max start current - current) * bs + (end - max start current) * bs)
                (sym split) (omega arith) in
            let len : mul64 (end - max start current) bs ≡ (end - max start current) * bs =
              mul64-eq (end - max start current) bs (omega (arith, sum, le, used)) in
            rw (part, len, upto) (same_pair (omega (arith, sum, le, used)) (omega arith))
        | inr whole ↦
            let h = ltb→le _ _ whole in
            let few = ceil.small in
            let fits = ceil.enough in
            let upto : min end (current + blocks) - current ≡ blocks = omega arith in
            let len : sub64 size ((max start current - current) * bs)
                ≡ size - (max start current - current) * bs =
              sub64-eq size ((max start current - current) * bs) (omega (arith, from_bytes))
                (omega arith) in
            let rest : sub64 (end - max start current) (current + blocks - max start current)
                ≡ (end - max start current) - (current + blocks - max start current) =
              sub64-eq (end - max start current) (current + blocks - max start current) h
                (omega arith) in
            rw (whole, len, rest, upto) (same_pair (omega arith) (omega arith))
      ]

-- All sizes and block numbers stay below 2^62.
abbrev pub AreSmall : ℕ → ℕ → List PathStoreElem → Type 0
AreSmall bs current [] = Unit {0}
AreSmall bs current (e ∷ es) =
    (current + e.total_len < 2 ^ 62) × AreSmall bs (current + num_file_blocks e.total_len bs) es

append_one :
    {A : Type 0} (xs : List A) (x : A) (ys : List A) → (xs ++ (x ∷ [])) ++ ys ≡ xs ++ (x ∷ ys)
append_one [] x ys = refl
append_one (y ∷ xs) x ys = ap (λ zs. y ∷ zs) (append_one xs x ys)

pub append_nil : {A : Type 0} (xs : List A) → xs ≡ xs ++ []
append_nil [] = refl
append_nil (x ∷ xs) = ap (λ ys. x ∷ ys) (append_nil xs)

module _ (bs start end : ℕ) (throw : Bool) (pos : 0 < bs) (end_word : end < 2 ^ 62)
    (some_left : start < end) where
  pub assign_ranges-cut :
      (current : ℕ) (es : List PathStoreElem) (out out' : PathStore)
      → AreSmall bs current es
      → assign_ranges bs start end throw current (end - max start current) es out ≡ ok out'
      → out'.paths ≡ out.paths ++ cut bs start end current es
  unfolding assign_ranges push
  assign_ranges-cut current [] out out' small h =
      let e = ok-injective h in sym (ap (λ (s : PathStore). s.paths) e) ∙ append_nil out.paths
  assign_ranges-cut current (e ∷ es) out out' small h = elim (Bool-cases (leb end current)) [
    | inl over ↦
        let le = leb→le end current over in
        let same : ok out ≡ ok out' = rw over at h in
        rw (cut_none bs start end current (e ∷ es) (omega arith))
          (sym (ap (λ (s : PathStore). s.paths) (ok-injective same)) ∙ append_nil out.paths)
    | inr more ↦ elim (Bool-cases (e.total_len == 0)) [
      | inl empty ↦ let f : throws Error.prog_exception ≡ ok out' = rw (more, empty) at h in cc
      | inr full ↦
          let lt = leb→gt end current more in
          let size : 0 < e.total_len = ground arith in
          let ceil = num_file_blocks-IsCeil e.total_len bs pos size in
          let some_block = ceil.some_block in
          let few = ceil.small in
          let blocks = num_file_blocks e.total_len bs in
          let a : add64 current blocks ≡ current + blocks =
            add64-eq current blocks (omega (arith, small.0)) in
          let b : sub64 (current + blocks) 1 ≡ current + blocks - 1 =
            sub64-eq (current + blocks) 1 (omega arith) (omega (arith, small.0)) in
          elim (Bool-cases (ltb (current + blocks - 1) start)) [
            | inl before ↦
                let first = ltb→lt _ _ before in
                let none : ltb (max start current) (min end (current + blocks)) ≡ false =
                  le→ltb _ _ (omega arith) in
                let left : end - max start current ≡ end - max start (current + blocks) =
                  omega arith in
                rw none (
                  assign_ranges-cut (current + blocks) es out out' small.1
                    (rw (more, full, a, b, before, left) at h))
            | inr meets ↦
                let at_end = ltb→le _ _ meets in
                let touches : start < current + blocks = omega arith in
                let range =
                  range_in_file-eq bs start end current blocks e.total_len pos ceil small.0 end_word
                    touches throw in
                let len =
                  range_len_in_file-eq bs start end current blocks e.total_len pos ceil small.0
                    end_word touches throw (omega arith) in
                let hit : ltb (max start current) (min end (current + blocks)) ≡ true =
                  lt→ltb _ _ (omega arith) in
                elim (Bool-cases (
                  throw
                  && ltb
                      (min e.total_len ((min end (current + blocks) - current) * bs)
                        - (max start current - current) * bs)
                      bs)) [
                        | inl stop ↦
                            let f : throws Error.prog_exception ≡ ok out' =
                              rw (more, full, a, b, meets, range, len, stop) at h in
                            cc
                        | inr go ↦ rw hit (
                            assign_ranges-cut (current + blocks) es _ out' small.1
                              (rw (more, full, a, b, meets, range, len, go) at h)
                            ∙ append_one out.paths _ (cut bs start end (current + blocks) es))
                      ]
          ]
    ]
  ]
