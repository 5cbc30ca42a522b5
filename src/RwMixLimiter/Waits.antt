-- ===== src/RwMixLimiter/Waits.antt =====
-- How the waits of readers and writers end.
use elbencho.Prelude.{
  ℕ, suc, ◌≤◌, ◌≡◌, ◌≢◌, refl, ap, sym, arith, Bool, true, false, leb, Bool-cases, inl, inr, ◌⊎◌,
  Error, Result, ok, throws, List, [], ◌∷◌, ◌++◌, Option, none, some, add64, ok-injective, ◌||◌,
  not, length, ◌==◌, ◌∙◌,
}
use elbencho.RwMixLimiter.{
  Limiter, may_read, may_write, Round, passes, waits, stops, round_of, Reading, wait_read,
  wait_write,
}

-- A round that has the time limit behind it does not wait.
round-late :
    (may_go interrupted : Bool) (elapsed : ℕ)
    → 600 ≤ elapsed
    → round_of may_go interrupted elapsed ≢ waits
unfolding round_of
round-late true b elapsed h e = cc
round-late false true elapsed h e = cc
round-late false false elapsed h e =
    let late : leb 600 elapsed ≡ true = ground arith in let f = rw late at e in cc

-- A loop goes on only where its round waits.
round-ends :
    {A : Type 0} (r : Round) (a : A) (rest : Option A) (f : Error → A)
    → (r ≡ waits → rest ≢ none)
    → elim r [ passes ↦ some a | waits ↦ rest | stops e ↦ some (f e) ] ≢ none
round-ends passes a rest f h e = cc
round-ends waits a rest f h e = h refl e
round-ends (stops x) a rest f h e = cc

round-result :
    {A : Type 0} (r : Round) (a : A) (rest : Option (Result A)) (b : A)
    → elim r [ passes ↦ some (ok a) | waits ↦ rest | stops e ↦ some (throws e) ] ≡ some (ok b)
    → ((r ≡ passes) × (a ≡ b)) ⊎ ((r ≡ waits) × (rest ≡ some (ok b)))
round-result passes a rest b e = let q : ok a ≡ ok b = cc in inl (refl, ok-injective q)
round-result waits a rest b e = inr (refl, e)
round-result (stops x) a rest b e = cc

round-passes :
    (may_go interrupted : Bool) (elapsed : ℕ)
    → round_of may_go interrupted elapsed ≡ passes
    → may_go ≡ true
unfolding round_of
round-passes true b elapsed e = refl
round-passes false true elapsed e = cc
round-passes false false elapsed e = elim (Bool-cases (leb 600 elapsed)) [
  | inl late ↦ let f = rw late at e in cc
  | inr early ↦ let f = rw early at e in cc
]

wait_read-ends :
    (l : Limiter) (n : ℕ) (had_to_wait : Bool) (before : List Reading) (now : Reading)
    (after : List Reading)
    → 600 ≤ now.elapsed
    → wait_read l n had_to_wait (before ++ (now ∷ after)) ≢ none
unfolding wait_read
wait_read-ends l n h [] now after late =
    round-ends
      (round_of (may_read l now.num_bytes_read now.num_bytes_write) now.is_interruption_requested
        now.elapsed)
      _ _ _ (λ e. absurd (round-late _ _ _ late e))
wait_read-ends l n h (r ∷ before) now after late =
    round-ends
      (round_of (may_read l r.num_bytes_read r.num_bytes_write) r.is_interruption_requested
        r.elapsed)
      _ _ _ (λ e. wait_read-ends l n true before now after late)

wait_write-ends :
    (l : Limiter) (n : ℕ) (had_to_wait : Bool) (before : List Reading) (now : Reading)
    (after : List Reading)
    → 600 ≤ now.elapsed
    → wait_write l n had_to_wait (before ++ (now ∷ after)) ≢ none
unfolding wait_write
wait_write-ends l n h [] now after late =
    round-ends
      (round_of (may_write l now.num_bytes_read now.num_bytes_write) now.is_interruption_requested
        now.elapsed)
      _ _ _ (λ e. absurd (round-late _ _ _ late e))
wait_write-ends l n h (r ∷ before) now after late =
    round-ends
      (round_of (may_write l r.num_bytes_read r.num_bytes_write) r.is_interruption_requested
        r.elapsed)
      _ _ _ (λ e. wait_write-ends l n true before now after late)

-- The waits of readers and writers end, at the latest in the first round that reads a time of 600
-- seconds or more, whatever the counters are.
pub waits-end :
    (l : Limiter) (n : ℕ) (had_to_wait : Bool) (before : List Reading) (now : Reading)
    (after : List Reading)
    → 600 ≤ now.elapsed
    → (wait_read l n had_to_wait (before ++ (now ∷ after)) ≢ none)
      × (wait_write l n had_to_wait (before ++ (now ∷ after)) ≢ none)
waits-end l n h before now after late =
    (wait_read-ends l n h before now after late, wait_write-ends l n h before now after late)

-- Where a wait returns, a round of it let the reader go on, and the reader's bytes were added to
-- that round's counter; it reports a wait exactly where there was an earlier round.
pub wait_read_lem :
    (l : Limiter) (n : ℕ) (had_to_wait : Bool) (readings : List Reading) (waited : Bool)
    (counter : ℕ)
    → wait_read l n had_to_wait readings ≡ some (ok (waited, counter))
    → (before : List Reading) × (now : Reading) × (after : List Reading) × (readings
        ≡ before ++ (now ∷ after))
      × (may_read l now.num_bytes_read now.num_bytes_write ≡ true)
      × (counter ≡ add64 now.num_bytes_read n)
      × (waited ≡ (had_to_wait || not (length before == 0)))
unfolding wait_read
wait_read_lem l n h [] w c e = cc
wait_read_lem l n h (r ∷ rs) w c e =
    elim (round-result
      (round_of (may_read l r.num_bytes_read r.num_bytes_write) r.is_interruption_requested
        r.elapsed)
      _ _ _ e) [
        | inl (p, q) ↦ (
          [],
          r,
          rs,
          refl,
          round-passes _ _ _ p,
          sym (ap (λ (x : Bool × ℕ). x.1) q),
          sym (ap (λ (x : Bool × ℕ). x.0) q) ∙ sym (or-false h),
        )
        | inr (p, q) ↦
            let (before, now, after, a, b, d, f) = wait_read_lem l n true rs w c q in
            (r ∷ before, now, after, ap (λ x. r ∷ x) a, b, d, f ∙ longer h (length before))
      ]
  where
    or-false : (b : Bool) → (b || false) ≡ b
    or-false true = refl
    or-false false = refl

    longer : (b : Bool) (k : ℕ) → true ≡ (b || not (suc k == 0))
    longer true k = refl
    longer false k = ground arith
