-- ===== src/Journal/Locks/Progress.antt =====
-- No circular wait: some thread can always go on.
use elbencho.Prelude.{
  ℕ, zero, suc, ◌+◌, ◌≤◌, ◌<◌, ◌≡◌, ◌≢◌, refl, subst, arith, Bool, true, false, List, [], ◌∷◌, ◌==◌,
  ==_iff, Bool-cases, inl, inr, ◌⊎◌, All,
}
use elbencho.Journal.{stripes_of, num_stripes}
use elbencho.Journal.Regions.{Ascends, stripes_of-Ascends}
use elbencho.Journal.Locks.{
  Held, Thread, conflicts, is_available, update, Step, start_waiting, take_next, try_all, release,
  Reach, start, later,
}

-- The locks that a thread waits for ascend, and lie above all that it holds.
abbrev pub IsAbove : List Held → List ℕ → Type 0
IsAbove held [] = Unit {0}
IsAbove held (s ∷ ss) = All (λ (h : Held). h.1 < s) held × Ascends (s ∷ ss)

abbrev pub IsOrdered : Thread → Type 0
IsOrdered t = IsAbove t.held t.wanted

update-IsOrdered :
    (threads : ℕ → Thread) (u : ℕ) (t : Thread)
    → IsOrdered t
    → ((v : ℕ) → IsOrdered (threads v))
    → (v : ℕ) → IsOrdered (update threads u t v)
update-IsOrdered threads u t h all v = elim (Bool-cases (u == v)) [
  | inl e ↦ rw e h
  | inr e ↦ rw e (all v)
]

empty-IsAbove : (ss : List ℕ) → Ascends ss → IsAbove [] ss
empty-IsAbove [] h = tt
empty-IsAbove (s ∷ ss) h = (tt, h)

All-lt :
    (held : List Held) (a b : ℕ)
    → a < b
    → All (λ (h : Held). h.1 < a) held
    → All (λ (h : Held). h.1 < b) held
All-lt [] a b h p = tt
All-lt (x ∷ xs) a b h p = (omega (arith, p.0), All-lt xs a b h p.1)

take-IsAbove :
    (mode : Bool) (held : List Held) (s : ℕ) (ss : List ℕ)
    → IsAbove held (s ∷ ss)
    → IsAbove ((mode, s) ∷ held) ss
take-IsAbove mode held s [] h = tt
take-IsAbove mode held s (x ∷ ss) (below, (lt, rest)) = ((lt, All-lt held s x lt below), rest)

Step-IsOrdered :
    {n : ℕ} {threads threads' : ℕ → Thread}
    → Step n threads threads'
    → ((v : ℕ) → IsOrdered (threads v))
    → (v : ℕ) → IsOrdered (threads' v)
Step-IsOrdered {n} {threads} (start_waiting u j mode first num_blocks lt h w) all =
    update-IsOrdered threads u _
      (empty-IsAbove (stripes_of j first num_blocks) (stripes_of-Ascends j first num_blocks)) all
Step-IsOrdered {n} {threads} (take_next u s ss lt w free) all =
    update-IsOrdered threads u _
      (take-IsAbove (threads u).is_exclusive (threads u).held s ss
        (subst (IsAbove (threads u).held) w (all u)))
      all
Step-IsOrdered {n} {threads} (try_all u j mode first num_blocks lt w free) all =
    update-IsOrdered threads u _ tt all
Step-IsOrdered {n} {threads} (release u before guard after lt h w) all =
    update-IsOrdered threads u _ tt all

Reach-IsOrdered : {n : ℕ} {threads : ℕ → Thread} → Reach n threads → (v : ℕ) → IsOrdered (threads v)
Reach-IsOrdered start v = tt
Reach-IsOrdered (later r st) v = Step-IsOrdered st (Reach-IsOrdered r) v

-- A lock that is not free has a holder.
find_holder :
    (threads : ℕ → Thread) (n : ℕ) (exclusive : Bool) (s : ℕ)
    → is_available threads n exclusive s ≡ false
    → (v : ℕ) × (v < n) × (conflicts exclusive s (threads v).held ≡ true)
unfolding is_available
find_holder threads zero exclusive s h = cc
find_holder threads (suc n) exclusive s h =
    elim (Bool-cases (conflicts exclusive s (threads n).held)) [
      | inl held ↦ (n, omega arith, held)
      | inr free ↦
          let (v, lt, c) = find_holder threads n exclusive s (rw free at h) in (v, omega arith, c)
    ]

-- Its holder waits only for higher locks.
conflicts-lt :
    (exclusive : Bool) (s x : ℕ) (held : List Held)
    → conflicts exclusive s held ≡ true
    → All (λ (h : Held). h.1 < x) held
    → s < x
unfolding conflicts
conflicts-lt exclusive s x [] c p = cc
conflicts-lt exclusive s x ((mode, y) ∷ held) c p = elim (Bool-cases (y == s)) [
  | inl e ↦ let q = (==_iff y s).0 e in omega (arith, p.0)
  | inr e ↦ conflicts-lt exclusive s x held (rw e at c) p.1
]

-- What a thread can do to go on: give a guard back, or take the next lock.
abbrev pub CanGoOn : ℕ → (ℕ → Thread) → Type 0
CanGoOn n threads =
    (u : ℕ) × (u < n)
    × ((((threads u).wanted ≡ []) × ((threads u).held ≢ []))
        ⊎ ((s : ℕ) × (ss : List ℕ) × ((threads u).wanted ≡ s ∷ ss)
            × (is_available threads n (threads u).is_exclusive s ≡ true)))

Ascends-lt : (s : ℕ) (ss : List ℕ) → Ascends (s ∷ ss) → s < num_stripes
Ascends-lt s [] h = h
Ascends-lt s (x ∷ ss) h = let r = Ascends-lt x ss h.1 in omega (arith, h.0)

holder-holds :
    (exclusive : Bool) (s : ℕ) (held : List Held) → conflicts exclusive s held ≡ true → held ≢ []
unfolding conflicts
holder-holds exclusive s [] c e = cc
holder-holds exclusive s (h ∷ held) c e = cc

List-cases : (l : List ℕ) → (l ≡ []) ⊎ ((s : ℕ) × (ss : List ℕ) × (l ≡ s ∷ ss))
List-cases [] = inl refl
List-cases (s ∷ ss) = inr (s, ss, refl)

-- From one waiting thread to the holder of its lock, and on: each waits for a higher lock.
chase :
    (fuel n : ℕ) (threads : ℕ → Thread)
    → ((v : ℕ) → IsOrdered (threads v))
    → (u s : ℕ) (ss : List ℕ) → u < n
    → (threads u).wanted ≡ s ∷ ss
    → num_stripes ≤ fuel + s
    → CanGoOn n threads
chase zero n threads all u s ss lt w f =
    let (below, ordered) = subst (IsAbove (threads u).held) w (all u) in
    absurd (omega (arith, Ascends-lt s ss ordered))
chase (suc fuel) n threads all u s ss lt w f =
    elim (Bool-cases (is_available threads n (threads u).is_exclusive s)) [
      | inl free ↦ (u, lt, inr (s, ss, w, free))
      | inr taken ↦
          let (v, v_lt, c) = find_holder threads n (threads u).is_exclusive s taken in
          elim (List-cases (threads v).wanted) [
            | inl done ↦
                (v, v_lt, inl (done, holder-holds (threads u).is_exclusive s (threads v).held c))
            | inr (x, xs, w') ↦
                let (below, ordered) = subst (IsAbove (threads v).held) w' (all v) in
                let higher = conflicts-lt (threads u).is_exclusive s x (threads v).held c below in
                chase fuel n threads all v x xs v_lt w' (omega arith)
          ]
    ]

-- The journal's locks cannot deadlock: in every state that the threads of a run can reach, while
-- some thread waits inside `acquireRange`, there is a thread that can take the lock it waits for, or
-- one that waits for none and holds a guard which it can give back.
pub Reach-CanGoOn :
    {n : ℕ} {threads : ℕ → Thread} (u : ℕ)
    → Reach n threads
    → u < n
    → (threads u).wanted ≢ []
    → CanGoOn n threads
Reach-CanGoOn {n} {threads} u r lt waits = elim (List-cases (threads u).wanted) [
  | inl e ↦ absurd (waits e)
  | inr (s, ss, w) ↦ chase num_stripes n threads (Reach-IsOrdered r) u s ss lt w (omega arith)
]
