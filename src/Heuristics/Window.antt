-- ===== src/Heuristics/Window.antt =====
-- The sliding window that the detectors keep as a deque of times, oldest first:
-- `dq.append(now); while dq and dq[0] < now - window: dq.popleft()`.
use sentinel_antivirus.Prelude.{
  ℕ, ◌+◌, ◌≤◌, ◌≡◌, refl, ap, inl, inr, Bool, true, List, [], ◌∷◌, ◌++◌, arith, leb, if◌then◌else◌,
  nat_eq, pair_eq, Bool-cases, length, keep, All, text_eq,
}

-- `t >= now - window`
abbrev pub is_recent : ℕ → ℕ → ℕ → Bool
is_recent window now t = leb now (t + window)

unfoldable pub pop_old : ℕ → ℕ → List ℕ → List ℕ
pop_old window now [] = []
pop_old window now (t ∷ dq) =
    let rest = pop_old window now dq in if is_recent window now t then t ∷ dq else rest

unfoldable pub slide : ℕ → ℕ → List ℕ → List ℕ
unfolding pop_old
slide window now dq = pop_old window now (dq ++ now ∷ [])

-- `sum(1 for t in dq if t >= now - window)`
unfoldable pub count_recent : ℕ → ℕ → List ℕ → ℕ
count_recent window now dq = length (keep (is_recent window now) dq)

-- The times never fall, and none is after `now`.
abbrev pub IsOrdered : ℕ → List ℕ → Type 0
IsOrdered now [] = Unit
IsOrdered now (t ∷ dq) = (t ≤ now) × All (λ u. t ≤ u) dq × IsOrdered now dq

keep_later :
    (window now t : ℕ) (dq : List ℕ)
    → is_recent window now t ≡ true
    → All (λ u. t ≤ u) dq
    → keep (is_recent window now) dq ≡ dq
keep_later window now t [] r h = refl
keep_later window now t (u ∷ dq) r h = ground (arith, keep_later window now t dq r h.1)

-- Over ordered times, popping from the left keeps exactly the recent ones.
pub pop_old-eq-keep :
    (window now : ℕ) (dq : List ℕ)
    → IsOrdered now dq
    → pop_old window now dq ≡ keep (is_recent window now) dq
unfolding pop_old
pop_old-eq-keep window now [] h = refl
pop_old-eq-keep window now (t ∷ dq) h =
    ground (arith, keep_later window now t dq, h.1, pop_old-eq-keep window now dq h.2)

All-snoc {ℓ κ} :
    {A : Type ℓ} (P : A → Type κ) (xs : List A) (a : A) → All P xs → P a → All P (xs ++ a ∷ [])
All-snoc P [] a h p = (p, tt)
All-snoc P (x ∷ xs) a h p = (h.0, All-snoc P xs a h.1 p)

IsOrdered-snoc : (now : ℕ) (dq : List ℕ) → IsOrdered now dq → IsOrdered now (dq ++ now ∷ [])
IsOrdered-snoc now [] h = (omega arith, tt, tt)
IsOrdered-snoc now (t ∷ dq) h =
    (h.0, All-snoc (λ u. t ≤ u) dq now h.1 h.0, IsOrdered-snoc now dq h.2)

All-pop_old :
    (t window now : ℕ) (dq : List ℕ)
    → All (λ u. t ≤ u) dq
    → All (λ u. t ≤ u) (pop_old window now dq)
unfolding pop_old
All-pop_old t window now [] h = tt
All-pop_old t window now (u ∷ dq) h = elim (Bool-cases (is_recent window now u)) [
  | inl r ↦ rw r h
  | inr r ↦ rw r (All-pop_old t window now dq h.1)
]

IsOrdered-pop_old :
    (window now : ℕ) (dq : List ℕ) → IsOrdered now dq → IsOrdered now (pop_old window now dq)
unfolding pop_old
IsOrdered-pop_old window now [] h = tt
IsOrdered-pop_old window now (t ∷ dq) h = elim (Bool-cases (is_recent window now t)) [
  | inl r ↦ rw r h
  | inr r ↦ rw r (IsOrdered-pop_old window now dq h.2)
]

-- The window after a new time: ordered, and exactly the recent ones of what it held and the new
-- one.
pub slide_lem :
    (window now : ℕ) (dq : List ℕ)
    → IsOrdered now dq
    → IsOrdered now (slide window now dq)
      × (slide window now dq ≡ keep (is_recent window now) (dq ++ now ∷ []))
unfolding slide
slide_lem window now dq h =
    let o : IsOrdered now (dq ++ now ∷ []) = IsOrdered-snoc now dq h in
    (IsOrdered-pop_old window now _ o, pop_old-eq-keep window now _ o)

count-keep :
    (window now : ℕ) (dq : List ℕ)
    → length (keep (is_recent window now) (dq ++ now ∷ [])) ≡ count_recent window now dq + 1
unfolding count_recent
count-keep window now [] = ground arith
count-keep window now (t ∷ dq) = ground (arith, count-keep window now dq)

-- Its length is the number of recent times, the new one included.
pub length-slide :
    (window now : ℕ) (dq : List ℕ)
    → IsOrdered now dq
    → length (slide window now dq) ≡ count_recent window now dq + 1
length-slide window now dq h =
    omega (arith, ap length (slide_lem window now dq h).1, count-keep window now dq)

pub IsOrdered-later :
    (now later : ℕ) (dq : List ℕ) → now ≤ later → IsOrdered now dq → IsOrdered later dq
IsOrdered-later now later [] h o = tt
IsOrdered-later now later (t ∷ dq) h o = (omega arith, o.1, IsOrdered-later now later dq h o.2)
