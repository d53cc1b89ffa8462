-- ===== src/Scheduler/Cron/Range.antt =====
-- internal/scheduler/scheduler.go: the values of `*`, of `N` and of `N-M` lie in the field's range.
use vcdeploy.Prelude.{
  split_on, ℕ, zero, suc, ◌+◌, ◌-◌, ◌≤◌, ◌≡◌, refl, true, List, [], ◌∷◌, ◌++◌, arith, Bool-cases,
  Option-cases, inl, inr, All, Text, ℤ, pos, negsuc, leb_int, atoi, contains, codes,
}
use vcdeploy.Scheduler.Cron.{
  Result, ok, err, ◌>>=◌, count_up, int_range, parse_range, parse_value, parse_part, parse_parts,
}

-- A value that is no smaller than the field's smallest and no larger than its largest.
abbrev pub Fits : ℕ → ℕ → ℤ → Type 0
Fits lo hi (pos n) = (lo ≤ n) × (n ≤ hi)
Fits lo hi (negsuc n) = ⊥

-- A bind succeeds only with a value that both steps agree on.
pub >>=-ok :
    {A B : Type 0} {b : B} (m : Result A) (f : A → Result B)
    → m >>= f ≡ ok b
    → (a : A) × (f a ≡ ok b) × (m ≡ ok a)
>>=-ok (err cause) f h = cc
>>=-ok (ok a) f h = (a, h, refl)

pub All-append :
    (lo hi : ℕ) (xs ys : List ℤ)
    → All (Fits lo hi) xs
    → All (Fits lo hi) ys
    → All (Fits lo hi) (xs ++ ys)
All-append lo hi [] ys h k = k
All-append lo hi (x ∷ xs) ys h k = (h.0, All-append lo hi xs ys h.1 k)

count_up-Fits : (lo hi n a : ℕ) → lo ≤ a → n + a ≤ suc hi → All (Fits lo hi) (count_up n a)
unfolding count_up
count_up-Fits lo hi zero a h k = tt
count_up-Fits lo hi (suc n) a h k =
    ((omega arith, omega arith), count_up-Fits lo hi n (suc a) (omega arith) (omega arith))

pub int_range-Fits :
    (lo hi : ℕ) (a b : ℤ)
    → leb_int (pos lo) a ≡ true
    → leb_int b (pos hi) ≡ true
    → leb_int a b ≡ true
    → All (Fits lo hi) (int_range a b)
unfolding int_range
int_range-Fits lo hi (pos a) (pos b) h k l =
    count_up-Fits lo hi (suc b - a) a (ground arith) (ground arith)
int_range-Fits lo hi (pos a) (negsuc b) h k l = absurd (ground arith)
int_range-Fits lo hi (negsuc a) b h k l = absurd (ground arith)

parse_range-Fits :
    (lo hi : ℕ) (parts : List Text) (vs : List ℤ)
    → parse_range lo hi parts ≡ ok vs
    → All (Fits lo hi) vs
unfolding parse_range
parse_range-Fits lo hi [] vs h = absurd (ground arith)
parse_range-Fits lo hi (a ∷ []) vs h = absurd (ground arith)
parse_range-Fits lo hi (a ∷ b ∷ c ∷ rest) vs h = absurd (ground arith)
parse_range-Fits lo hi (a ∷ b ∷ []) vs h = elim (Option-cases (atoi a)) [
  | inl e ↦ absurd (ground arith)
  | inr (x, e) ↦ elim (Option-cases (atoi b)) [
    | inl f ↦ absurd (ground arith)
    | inr (y, f) ↦
        let same : int_range x y ≡ vs = ground arith in
        rw (← same) (int_range-Fits lo hi x y (ground arith) (ground arith) (ground arith))
  ]
]

parse_value-Fits :
    (lo hi : ℕ) (part : Text) (vs : List ℤ) → parse_value lo hi part ≡ ok vs → All (Fits lo hi) vs
unfolding parse_value
parse_value-Fits lo hi part vs h = elim (Option-cases (atoi part)) [
  | inl e ↦ absurd (ground arith)
  | inr (pos n, e) ↦
      let same : pos n ∷ [] ≡ vs = ground arith in rw (← same) ((ground arith, ground arith), tt)
  | inr (negsuc n, e) ↦ absurd (ground arith)
]

parse_part-Fits :
    (lo hi : ℕ) (part : Text) (vs : List ℤ) → parse_part lo hi part ≡ ok vs → All (Fits lo hi) vs
unfolding parse_part
parse_part-Fits lo hi part vs h = elim (Bool-cases (contains part (codes "-"))) [
  | inl e ↦ parse_range-Fits lo hi (split_on b'-' part) vs (rw e at h)
  | inr e ↦ parse_value-Fits lo hi part vs (rw e at h)
]

-- The values of a list of ranges and numbers lie in the field's range.
pub parse_parts-Fits :
    (lo hi : ℕ) (parts : List Text) (vs : List ℤ)
    → parse_parts lo hi parts ≡ ok vs
    → All (Fits lo hi) vs
unfolding parse_parts
parse_parts-Fits lo hi [] vs h = let same : [] ≡ vs = ground arith in rw (← same) tt
parse_parts-Fits lo hi (p ∷ ps) vs h =
    let (a, more, part) = >>=-ok (parse_part lo hi p) _ h in
    let (b, done, parts) = >>=-ok (parse_parts lo hi ps) _ more in
    let same : a ++ b ≡ vs = ground arith in
    rw (← same)
      (All-append lo hi a b (parse_part-Fits lo hi p a part) (parse_parts-Fits lo hi ps b parts))
