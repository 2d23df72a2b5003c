-- ===== src/Payments/Razorpay/Reversals.antt =====
-- What the reversal loop asks for: the transfers in order, each up to what it still holds.
use rookopg.Prelude.{
  ℕ, ◌+◌, ◌-◌, ◌≡◌, refl, List, [], ◌∷◌, ◌==◌, sum_of, min, if◌then◌else◌, arith, Bool-cases,
  Option-cases, inl, inr, ==_iff, ==_refl, All, All-imp, any, any-later, ◌&&◌, leb, true,
}
use rookopg.Payments.Razorpay.{
  RazorpayApi, RouteTransfer, Calls, ◌>>=◌, ◌>>◌, answer, call, reverse_each,
}

-- What a transfer still holds.
abbrev pub left_on : RouteTransfer → ℕ
left_on t = t.amount - t.amount_reversed

-- The reversals that make up an amount: the transfers' ids and what each gives back.
abbrev pub reversals : List RouteTransfer → ℕ → List (ℕ × ℕ)
reversals [] n = []
reversals (t ∷ held) n =
    let amount = min (left_on t) n in
    let rest = reversals held (n - amount) in if amount == 0 then rest else (t.id, amount) ∷ rest

reversals_zero : (held : List RouteTransfer) → reversals held 0 ≡ []
reversals_zero [] = refl
reversals_zero (t ∷ held) = ground (arith, reversals_zero held)

-- Together they come to the amount, or to all that the transfers hold.
reversals-sum :
    (held : List RouteTransfer) (n : ℕ)
    → sum_of (λ r. r.1) (reversals held n) ≡ min n (sum_of left_on held)
reversals-sum [] n = omega arith
reversals-sum (t ∷ held) n = ground (arith, reversals-sum held (n - min (left_on t) n))

-- Some transfer has the id, and what was reversed of it comes with this to no more than its amount.
abbrev pub IsCovered : List RouteTransfer → ℕ × ℕ → Type 0
IsCovered held r = any (λ t. (t.id == r.0) && leb (t.amount_reversed + r.1) t.amount) held ≡ true

reversals-IsCovered : (held : List RouteTransfer) (n : ℕ) → All (IsCovered held) (reversals held n)
reversals-IsCovered [] n = tt
reversals-IsCovered (t ∷ held) n =
    let amount = min (left_on t) n in
    let rest =
      All-imp (IsCovered held) (IsCovered (t ∷ held)) (reversals held (n - amount))
        (λ r h. any-later (λ u. (u.id == r.0) && leb (u.amount_reversed + r.1) u.amount) t held h)
        (reversals-IsCovered held (n - amount)) in
    elim (Bool-cases (amount == 0)) [
      | inl spent ↦ rw spent rest
      | inr some_left ↦
          let here : leb (t.amount_reversed + amount) t.amount ≡ true = ground arith in
          rw some_left (rw (==_refl t.id, here) refl, rest)
    ]

module _ (api : RazorpayApi) where
  abbrev pub run_reversals : List (ℕ × ℕ) → Calls api.State (Unit {0})
  run_reversals [] = answer tt
  run_reversals (r ∷ rest) = do call "reversal" (api.post_reversal r.0 r.1); run_reversals rest

  reverse_each-eq :
      (held : List RouteTransfer) (n : ℕ) (s : api.State)
      → reverse_each api held n s
        ≡ (run_reversals (reversals held n) >>= λ _. answer (n - sum_of left_on held)) s
  unfolding reverse_each
  reverse_each-eq [] n s = let same : n - 0 ≡ n = omega arith in rw same refl
  reverse_each-eq (t ∷ held) n s = elim (Bool-cases (n == 0)) [
    | inl over ↦
        let zero_left : n ≡ 0 = (==_iff n 0).0 over in
        let nothing : 0 - (left_on t + sum_of left_on held) ≡ 0 = omega arith in
        rw (zero_left, reversals_zero (t ∷ held), nothing) refl
    | inr more ↦ elim (Bool-cases (min (left_on t) n == 0)) [
      | inl spent ↦
          let none_left : left_on t ≡ 0 = ground arith in
          let rest : n - min (left_on t) n ≡ n = omega (arith, none_left) in
          let whole : n - (left_on t + sum_of left_on held) ≡ n - sum_of left_on held =
            omega (arith, none_left) in
          rw (more, spent, rest, whole) (reverse_each-eq held n s)
      | inr some_left ↦
          let amount = min (left_on t) n in
          let whole : n - (left_on t + sum_of left_on held) ≡ (n - amount) - sum_of left_on held =
            omega arith in
          let s' = (api.post_reversal t.id amount s).1 in
          elim (Option-cases (api.post_reversal t.id amount s).0) [
            | inl refused ↦ rw (more, some_left, whole, refused) refl
            | inr (_, reversed) ↦
                rw (more, some_left, whole, reversed) (reverse_each-eq held (n - amount) s')
          ]
    ]
  ]

  -- The loop asks for the reversals that make up the amount, one after the other until one fails, and
  -- what it leaves to reverse is what the transfers could not give; the reversals together come to the
  -- amount, or to all that the transfers hold, and none takes a transfer beyond its amount.
  pub reverse_each_lem :
      (held : List RouteTransfer) (n : ℕ) (s : api.State)
      → (reverse_each api held n s
          ≡ (run_reversals (reversals held n) >>= λ _. answer (n - sum_of left_on held)) s)
        × (sum_of (λ r. r.1) (reversals held n) ≡ min n (sum_of left_on held))
        × All (IsCovered held) (reversals held n)
  reverse_each_lem held n s =
      (reverse_each-eq held n s, reversals-sum held n, reversals-IsCovered held n)
