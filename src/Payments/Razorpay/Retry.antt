-- ===== src/Payments/Razorpay/Retry.antt =====
-- A refund that succeeded, asked for again.
use rookopg.Prelude.{
  ℕ, zero, suc, ◌-◌, ◌≡◌, refl, sym, ap, ◌∙◌, true, false, Option, none, some, List, [], ◌∷◌, ◌==◌,
  find, min, arith, Bool-cases, inl, inr,
}
use rookopg.Prelude.Int.{pos}
use mathlib.Core.Path.{subst}
use Prim.Native.String.{String}
use rookopg.Errors.{Result, Result-cases, ok, throw}
use rookopg.Payments.{SettleInput, RefundInput, Outcome, IdempotencyKey}
use rookopg.Payments.Razorpay.{
  RazorpayApi, RouteTransfer, RazorpayRefund, Calls, ◌>>=◌, call, continue_calls, response,
  available, is_key, held_transfers, release_each, release_held, release_owner_share, reverse_each,
  reverse_for, release_rest, refund_anew, refund_unless, refund_to_tenant, refunded,
}

-- What Razorpay's documentation says of refunds: the list of a payment's refunds shows the one that was
-- made with a key, and no other call changes it.
pub record RefundLaws (api : RazorpayApi) : Type 0 where
  pub refunds_of : ℕ → api.State → List RazorpayRefund
  pub get_refunds-eq :
      (p : ℕ) (s : api.State) (items : List RazorpayRefund)
      → (api.get_refunds p s).0 ≡ some items
      → items ≡ refunds_of p s
  pub get_refunds_keeps :
      (p q : ℕ) (s : api.State) → refunds_of q (api.get_refunds p s).1 ≡ refunds_of q s
  pub get_transfers_keeps :
      (p q : ℕ) (s : api.State) → refunds_of q (api.get_transfers p s).1 ≡ refunds_of q s
  pub patch_transfer_keeps :
      (t q : ℕ) (s : api.State) → refunds_of q (api.patch_transfer t s).1 ≡ refunds_of q s
  pub post_reversal_keeps :
      (t n q : ℕ) (s : api.State) → refunds_of q (api.post_reversal t n s).1 ≡ refunds_of q s
  pub post_refund_listed :
      (p n : ℕ) (key : IdempotencyKey) (s : api.State) (r : RazorpayRefund)
      → find (is_key key) (refunds_of p s) ≡ none
      → (api.post_refund p n key s).0 ≡ some r
      → find (is_key key) (refunds_of p (api.post_refund p n key s).1) ≡ some r

module _ (api : RazorpayApi) (laws : RefundLaws api) (p : ℕ) where
  -- A run of calls that leaves the payment's refunds as they were.
  abbrev Keeps : {A : Type 0} → Calls api.State A → Type 0
  Keeps m = (s : api.State) → laws.refunds_of p (m s).1 ≡ laws.refunds_of p s

  continue-Keeps :
      {A B : Type 0} (r : Result A) (f : A → Calls api.State B)
      → ((a : A) → Keeps (f a))
      → Keeps (continue_calls r f)
  continue-Keeps (ok a) f keeps s = keeps a s
  continue-Keeps (throw e) f keeps s = refl

  bind-Keeps :
      {A B : Type 0} (m : Calls api.State A) (f : A → Calls api.State B)
      → Keeps m
      → ((a : A) → Keeps (f a))
      → Keeps (m >>= f)
  bind-Keeps m f keeps keeps' s = continue-Keeps (m s).0 f keeps' (m s).1 ∙ keeps s

  held_transfers-Keeps : (q : ℕ) → Keeps (held_transfers api q)
  unfolding held_transfers
  held_transfers-Keeps q =
      bind-Keeps (call "transfers" (api.get_transfers q)) _ (λ s. laws.get_transfers_keeps q p s)
        (λ a s. refl)

  release_each-Keeps : (held : List RouteTransfer) → Keeps (release_each api held)
  unfolding release_each
  release_each-Keeps [] = λ s. refl
  release_each-Keeps (t ∷ held) =
      bind-Keeps (call "release" (api.patch_transfer t.id)) _
        (λ s. laws.patch_transfer_keeps t.id p s)
        λ a. bind-Keeps (release_each api held) _ (release_each-Keeps held) (λ b s. refl)

  release_held-Keeps : (held : List RouteTransfer) → Keeps (release_held api held)
  unfolding release_held
  release_held-Keeps [] = λ s. refl
  release_held-Keeps (t ∷ held) =
      bind-Keeps (release_each api (t ∷ held)) _ (release_each-Keeps (t ∷ held)) (λ b s. refl)

  release_rest-Keeps : (settle : SettleInput) (n : ℕ) → Keeps (release_rest api settle n)
  unfolding release_rest release_owner_share
  release_rest-Keeps settle zero = λ s. refl
  release_rest-Keeps settle (suc n) =
      bind-Keeps _ _
        (bind-Keeps (held_transfers api settle.payment_id) _
          (held_transfers-Keeps settle.payment_id) (λ held. release_held-Keeps held))
        (λ b s. refl)

  reverse_each-Keeps : (held : List RouteTransfer) (n : ℕ) → Keeps (reverse_each api held n)
  unfolding reverse_each
  reverse_each-Keeps [] n = λ s. refl
  reverse_each-Keeps (t ∷ held) n = elim (Bool-cases (n == 0)) [
    | inl over ↦ rw over (λ s. refl)
    | inr more ↦ elim (Bool-cases (min (available t) n == 0)) [
      | inl spent ↦ rw (more, spent) (reverse_each-Keeps held n)
      | inr some_left ↦
          rw (more, some_left)
            (bind-Keeps (call "reversal" (api.post_reversal t.id (min (available t) n))) _
              (λ s. laws.post_reversal_keeps t.id (min (available t) n) p s)
              (λ a. reverse_each-Keeps held (n - min (available t) n)))
    ]
  ]

  reverse_for-Keeps : (held : List RouteTransfer) (n : ℕ) → Keeps (reverse_for api held n)
  unfolding reverse_for
  reverse_for-Keeps held zero = λ s. refl
  reverse_for-Keeps held (suc n) =
      bind-Keeps (reverse_each api held (suc n)) _ (reverse_each-Keeps held (suc n)) λ left.
        elim (Bool-cases (left == 0)) [
          | inl done ↦ rw done (λ s. refl)
          | inr short ↦ rw short (λ s. refl)
        ]

-- What calls that succeed went through.
bind-ok :
    {S A B : Type 0} (m : Calls S A) (f : A → Calls S B) (s : S) {b : B} {s' : S}
    → (m >>= f) s ≡ (ok b, s')
    → (a : A) × ((m s).0 ≡ ok a) × (f a (m s).1 ≡ (ok b, s'))
bind-ok m f s {b} {s'} h = elim (Result-cases (m s).0) [
  | inl (a, ran) ↦ (a, ran, rw (ran, continue_calls) at h)
  | inr (e, thrown) ↦ absurd (
      let stop : (throw e, (m s).1) ≡ (ok b, s') = (rw (thrown, continue_calls) at h) in
      ground arith)
]

response-ok :
    {A : Type 0} (what : String) (o : Option A) {a : A} → response what o ≡ ok a → o ≡ some a
response-ok what none h = ground arith
response-ok what (some a) h = ground arith

module _ (api : RazorpayApi) (laws : RefundLaws api) (input : RefundInput) where
  abbrev payment : ℕ
  payment = input.settle.payment_id

  abbrev listed : api.State → Option RazorpayRefund
  listed s = find (is_key input.settle.idempotency_key) (laws.refunds_of payment s)

  -- The outcome is that of the refund on the list.
  abbrev Shows : Outcome → api.State → Type 0
  Shows out s =
      (r : RazorpayRefund) × (listed s ≡ some r)
      × (out.refund_id ≡ some r.id)
      × (out.refunded_paise ≡ r.amount)

  refund_anew-Shows :
      (s : api.State) {out : Outcome} {s' : api.State}
      → listed s ≡ none
      → refund_anew api input s ≡ (ok out, s')
      → Shows out s'
  unfolding refund_anew
  refund_anew-Shows s {out} {s'} absent h =
      let (held, _, after_held) = bind-ok (held_transfers api payment) _ s h in
      let s1 = (held_transfers api payment s).1 in
      let (_, _, after_reversal) =
        bind-ok (reverse_for api held input.refund_to_tenant_paise) _ s1 after_held in
      let s2 = (reverse_for api held input.refund_to_tenant_paise s1).1 in
      let post =
        api.post_refund payment input.refund_to_tenant_paise input.settle.idempotency_key in
      let (r, made, after_refund) = bind-ok (call "refund" post) _ s2 after_reversal in
      let s3 = (post s2).1 in
      let (paise, _, last) =
        bind-ok (release_rest api input.settle input.release_to_owner_paise) _ s3 after_refund in
      let s4 = (release_rest api input.settle input.release_to_owner_paise s3).1 in
      let finished : (ok (refunded api r paise false), s4) ≡ (ok out, s') = last in
      let still : listed s2 ≡ none =
        rw
          (
            reverse_for-Keeps api laws payment held input.refund_to_tenant_paise s1,
            held_transfers-Keeps api laws payment payment s,
          )
          absent in
      let shown =
        laws.post_refund_listed payment input.refund_to_tenant_paise input.settle.idempotency_key s2
          r still (response-ok "refund" (post s2).0 made) in
      let kept : listed s4 ≡ some r =
        rw (release_rest-Keeps api laws payment input.settle input.release_to_owner_paise s3)
          shown in
      let same : s4 ≡ s' = ap (λ (x : Result Outcome × api.State). x.1) finished in
      let result : refunded api r paise false ≡ out = ground arith in
      (r, subst (λ t. listed t ≡ some r) same kept, ground arith, ground arith)

  refund_unless-Shows :
      (mine : Option RazorpayRefund) (s : api.State) {out : Outcome} {s' : api.State}
      → listed s ≡ mine
      → refund_unless api input mine s ≡ (ok out, s')
      → Shows out s'
  unfolding refund_unless
  refund_unless-Shows none s absent h = refund_anew-Shows s absent h
  refund_unless-Shows (some r) s {out} {s'} there h =
      let same : s ≡ s' = ap (λ (x : Result Outcome × api.State). x.1) h in
      let result : refunded api r (pos 0) true ≡ out = ground arith in
      (r, subst (λ t. listed t ≡ some r) same there, ground arith, ground arith)

  -- After a refund that succeeded, asking again under the same key, where the list of refunds can be
  -- read, succeeds with the same refund and makes no call but that reading.
  pub refund_twice :
      (s : api.State) (items : List RazorpayRefund) {out : Outcome} {s1 s2 : api.State}
      → refund_to_tenant api input s ≡ (ok out, s1)
      → api.get_refunds input.settle.payment_id s1 ≡ (some items, s2)
      → (again : Outcome) × (refund_to_tenant api input s1 ≡ (ok again, s2))
        × (again.refund_id ≡ out.refund_id)
        × (again.refunded_paise ≡ out.refunded_paise)
        × (again.already_settled ≡ true)
  unfolding refund_to_tenant refund_unless
  refund_twice s items {out} {s1} {s2} h read =
      let (existing, got, rest) = bind-ok (call "refunds" (api.get_refunds payment)) _ s h in
      let s0 = (api.get_refunds payment s).1 in
      let first =
        laws.get_refunds-eq payment s existing
          (response-ok "refunds" (api.get_refunds payment s).0 got) in
      let was : listed s0 ≡ find (is_key input.settle.idempotency_key) existing =
        rw (laws.get_refunds_keeps payment payment s, first) refl in
      let (r, there, id, paise) =
        refund_unless-Shows (find (is_key input.settle.idempotency_key) existing) s0 was rest in
      let now_read =
        laws.get_refunds-eq payment s1 items
          (ap (λ (x : Option (List RazorpayRefund) × api.State). x.0) read) in
      let mine : find (is_key input.settle.idempotency_key) items ≡ some r = rw now_read there in
      (refunded api r (pos 0) true, rw (read, response, mine) refl, sym id, sym paise, refl)
