-- ===== src/Auth/Sessions/Live.antt =====
-- The live sessions of a family, counted.
use rookopg.Prelude.{
  ℕ, ◌+◌, ◌≡◌, ◌≤◌, refl, sym, ap, ◌∙◌, Bool, true, false, List, [], ◌∷◌, ◌==◌, any, arith, length,
  select, sum_of, one_if, All, Bool-cases, ◌⊎◌, inl, inr, ==_iff,
}
use rookopg.Calendar.{Date}
use rookopg.Database.{AuthSession}
use rookopg.Database.Client.{changed}
use rookopg.Auth.Repository.{is_live_session, is_live_in, revoked}

abbrev pub live_count : ℕ → List AuthSession → ℕ
live_count family_id rows = sum_of (λ s. one_if (is_live_in family_id s)) rows

-- No family has two live sessions.
abbrev pub Single : List AuthSession → Type 0
Single rows = (family_id : ℕ) → live_count family_id rows ≤ 1

pub revoked-le :
    (now : Date) (p : AuthSession → Bool) (f : ℕ) (rows : List AuthSession)
    → live_count f (changed p (revoked now) rows) ≤ live_count f rows
revoked-le now p f [] = omega arith
revoked-le now p f (s ∷ rows) = ground (arith, revoked-le now p f rows)

pub none_live :
    (now : Date) (f : ℕ) (rows : List AuthSession)
    → any (is_live_in f) (changed (is_live_in f) (revoked now) rows) ≡ false
none_live now f [] = refl
none_live now f (s ∷ rows) = ground (arith, none_live now f rows)

pub none_claimable :
    (now : Date) (id : ℕ) (rows : List AuthSession)
    → any (is_live_session id) (changed (is_live_session id) (revoked now) rows) ≡ false
none_claimable now id [] = refl
none_claimable now id (s ∷ rows) = ground (arith, none_claimable now id rows)

pub still_none :
    (now : Date) (p : AuthSession → Bool) (id : ℕ) (rows : List AuthSession)
    → any (is_live_session id) rows ≡ false
    → any (is_live_session id) (changed p (revoked now) rows) ≡ false
still_none now p id [] h = refl
still_none now p id (s ∷ rows) h = ground (arith, still_none now p id rows)

pub select_none :
    (p : AuthSession → Bool) (rows : List AuthSession)
    → any p rows ≡ false
    → (length (select p rows) == 1) ≡ false
select_none p [] h = refl
select_none p (s ∷ rows) h = ground (arith, select_none p rows)

-- The sessions with this id are of this family.
abbrev pub IsFamilyOf : ℕ → ℕ → List AuthSession → Type 0
IsFamilyOf id f rows = All (λ s. ((s.id == id) ≡ false) ⊎ (s.family_id ≡ f)) rows

pub claimed-eq :
    (now : Date) (id f : ℕ) (rows : List AuthSession)
    → IsFamilyOf id f rows
    → live_count f (changed (is_live_session id) (revoked now) rows)
        + length (select (is_live_session id) rows)
      ≡ live_count f rows
claimed-eq now id f [] h = refl
claimed-eq now id f (s ∷ rows) h = ground (arith, claimed-eq now id f rows h.1)

at_most_one : (b : Bool) → one_if b ≤ 1
at_most_one true = omega arith
at_most_one false = omega arith

pub new_single :
    (new : AuthSession) (family f n : ℕ) (rows rows' : List AuthSession)
    → new.family_id ≡ family
    → n ≡ 1
    → live_count f rows ≤ 1
    → live_count f rows' ≤ live_count f rows
    → live_count family rows ≤ 1
    → live_count family rows' + n ≡ live_count family rows
    → live_count f (new ∷ rows') ≤ 1
new_single new family f n rows rows' of_family one some_f less some_family claimed =
    elim (Bool-cases (new.family_id == f)) [
      | inr other ↦ rw other (omega (arith, some_f, less))
      | inl here ↦
          let same : family ≡ f = sym of_family ∙ (==_iff new.family_id f).0 here in
          omega (
            arith,
            ap (λ k. live_count k rows') same,
            claimed,
            one,
            some_family,
            at_most_one (is_live_in f new),
          )
    ]
