-- ===== src/Base/Order.antt =====
-- Total orders by a Boolean test, as Rust's `Ord` gives them: numbers, timestamps, and tuples in
-- lexicographic order.
use gtvdb.Base.{ℕ, ◌≡◌, ◌↔◌, Bool, true, false, not, ◌&&◌, ◌||◌, arith, ltb, Bool-cases, inl, inr}
use gtvdb.Base.Int.{ℤ, ltb_ℤ, ltb_ℤ-total}

pub record Order {ℓ} (A : Type ℓ) : Type ℓ where
  pub lt : A → A → Bool
  pub lt_irrefl : (a : A) → lt a a ≡ false
  pub lt_trans : (a b c : A) → lt a b ≡ true → lt b c ≡ true → lt a c ≡ true
  pub lt_total : (a b : A) → lt a b ≡ false → lt b a ≡ false → a ≡ b

pub nat_lt_total : (a b : ℕ) → ltb a b ≡ false → ltb b a ≡ false → a ≡ b
nat_lt_total a b h k = ground arith

pub nat_lt_trans : (a b c : ℕ) → ltb a b ≡ true → ltb b c ≡ true → ltb a c ≡ true
nat_lt_trans a b c h k = ground arith

pub nat_lt_irrefl : (a : ℕ) → ltb a a ≡ false
nat_lt_irrefl a = ground arith

pub int_lt_trans : (a b c : ℤ) → ltb_ℤ a b ≡ true → ltb_ℤ b c ≡ true → ltb_ℤ a c ≡ true
int_lt_trans a b c h k = ground arith

pub int_lt_irrefl : (a : ℤ) → ltb_ℤ a a ≡ false
int_lt_irrefl a = ground arith

abbrev pub nat_order : Order ℕ
nat_order = record {
  lt = ltb;
  lt_irrefl = nat_lt_irrefl;
  lt_trans = nat_lt_trans;
  lt_total = nat_lt_total;
}

abbrev pub int_order : Order ℤ
int_order = record {
  lt = ltb_ℤ;
  lt_irrefl = int_lt_irrefl;
  lt_trans = int_lt_trans;
  lt_total = ltb_ℤ-total;
}

module _ {ℓ} {A : Type ℓ} (o : Order A) where
  pub lt_asymm : (a b : A) → o.lt a b ≡ true → o.lt b a ≡ false
  lt_asymm a b h = elim (Bool-cases (o.lt b a)) [
    | inl k ↦ ground (arith, o.lt_trans a b a h k, o.lt_irrefl a)
    | inr k ↦ k
  ]

  -- `a ≤ b` and `b ≤ c` give `a ≤ c`.
  pub le_trans : (a b c : A) → o.lt b a ≡ false → o.lt c b ≡ false → o.lt c a ≡ false
  le_trans a b c h k = elim (Bool-cases (o.lt c a)) [
    | inr l ↦ l
    | inl l ↦ elim (Bool-cases (o.lt b c)) [
      | inl m ↦ ground (arith, o.lt_trans b c a m l)
      | inr m ↦ ground (arith, o.lt_total b c m k)
    ]
  ]

module _ {ℓ κ} {A : Type ℓ} {B : Type κ} (o : Order A) (p : Order B) where
  abbrev pub lex_lt : A × B → A × B → Bool
  lex_lt a b = o.lt a.0 b.0 || (not (o.lt b.0 a.0) && p.lt a.1 b.1)

  pub lex_irrefl : (a : A × B) → lex_lt a a ≡ false
  lex_irrefl a = ground (arith, o.lt_irrefl a.0, p.lt_irrefl a.1)

  pub lex_trans : (a b c : A × B) → lex_lt a b ≡ true → lex_lt b c ≡ true → lex_lt a c ≡ true
  lex_trans a b c h k = ground (
    arith,
    o.lt_trans a.0 b.0 c.0,
    le_trans o a.0 b.0 c.0,
    p.lt_trans a.1 b.1 c.1,
    le_trans o b.0 c.0 a.0,
    le_trans o c.0 a.0 b.0,
    lt_asymm o a.0 b.0,
    lt_asymm o b.0 c.0,
    lt_asymm o a.0 c.0,
  )

  pub lex_total : (a b : A × B) → lex_lt a b ≡ false → lex_lt b a ≡ false → a ≡ b
  lex_total a b h k = ground (arith, o.lt_total a.0 b.0, p.lt_total a.1 b.1)

  abbrev pub pair_order : Order (A × B)
  pair_order = record {
    lt = lex_lt;
    lt_irrefl = lex_irrefl;
    lt_trans = lex_trans;
    lt_total = lex_total;
  }

module _ {ℓ} {A : Type ℓ} (o : Order A) where
  abbrev pub eqb : A → A → Bool
  eqb a b = not (o.lt a b) && not (o.lt b a)

  pub eqb_iff : (a b : A) → (eqb a b ≡ true) ↔ (a ≡ b)
  eqb_iff a b = (λ h. ground (arith, o.lt_total a b), λ h. rw h (ground (arith, o.lt_irrefl b)))

-- The order that a type has through an injective key.
abbrev pub key_order {ℓ κ} :
    {A : Type ℓ} {K : Type κ}
    → Order K
    → (key : A → K) → ((a b : A) → key a ≡ key b → a ≡ b)
    → Order A
key_order o key injective = record {
  lt = λ a b. o.lt (key a) (key b);
  lt_irrefl = λ a. o.lt_irrefl (key a);
  lt_trans = λ a b c. o.lt_trans (key a) (key b) (key c);
  lt_total = λ a b h k. injective a b (o.lt_total (key a) (key b) h k);
}
