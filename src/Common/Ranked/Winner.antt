-- ===== src/Common/Ranked/Winner.antt =====
-- src/net/chaos_net_config.c, `chaos_net_config_select_better`: the rule that the loop ends with.
use macstab_chaos_testing_li.Prelude.{
  ℕ, ◌<◌, ◌≡◌, refl, ap, ◌∙◌, true, false, Option, none, some, List, [], ◌∷◌, ◌++◌, arith, All,
  Bool-cases, ◌⊎◌, inl, inr,
}
use macstab_chaos_testing_li.Common.Ranked.{Best, higher, as_best, consider, select_better}

-- The first pair of a rank and a length loses to the second.
abbrev pub Lower : ℕ → ℕ → ℕ → ℕ → Type 0
Lower m k n l = (m < n) ⊎ ((m ≡ n) × (k < l))

Lower-higher : (m k n l : ℕ) → higher n l m k ≡ true → Lower m k n l
Lower-higher m k n l h = ground arith

pub not-Lower_of : (m k n l : ℕ) → higher n l m k ≡ false → ¬ Lower m k n l
not-Lower_of m k n l h = ground arith

Lower-trans : (a b m k n l : ℕ) → Lower a b m k → Lower m k n l → Lower a b n l
Lower-trans a b m k n l h h' = ground arith

Lower-kept : (a b m k n l : ℕ) → ¬ Lower m k a b → Lower m k n l → Lower a b n l
Lower-kept a b m k n l h h' = ground arith

-- What a rule comes to beside a rank and a length: it does not apply, or it loses to them; or it does
-- not win over them.
abbrev pub Under : Option ℕ → ℕ → ℕ → ℕ → Type 0
Under none k n l = Unit
Under (some m) k n l = Lower m k n l

abbrev pub NotOver : Option ℕ → ℕ → ℕ → ℕ → Type 0
NotOver none k n l = Unit
NotOver (some m) k n l = ¬ Lower n l m k

module _ {R : Type 0} (rank : R → Option ℕ) (size : R → ℕ) where
  consider-none : (q : R) (best : Option (Best R)) → consider rank size q none best ≡ best
  unfolding consider
  consider-none q best = refl

  consider_kept :
      (q : R) (best : Best R) (m : ℕ)
      → ¬ Lower best.rank best.length m (size q)
      → consider rank size q (some m) (some best) ≡ some best
  unfolding consider
  consider_kept q best m h = elim (Bool-cases (higher m (size q) best.rank best.length)) [
    | inl up ↦ absurd (h (Lower-higher best.rank best.length m (size q) up))
    | inr down ↦ rw (down, consider) refl
  ]

module _ {R : Type 0} (rank : R → Option ℕ) (size : R → ℕ) where
  -- The rule that wins: the earlier ones that apply lose to it, and the later ones do not win over it.
  pub record Wins (rules : List R) (b : Best R) : Type 0 where
    pub earlier : List R
    pub later : List R
    pub whole : rules ≡ earlier ++ (b.rule ∷ later)
    pub ranked : rank b.rule ≡ some b.rank
    pub measured : b.length ≡ size b.rule
    pub first_best : All (λ q. Under (rank q) (size q) b.rank b.length) earlier
    pub best : All (λ q. NotOver (rank q) (size q) b.rank b.length) later

  -- What the result says of the rules: it wins, or no rule applies.
  abbrev pub Selects : List R → Option (Best R) → Type 0
  Selects rules none = All (λ q. rank q ≡ none) rules
  Selects rules (some b) = Wins rules b

  -- Behind a current best: it stays and nothing wins over it, or it is beaten.
  abbrev pub Goes : Best R → List R → Option (Best R) → Type 0
  Goes best rules none = ⊥
  Goes best rules (some b) =
      ((b ≡ best) × All (λ q. NotOver (rank q) (size q) best.rank best.length) rules)
      ⊎ (Wins rules b × Lower best.rank best.length b.rank b.length)

  Under-kept : (o : Option ℕ) (k m j n l : ℕ) → NotOver o k m j → Lower m j n l → Under o k n l
  Under-kept none k m j n l h h' = tt
  Under-kept (some a) k m j n l h h' = Lower-kept a k m j n l h h'

  behind :
      (q : R) {rs : List R} {b : Best R}
      → Under (rank q) (size q) b.rank b.length
      → Wins rs b
      → Wins (q ∷ rs) b
  behind q h w = record {
    earlier = q ∷ w.earlier;
    later = w.later;
    whole = ap (λ a. q ∷ a) w.whole;
    ranked = w.ranked;
    measured = w.measured;
    first_best = (h, w.first_best);
    best = w.best;
  }

  in_front :
      (q : R) (n : ℕ) {rs : List R}
      → rank q ≡ some n
      → All (λ r. NotOver (rank r) (size r) n (size q)) rs
      → Wins (q ∷ rs) (as_best rank size q n)
  in_front q n e a = record {
    earlier = [];
    later = _;
    whole = refl;
    ranked = e;
    measured = refl;
    first_best = tt;
    best = a;
  }

  -- one more rule in front, behind which the search goes on with the same best
  Goes-kept :
      (q : R) (best : Best R) (rs : List R) (o : Option (Best R))
      → NotOver (rank q) (size q) best.rank best.length
      → Goes best rs o
      → Goes best (q ∷ rs) o
  Goes-kept q best rs none h g = g
  Goes-kept q best rs (some b) h (inl (e, a)) = inl (e, (h, a))
  Goes-kept q best rs (some b) h (inr (w, l)) =
      inr (behind q (Under-kept (rank q) (size q) best.rank best.length b.rank b.length h l) w, l)

  -- one more rule in front that becomes the best
  Goes-replaced :
      (q : R) (n : ℕ) (best : Best R) (rs : List R) (o : Option (Best R))
      → rank q ≡ some n
      → Lower best.rank best.length n (size q)
      → Goes (as_best rank size q n) rs o
      → Goes best (q ∷ rs) o
  Goes-replaced q n best rs none e h g = g
  Goes-replaced q n best rs (some b) e h (inl (same, a)) =
      inr (rw same (in_front q n e a), rw same h)
  Goes-replaced q n best rs (some b) e h (inr (w, l)) =
      inr (behind q (rw e l) w, Lower-trans best.rank best.length n (size q) b.rank b.length h l)

  round-Goes :
      (q : R) (rs : List R) (best : Best R) (o : Option ℕ)
      → rank q ≡ o
      → ((b : Best R) → Goes b rs (select_better rank size rs (some b)))
      → Goes best (q ∷ rs) (select_better rank size rs (consider rank size q o (some best)))
  unfolding consider
  round-Goes q rs best none e rest =
      Goes-kept q best rs (select_better rank size rs (some best)) (rw e tt) (rest best)
  round-Goes q rs best (some n) e rest =
      elim (Bool-cases (higher n (size q) best.rank best.length)) [
        | inl up ↦
            rw (up, consider)
              (Goes-replaced q n best rs (select_better rank size rs (some (as_best rank size q n)))
                e (Lower-higher best.rank best.length n (size q) up) (rest (as_best rank size q n)))
        | inr down ↦
            rw (down, consider)
              (Goes-kept q best rs (select_better rank size rs (some best))
                (rw e (not-Lower_of best.rank best.length n (size q) down)) (rest best))
      ]

  pub select_better-Goes :
      (rs : List R) (best : Best R) → Goes best rs (select_better rank size rs (some best))
  unfolding select_better
  select_better-Goes [] best = inl (refl, tt)
  select_better-Goes (q ∷ rs) best = round-Goes q rs best (rank q) refl (select_better-Goes rs)

  Selects-kept :
      (q : R) (rs : List R) (o : Option (Best R))
      → rank q ≡ none
      → Selects rs o
      → Selects (q ∷ rs) o
  Selects-kept q rs none e s = (e, s)
  Selects-kept q rs (some b) e w = behind q (rw e tt) w

  Selects-first :
      (q : R) (n : ℕ) (rs : List R) (o : Option (Best R))
      → rank q ≡ some n
      → Goes (as_best rank size q n) rs o
      → Selects (q ∷ rs) o
  Selects-first q n rs none e g = absurd g
  Selects-first q n rs (some b) e (inl (same, a)) = rw same (in_front q n e a)
  Selects-first q n rs (some b) e (inr (w, l)) = behind q (rw e l) w

  round-Selects :
      (q : R) (rs : List R) (o : Option ℕ)
      → rank q ≡ o
      → Selects rs (select_better rank size rs none)
      → Selects (q ∷ rs) (select_better rank size rs (consider rank size q o none))
  unfolding consider
  round-Selects q rs none e rest = Selects-kept q rs (select_better rank size rs none) e rest
  round-Selects q rs (some n) e rest =
      Selects-first q n rs (select_better rank size rs (some (as_best rank size q n))) e
        (select_better-Goes rs (as_best rank size q n))

  -- The search finds the rule of the highest rank, of equal ranks the one with the longest selector, and of
  -- these the first in the file; it finds none exactly if no rule applies.
  pub select_better-Selects : (rs : List R) → Selects rs (select_better rank size rs none)
  unfolding select_better
  select_better-Selects [] = tt
  select_better-Selects (q ∷ rs) = round-Selects q rs (rank q) refl (select_better-Selects rs)

  -- nothing changes where no rule beats the best
  pub select_better_kept :
      (rs : List R) (best : Best R)
      → All (λ q. NotOver (rank q) (size q) best.rank best.length) rs
      → select_better rank size rs (some best) ≡ some best
  unfolding select_better
  select_better_kept [] best a = refl
  select_better_kept (q ∷ rs) best (h, a) =
      ap (λ b. select_better rank size rs b) (keeps (rank q) h) ∙ select_better_kept rs best a
    where
      keeps :
          (o : Option ℕ)
          → NotOver o (size q) best.rank best.length
          → consider rank size q o (some best) ≡ some best
      keeps none n = consider-none rank size q (some best)
      keeps (some m) n = consider_kept rank size q best m n
