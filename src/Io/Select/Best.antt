-- ===== src/Io/Select/Best.antt =====
-- src/config/chaos_io_config.c: the rule that `chaos_io_config_select_rule` ends with.
use macstab_chaos_testing_li.Prelude.{
  ℕ, ◌≤◌, ◌<◌, ◌≡◌, refl, ap, Bool, true, false, ◌&&◌, Option, none, some, List, [], ◌∷◌, ◌++◌,
  arith, Bytes, length, All, Bool-cases, ◌⊎◌, inl, inr,
}
use macstab_chaos_testing_li.Io.Rule.{Operation, Rule}
use macstab_chaos_testing_li.Io.Select.{applies, better, select_from, select_rule}

-- Where the test passes, the prefix is shorter than, or at most as long as, a given length.
abbrev pub Shorter : (Rule → Bool) → ℕ → Rule → Type 0
Shorter test n r = test r ≡ true → length r.path_prefix < n

abbrev pub NotLonger : (Rule → Bool) → ℕ → Rule → Type 0
NotLonger test n r = test r ≡ true → length r.path_prefix ≤ n

-- The rule that wins: the earlier ones that pass have shorter prefixes, the later ones none longer.
pub record Wins (test : Rule → Bool) (rules : List Rule) (r : Rule) : Type 0 where
  pub earlier : List Rule
  pub later : List Rule
  pub whole : rules ≡ earlier ++ (r ∷ later)
  pub passes : test r ≡ true
  pub first_longest : All (Shorter test (length r.path_prefix)) earlier
  pub longest : All (NotLonger test (length r.path_prefix)) later

-- What the result says of the rules: it wins, or no rule passes.
abbrev pub Selects : (Rule → Bool) → List Rule → Option Rule → Type 0
Selects test rules none = All (λ r. test r ≡ false) rules
Selects test rules (some r) = Wins test rules r

-- Ahead of a current best: it stays and nothing passes that is longer, or it is beaten.
abbrev Beats : (Rule → Bool) → Rule → List Rule → Option Rule → Type 0
Beats test best rules none = ⊥
Beats test best rules (some r) =
    ((r ≡ best) × All (NotLonger test (length best.path_prefix)) rules)
    ⊎ (Wins test rules r × (length best.path_prefix < length r.path_prefix))

module _ (test : Rule → Bool) where
  Shorter-trans :
      (n m : ℕ) (rs : List Rule) → n < m → All (NotLonger test n) rs → All (Shorter test m) rs
  Shorter-trans n m [] h a = tt
  Shorter-trans n m (r ∷ rs) h (x, a) = (λ e. omega (arith, x e), Shorter-trans n m rs h a)

  -- one more rule in front, which the winner beats
  behind :
      (q : Rule) {rs : List Rule} {r : Rule}
      → Shorter test (length r.path_prefix) q
      → Wins test rs r
      → Wins test (q ∷ rs) r
  behind q h w = record {
    earlier = q ∷ w.earlier;
    later = w.later;
    whole = ap (λ a. q ∷ a) w.whole;
    passes = w.passes;
    first_longest = (h, w.first_longest);
    longest = w.longest;
  }

  in_front :
      (q : Rule) {rs : List Rule}
      → test q ≡ true
      → All (NotLonger test (length q.path_prefix)) rs
      → Wins test (q ∷ rs) q
  in_front q h a = record {
    earlier = [];
    later = _;
    whole = refl;
    passes = h;
    first_longest = tt;
    longest = a;
  }

  -- one more rule in front of a search that goes on with the same best
  Beats-kept :
      (q best : Rule) (rs : List Rule) (o : Option Rule)
      → NotLonger test (length best.path_prefix) q
      → Beats test best rs o
      → Beats test best (q ∷ rs) o
  Beats-kept q best rs none h b = b
  Beats-kept q best rs (some r) h (inl (e, a)) = inl (e, (h, a))
  Beats-kept q best rs (some r) h (inr (w, l)) = inr (behind q (λ t. omega (arith, h t, l)) w, l)

  -- one more rule in front that becomes the best
  Beats-replaced :
      (q best : Rule) (rs : List Rule) (o : Option Rule)
      → test q ≡ true
      → length best.path_prefix < length q.path_prefix
      → Beats test q rs o
      → Beats test best (q ∷ rs) o
  Beats-replaced q best rs none t h b = b
  Beats-replaced q best rs (some r) t h (inl (e, a)) = inr (rw e (in_front q t a), rw e h)
  Beats-replaced q best rs (some r) t h (inr (w, l)) =
      inr (behind q (λ _. l) w, omega (arith, h, l))

  select_from-Beats :
      (rs : List Rule) (best : Rule) → Beats test best rs (select_from test rs (some best))
  unfolding select_from
  select_from-Beats [] best = inl (refl, tt)
  select_from-Beats (q ∷ rs) best = elim (Bool-cases (test q && better q (some best))) [
    | inl new ↦
        rw (new, select_from)
          (Beats-replaced q best rs (select_from test rs (some q)) (ground arith) (ground arith)
            (select_from-Beats rs q))
    | inr old ↦
        rw (old, select_from)
          (Beats-kept q best rs (select_from test rs (some best)) (λ t. ground arith)
            (select_from-Beats rs best))
  ]

  Selects-kept :
      (q : Rule) (rs : List Rule) (o : Option Rule)
      → test q ≡ false
      → Selects test rs o
      → Selects test (q ∷ rs) o
  Selects-kept q rs none h s = (h, s)
  Selects-kept q rs (some r) h w = behind q (λ t. absurd (ground (arith, t, h))) w

  Selects-first :
      (q : Rule) (rs : List Rule) (o : Option Rule)
      → test q ≡ true
      → Beats test q rs o
      → Selects test (q ∷ rs) o
  Selects-first q rs none h b = absurd b
  Selects-first q rs (some r) h (inl (e, a)) = rw e (in_front q h a)
  Selects-first q rs (some r) h (inr (w, l)) = behind q (λ _. l) w

  select_from-Selects : (rs : List Rule) → Selects test rs (select_from test rs none)
  unfolding select_from
  select_from-Selects [] = tt
  select_from-Selects (q ∷ rs) = elim (Bool-cases (test q)) [
    | inl hit ↦
        rw (hit, select_from)
          (Selects-first q rs (select_from test rs (some q)) hit (select_from-Beats rs q))
    | inr miss ↦
        rw (miss, select_from)
          (Selects-kept q rs (select_from test rs none) miss (select_from-Selects rs))
  ]

-- The rule that `chaos_io_config_select_rule` returns is of the operation and covers the path, no
-- rule that does has a longer prefix, and among those with the longest it is the first in the
-- file; and it returns none exactly if no rule of the operation covers the path.
pub select_rule-Selects :
    (rules : List Rule) (op : Operation) (path : Bytes)
    → Selects (applies op path) rules (select_rule rules op path)
unfolding select_rule
select_rule-Selects rules op path = select_from-Selects (applies op path) rules
